-- ===== src/CText/Decimal.antt =====
-- Decimal numbers: what is printed is read back, and how many bytes it takes.
use conan_exiles_teamspeak.Prelude.{
  ℕ, zero, suc, ◌+◌, ◌*◌, ◌/◌, ◌%◌, ◌≤◌, ◌<◌, ◌≡◌, refl, true, false, some, [], ◌∷◌, length, arith,
}
use conan_exiles_teamspeak.CText.{
  Bytes, peek, is_digit, read_digits, skip_spaces, read_sign, scan_number, print_onto, print,
}

read_digits-digit :
    (acc d : ℕ) (out : Bytes)
    → d < 10
    → read_digits acc ((b'0' + d) ∷ out) ≡ read_digits (acc * 10 + d) out
unfolding read_digits
read_digits-digit acc d out h = ground (arith)

-- Reading back a printed number continues as if its value had been read.
read_digits-print_onto :
    (fuel n : ℕ) (out : Bytes)
    → n < fuel
    → read_digits 0 (print_onto fuel n out) ≡ read_digits n out
unfolding print_onto
read_digits-print_onto zero n out h = elim h [ ]
read_digits-print_onto (suc fuel) n out h = ground (
  arith,
  read_digits-digit 0 (n % 10) out,
  read_digits-print_onto fuel (n / 10) ((b'0' + n % 10) ∷ out),
  read_digits-digit (n / 10) (n % 10) out,
)

-- A printed number begins with a digit.
print_onto-digit :
    (fuel n : ℕ) (out : Bytes) → n < fuel → is_digit (peek (print_onto fuel n out)) ≡ true
unfolding print_onto is_digit
print_onto-digit zero n out h = elim h [ ]
print_onto-digit (suc fuel) n out h =
    ground (arith, print_onto-digit fuel (n / 10) ((b'0' + n % 10) ∷ out))

pub print-digit : (n : ℕ) (out : Bytes) → is_digit (peek (print n out)) ≡ true
unfolding print
print-digit n out = print_onto-digit (suc n) n out (omega arith)

skip_spaces-digit : (text : Bytes) → is_digit (peek text) ≡ true → skip_spaces text ≡ text
unfolding skip_spaces is_digit
skip_spaces-digit [] h = refl
skip_spaces-digit (c ∷ cs) h = ground arith

read_sign-digit : (text : Bytes) → is_digit (peek text) ≡ true → read_sign text ≡ (false, text)
unfolding read_sign is_digit
read_sign-digit [] h = refl
read_sign-digit (c ∷ cs) h = ground arith

scan_number-digits :
    (text : Bytes)
    → is_digit (peek text) ≡ true
    → scan_number text
      ≡ some (record {
        minus = false;
        magnitude = (read_digits 0 text).0;
        rest = (read_digits 0 text).1;
      })
unfolding scan_number
scan_number-digits text h = rw (skip_spaces-digit text h, read_sign-digit text h, h)

read_digits-stop :
    (n : ℕ) (out : Bytes) → is_digit (peek out) ≡ false → read_digits n out ≡ (n, out)
unfolding read_digits is_digit
read_digits-stop n [] h = refl
read_digits-stop n (c ∷ cs) h = ground arith

-- Scanning what was printed in front of a text that does not begin with a digit.
pub scan_number-print :
    (n : ℕ) (out : Bytes)
    → is_digit (peek out) ≡ false
    → scan_number (print n out) ≡ some (record { minus = false; magnitude = n; rest = out })
unfolding print
scan_number-print n out h = rw (
  scan_number-digits _ (print_onto-digit (suc n) n out (omega arith)),
  read_digits-print_onto (suc n) n out (omega arith),
  read_digits-stop n out h,
)

abbrev pub power_ten : ℕ → ℕ
power_ten zero = 1
power_ten (suc k) = 10 * power_ten k

length-print_onto :
    (fuel k n : ℕ) (out : Bytes)
    → n < 10 * power_ten k
    → length (print_onto fuel n out) ≤ suc k + length out
unfolding print_onto
length-print_onto zero k n out h = omega arith
length-print_onto (suc fuel) zero n out h = ground arith
length-print_onto (suc fuel) (suc k) n out h =
    ground (arith, length-print_onto fuel k (n / 10) ((b'0' + n % 10) ∷ out))

-- A number below `10 ^ (k + 1)` takes at most `k + 1` bytes.
pub length-print :
    (k n : ℕ) (out : Bytes) → n < 10 * power_ten k → length (print n out) ≤ suc k + length out
unfolding print
length-print k n out h = length-print_onto (suc n) k n out h
