-- ===== src/CText.antt =====
-- The part of the C library that the protocol code calls on text: NUL-terminated strings,
-- `strncmp`, `strcmp`, `strtol`, `strtoul`, `strtoull` in base 10, and `snprintf` of decimal numbers.
--
-- A C string is the list of its bytes before the terminating NUL, so `*p` at the end is 0
-- (`peek`). `long` and `unsigned long` have 32 bits, as on the Windows builds that ship;
-- `unsigned long long` has 64.
pub mod Decimal
pub mod Equality
use conan_exiles_teamspeak.Prelude.{
  ℕ, zero, suc, ◌+◌, ◌-◌, ◌*◌, ◌/◌, ◌%◌, ◌^◌, Bool, true, false, ◌&&◌, ◌||◌, Option, none, some,
  List, [], ◌∷◌, length, ltb, leb, ◌==◌, if◌then◌else◌,
}
use Prim.Native.Char.{code}
use Prim.Native.String.{String}

abbrev pub Bytes : Type 0
Bytes = List ℕ

-- A literal of the source as bytes (all literals used are ASCII).
abbrev pub codes : String → Bytes
codes String.[] = []
codes (String.◌∷◌ c s) = code c ∷ codes s

-- `*p` and `p + 1`.
abbrev pub peek : Bytes → ℕ
peek [] = 0
peek (c ∷ cs) = c

abbrev pub tail : Bytes → Bytes
tail [] = []
tail (c ∷ cs) = cs

-- `strcmp(a, b) == 0`.
unfoldable pub str_same : Bytes → Bytes → Bool
str_same [] [] = true
str_same (x ∷ xs) (y ∷ ys) = x == y && str_same xs ys
str_same _ _ = false

-- `strncmp(text, prefix, strlen(prefix)) == 0`, with the text behind the prefix.
unfoldable pub strip_prefix : Bytes → Bytes → Option Bytes
strip_prefix [] text = some text
strip_prefix (p ∷ ps) [] = none
strip_prefix (p ∷ ps) (c ∷ cs) = if p == c then strip_prefix ps cs else none

-- The bytes in front of the first NUL.
unfoldable pub until_nul : Bytes → Bytes
until_nul [] = []
until_nul (c ∷ cs) = if c == 0 then [] else c ∷ until_nul cs

-- The text without the bytes at its end that the test holds for.
unfoldable pub strip_end : (ℕ → Bool) → Bytes → Bytes
strip_end test [] = []
strip_end test (c ∷ cs) =
    let rest = strip_end test cs in if length rest == 0 && test c then [] else c ∷ rest

unfoldable pub is_digit : ℕ → Bool
is_digit c = leb b'0' c && leb c b'9'

-- `isspace` in the C locale.
unfoldable pub is_space : ℕ → Bool
is_space c = c == 32 || (leb 9 c && leb c 13)

unfoldable pub skip_spaces : Bytes → Bytes
unfolding is_space
skip_spaces [] = []
skip_spaces (c ∷ cs) = if is_space c then skip_spaces cs else c ∷ cs

-- The longest run of digits, added to the value read so far, and the text behind it.
unfoldable pub read_digits : ℕ → Bytes → ℕ × Bytes
unfolding is_digit
read_digits acc [] = (acc, [])
read_digits acc (c ∷ cs) =
    if is_digit c then read_digits (acc * 10 + (c - b'0')) cs else (acc, c ∷ cs)

-- An optional sign: whether it is a minus, and the text behind it.
unfoldable pub read_sign : Bytes → Bool × Bytes
read_sign [] = (false, [])
read_sign (c ∷ cs) =
    if c == b'-' then (true, cs) else if c == b'+' then (false, cs) else (false, c ∷ cs)

-- What `strto*` reads: a sign, a magnitude and the rest (`end`); `none` if there are no digits
-- (`end` is then the start of the text).
pub record Number : Type 0 where
  pub minus : Bool
  pub magnitude : ℕ
  pub rest : Bytes

unfoldable pub scan_number : Bytes → Option Number
unfolding skip_spaces read_sign read_digits
scan_number text =
    let (neg, body) = read_sign (skip_spaces text) in
    let (m, after) = read_digits 0 body in
    if is_digit (peek body)
    then some (record { minus = neg; magnitude = m; rest = after })
    else none

-- The magnitude that the result type of `strtol` can hold on each side (32-bit `long`).
abbrev pub long_max : ℕ
long_max = 2 ^ 31 - 1

-- `strtol`: a sign and a magnitude, cut at the ends of the range. `-0` has the sign too.
unfoldable pub long_magnitude : Number → ℕ
long_magnitude n =
    if n.minus
    then (if ltb (2 ^ 31) n.magnitude then 2 ^ 31 else n.magnitude)
    else (if ltb long_max n.magnitude then long_max else n.magnitude)

-- `strtol(...) == k` and `lo <= strtol(...) <= hi` for constants that are not negative.
unfoldable pub long_is : ℕ → Number → Bool
unfolding long_magnitude
long_is k n = long_magnitude n == k && (if n.minus then k == 0 else true)

unfoldable pub long_in : ℕ → Number → Bool
unfolding long_magnitude
long_in hi n = leb (long_magnitude n) hi && (if n.minus then long_magnitude n == 0 else true)

-- `strtoul` and `strtoull`: beyond the range the largest value; a minus negates in the
-- unsigned type.
unfoldable pub unsigned_value : ℕ → Number → ℕ
unsigned_value modulus n =
    if ltb n.magnitude modulus
    then (if n.minus then (modulus - n.magnitude) % modulus else n.magnitude)
    else modulus - 1

-- `%d`, `%lu`, `%llu`, `%ld` of a number that is not negative, in front of what follows.
unfoldable pub print_onto : ℕ → ℕ → Bytes → Bytes
print_onto zero n out = out
print_onto (suc fuel) n out =
    let rest = print_onto fuel (n / 10) ((b'0' + n % 10) ∷ out) in
    if ltb n 10 then (b'0' + n % 10) ∷ out else rest

-- `n + 1` rounds are more than the digits of `n` (`Decimal.read_digits-print`).
unfoldable pub print : ℕ → Bytes → Bytes
unfolding print_onto
print n out = print_onto (suc n) n out

-- `snprintf(out, outSize, ...)` with the guard `written <= 0 || written >= outSize`: the
-- formatted text, or nothing where it does not fit with its NUL.
unfoldable pub fits : ℕ → Bytes → Option Bytes
fits out_size text =
    if length text == 0 then none else if ltb (length text) out_size then some text else none
