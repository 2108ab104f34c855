-- ===== src/Nick/Digits.antt =====
-- What the random names look like (src/ts/nick/nick_anonymize.c).
use conan_exiles_teamspeak.Prelude.{
  ℕ, zero, suc, ◌+◌, ◌-◌, ◌%◌, ◌≤◌, ◌<◌, ◌≡◌, refl, ap, true, false, ◌∷◌, ltb, arith, length,
}
use conan_exiles_teamspeak.CText.{Bytes, is_digit}
use conan_exiles_teamspeak.Nick.{
  more_digits, clamp_digits, make_random, only_digits, looks_anonymized,
}

length-more_digits : (left i r : ℕ) → length (more_digits left i r) ≡ left
unfolding more_digits
length-more_digits zero i r = refl
length-more_digits (suc left) i r = ap suc (length-more_digits left (i + 1) _)

digit_is_digit : (n : ℕ) → is_digit (b'0' + n % 10) ≡ true
unfolding is_digit
digit_is_digit n = ground arith

more_digits_only : (left i r : ℕ) → only_digits (more_digits left i r) ≡ true
unfolding more_digits only_digits
more_digits_only zero i r = refl
more_digits_only (suc left) i r = rw digit_is_digit (more_digits_only left (i + 1) _)

first_is_digit : (r : ℕ) → is_digit (b'1' + r % 9) ≡ true
unfolding is_digit
first_is_digit r = ground arith

clamp_digits_bounds :
    (digit_count : ℕ) → (8 ≤ clamp_digits digit_count) × (clamp_digits digit_count ≤ 10)
unfolding clamp_digits
clamp_digits_bounds digit_count = ground arith

digits_look_anonymized :
    (count r : ℕ)
    → 8 ≤ count
    → count ≤ 10
    → looks_anonymized ((b'1' + r % 9) ∷ more_digits (count - 1) 1 r) ≡ true
unfolding looks_anonymized only_digits
digits_look_anonymized count r low high =
    ground (
      arith,
      length-more_digits (count - 1) 1 r,
      more_digits_only (count - 1) 1 r,
      first_is_digit r,
    )

-- Whatever number of digits is asked for and whatever the random number, a random name written
-- into a buffer of at least 11 bytes has 8 to 10 digits, the first of them not 0, and is
-- recognized as an anonymized name.
pub make_random_lem :
    (out_size digit_count r : ℕ)
    → 11 ≤ out_size
    → let name = make_random out_size digit_count r in
      (looks_anonymized name ≡ true)
      × (8 ≤ length name)
      × (length name ≤ 10)
      × ((rest : Bytes) × (d : ℕ) × (name ≡ (b'1' + d) ∷ rest) × (d < 9))
unfolding make_random
make_random_lem out_size digit_count r room =
    let (low, high) = clamp_digits_bounds digit_count in
    let count = clamp_digits digit_count in
    let fits : ltb out_size (count + 1) ≡ false = ground arith in
    let size = length-more_digits (count - 1) 1 r in
    rw fits (
      digits_look_anonymized count r low high,
      omega (arith, size),
      omega (arith, size),
      (more_digits (count - 1) 1 r, r % 9, refl, omega arith),
    )
