-- ===== src/Config/Utf8/Shortest.antt =====
-- The shortest form of a code point (src/core/config/config_text.h).
use conan_exiles_teamspeak.Prelude.{
  ℕ, ◌+◌, ◌*◌, ◌%◌, ◌≤◌, ◌<◌, ◌≡◌, ap₂, true, false, ◌∷◌, ltb, arith,
}
use conan_exiles_teamspeak.CText.{Bytes}
use conan_exiles_teamspeak.Config.Utf8.{code_point_ok}
use conan_exiles_teamspeak.Config.Utf8.Encoded.{IsScalar, encode}

-- A code point that passes is a scalar value, and has no shorter form.
pub code_point_ok-IsScalar :
    (extra cp : ℕ)
    → code_point_ok extra cp ≡ true
    → IsScalar cp × (extra ≡ 2 → 2048 ≤ cp) × (extra ≡ 3 → 65536 ≤ cp)
unfolding code_point_ok
code_point_ok-IsScalar extra cp h = (ground arith, (λ e. ground arith), (λ e. ground arith))

pub encode_two :
    (c x : ℕ) (out : Bytes)
    → 194 ≤ c
    → c ≤ 223
    → x < 64
    → c ∷ ((128 + x) ∷ out) ≡ encode (c % 32 * 64 + x) out
encode_two c x out a b h =
    let cp = c % 32 * 64 + x in
    let first : ltb cp 128 ≡ false = ground arith in
    let second : ltb cp 2048 ≡ true = ground arith in
    rw (first, second) (ap₂ (λ y z. y ∷ (z ∷ out)) (omega arith) (omega arith))

pub encode_three :
    (c x y : ℕ) (out : Bytes)
    → 224 ≤ c
    → c ≤ 239
    → x < 64
    → y < 64
    → 2048 ≤ (c % 16 * 64 + x) * 64 + y
    → c ∷ ((128 + x) ∷ ((128 + y) ∷ out)) ≡ encode ((c % 16 * 64 + x) * 64 + y) out
encode_three c x y out a b h k low =
    let cp = (c % 16 * 64 + x) * 64 + y in
    let first : ltb cp 128 ≡ false = ground arith in
    let second : ltb cp 2048 ≡ false = ground arith in
    let third : ltb cp 65536 ≡ true = ground arith in
    rw (first, second, third)
      (ap₂ (λ u v. u ∷ v) (omega arith) (ap₂ (λ u v. u ∷ (v ∷ out)) (omega arith) (omega arith)))

pub encode_four :
    (c x y z : ℕ) (out : Bytes)
    → 240 ≤ c
    → c ≤ 244
    → x < 64
    → y < 64
    → z < 64
    → 65536 ≤ ((c % 8 * 64 + x) * 64 + y) * 64 + z
    → c ∷ ((128 + x) ∷ ((128 + y) ∷ ((128 + z) ∷ out)))
      ≡ encode (((c % 8 * 64 + x) * 64 + y) * 64 + z) out
encode_four c x y z out a b h k l low =
    let cp = ((c % 8 * 64 + x) * 64 + y) * 64 + z in
    let first : ltb cp 128 ≡ false = ground arith in
    let second : ltb cp 2048 ≡ false = ground arith in
    let third : ltb cp 65536 ≡ false = ground arith in
    rw (first, second, third)
      (ap₂ (λ u v. u ∷ v) (omega arith)
        (ap₂ (λ u v. u ∷ v) (omega arith) (ap₂ (λ u v. u ∷ (v ∷ out)) (omega arith) (omega arith))))
