-- ===== src/CText/Equality.antt =====
-- Comparisons of texts, and texts cut to a buffer.
use conan_exiles_teamspeak.Prelude.{
  ℕ, zero, suc, ◌≤◌, ◌≡◌, refl, ap, true, List, [], ◌∷◌, arith, length, take,
}
use conan_exiles_teamspeak.CText.{Bytes, str_same}

pub str_same_refl : (a : Bytes) → str_same a a ≡ true
unfolding str_same
str_same_refl [] = refl
str_same_refl (x ∷ xs) = ground (arith, str_same_refl xs)

pub str_same_sound : (a b : Bytes) → str_same a b ≡ true → a ≡ b
unfolding str_same
str_same_sound [] [] h = refl
str_same_sound (x ∷ xs) (y ∷ ys) h = ground (arith, str_same_sound xs ys)
str_same_sound _ _ h = cc

pub take-all {ℓ} : {A : Type ℓ} (n : ℕ) (xs : List A) → length xs ≤ n → take n xs ≡ xs
take-all zero [] h = refl
take-all zero (x ∷ xs) h = absurd (omega arith)
take-all (suc n) [] h = refl
take-all (suc n) (x ∷ xs) h = ap (◌∷◌ x) (take-all n xs (omega arith))
