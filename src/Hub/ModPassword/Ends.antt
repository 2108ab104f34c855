-- ===== src/Hub/ModPassword/Ends.antt =====
-- A text without the bytes of one kind at its end (src/core/hub/mod_password.c).
use conan_exiles_teamspeak.Prelude.{
  ℕ, ◌≡◌, refl, ap, Bool, true, ◌&&◌, [], ◌∷◌, ◌++◌, ◌==◌, arith, inl, inr, Bool-cases, ◌↔◌, length,
  if_either, if◌then◌else◌,
}
use conan_exiles_teamspeak.CText.{Bytes, strip_end}

abbrev pub AllOf : (ℕ → Type 0) → Bytes → Type 0
AllOf Kind [] = Unit
AllOf Kind (c ∷ cs) = Kind c × AllOf Kind cs

abbrev pub EndsNot : (ℕ → Type 0) → Bytes → Type 0
EndsNot Kind [] = Unit
EndsNot Kind (c ∷ []) = ¬ Kind c
EndsNot Kind (c ∷ (d ∷ ds)) = EndsNot Kind (d ∷ ds)

-- What is left of a text when all bytes of a kind are taken off its end.
abbrev pub IsWithout : (ℕ → Type 0) → Bytes → Bytes → Type 0
IsWithout Kind text kept =
    (back : Bytes) × (text ≡ kept ++ back) × AllOf Kind back × EndsNot Kind kept

module _ (test : ℕ → Bool) (Kind : ℕ → Type 0) (decides : (c : ℕ) → (test c ≡ true) ↔ Kind c) where
  one_more :
      (c : ℕ) (cs rest : Bytes)
      → IsWithout Kind cs rest
      → IsWithout Kind (c ∷ cs) (if length rest == 0 && test c then [] else c ∷ rest)
  one_more c cs [] (back, split, all, ends) = elim (Bool-cases (test c)) [
    | inl is ↦ rw is (c ∷ back, ap (◌∷◌ c) split, ((decides c).0 is, all), tt)
    | inr other ↦
        rw other (back, ap (◌∷◌ c) split, all, λ kind. absurd (ground (arith, (decides c).1 kind)))
  ]
  one_more c cs (d ∷ ds) (back, split, all, ends) =
      if_either (IsWithout Kind (c ∷ cs)) (length (d ∷ ds) == 0 && test c)
        (λ none_left. absurd (ground arith)) (λ more. (back, ap (◌∷◌ c) split, all, ends))

  pub strip_end-IsWithout : (text : Bytes) → IsWithout Kind text (strip_end test text)
  unfolding strip_end
  strip_end-IsWithout [] = ([], refl, tt, tt)
  strip_end-IsWithout (c ∷ cs) = one_more c cs (strip_end test cs) (strip_end-IsWithout cs)
