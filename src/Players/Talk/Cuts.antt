-- ===== src/Players/Talk/Cuts.antt =====
-- Cuts of lists, for the sixteen places of src/core/proximity/talk_state.c.
use conan_exiles_teamspeak.Prelude.{
  ℕ, zero, suc, ◌≤◌, ◌≡◌, refl, ap, true, false, List, [], ◌∷◌, ◌++◌, leb, arith, length, take,
  drop,
}

-- A cut of a list with an element put in is made by cutting the rest one shorter.
pub cut_lem :
    {A : Type 0}
    → (s k : ℕ) (x : A) (p : List A) → s ≤ k
    → s ≤ length p
    → take (suc k) (take s p ++ (x ∷ drop s p)) ≡ take s p ++ (x ∷ drop s (take k p))
cut_lem zero k x p h l = refl
cut_lem (suc s) zero x p h l = absurd (omega arith)
cut_lem (suc s) (suc k) x [] h l = absurd (omega arith)
cut_lem (suc s) (suc k) x (y ∷ p) h l = ap (◌∷◌ y) (cut_lem s k x p (omega arith) (omega arith))

pub take_whole : {A : Type 0} → (k : ℕ) (p : List A) → length p ≤ k → take k p ≡ p
take_whole zero [] h = refl
take_whole zero (x ∷ p) h = absurd (omega arith)
take_whole (suc k) [] h = refl
take_whole (suc k) (x ∷ p) h = ap (◌∷◌ x) (take_whole k p (omega arith))

pub take_front : {A : Type 0} → (k : ℕ) (p q : List A) → length p ≡ k → take k (p ++ q) ≡ p
take_front zero [] q h = refl
take_front zero (x ∷ p) q h = absurd (omega arith)
take_front (suc k) [] q h = absurd (omega arith)
take_front (suc k) (x ∷ p) q h = ap (◌∷◌ x) (take_front k p q (omega arith))

pub take_twice : {A : Type 0} → (j k : ℕ) (p : List A) → j ≤ k → take j (take k p) ≡ take j p
take_twice zero k p h = refl
take_twice (suc j) zero p h = absurd (omega arith)
take_twice (suc j) (suc k) [] h = refl
take_twice (suc j) (suc k) (x ∷ p) h = ap (◌∷◌ x) (take_twice j k p (omega arith))

pub place_left : {s : ℕ} → leb 16 s ≡ false → s ≤ 15
place_left h = ground arith

pub all_full : {s n : ℕ} → leb 16 s ≡ true → s ≤ n → n ≤ 16 → n ≡ 16
all_full h a b = ground arith

pub ends_there : {s n : ℕ} → leb 16 s ≡ true → s ≤ n → n ≤ 16 → n ≤ s
ends_there h a b = ground arith
