-- ===== src/Hub/ModPassword/Body.antt =====
-- The body after the password is cut off (src/core/hub/mod_password.c).
use conan_exiles_teamspeak.Prelude.{
  ℕ, zero, suc, ◌+◌, ◌≤◌, ◌<◌, ◌≡◌, refl, ◌∙◌, ap, sym, ap₂, Bool, true, false, ◌&&◌, Option, none,
  some, [], ◌∷◌, ◌++◌, ◌==◌, arith, Bool-cases, inl, inr, length, Option-cases, append_assoc,
  get_elem?, take, drop, length-append,
}
use conan_exiles_teamspeak.Prelude.{replicate}
use conan_exiles_teamspeak.CText.{Bytes, strip_prefix, until_nul, strip_end}
use conan_exiles_teamspeak.Hub.ModPassword.{is_blank, field, find_field, field_at, or_later}

pub strip_prefix-append :
    (p text more rest : Bytes)
    → strip_prefix p text ≡ some rest
    → strip_prefix p (text ++ more) ≡ some (rest ++ more)
unfolding strip_prefix
strip_prefix-append [] text more rest h = cc
strip_prefix-append (a ∷ p) [] more rest h = cc
strip_prefix-append (a ∷ p) (c ∷ cs) more rest h =
    ground (arith, strip_prefix-append p cs more rest)

field_at-append :
    (edge : Bool) (text more rest : Bytes)
    → field_at edge text ≡ some rest
    → field_at edge (text ++ more) ≡ some (rest ++ more)
unfolding field_at
field_at-append true text more rest h = strip_prefix-append field text more rest h
field_at-append false text more rest h = cc

field_at-none :
    (edge : Bool) (text more : Bytes)
    → field_at edge (text ++ more) ≡ none
    → field_at edge text ≡ none
field_at-none edge text more h = elim (Option-cases (field_at edge text)) [
  | inl n ↦ n
  | inr (rest, e) ↦ let found = field_at-append edge text more rest e in cc
]

pub or_later-nil :
    (c : ℕ) (v : Bytes) (later : Option (Bytes × Bytes)) (front value : Bytes)
    → or_later c (some v) later ≡ some (front, value)
    → front ≡ []
or_later-nil c v later front value h = cc

pub or_later-cons :
    (c : ℕ) (later : Option (Bytes × Bytes)) (front value : Bytes)
    → or_later c none later ≡ some (front, value)
    → (more : Bytes) × (front ≡ c ∷ more) × (later ≡ some (more, value))
or_later-cons c none front value h = cc
or_later-cons c (some (more, v)) front value h = (more, cc, cc)

pub find_field-cons :
    (edge : Bool) (c : ℕ) (cs : Bytes)
    → find_field edge (c ∷ cs) ≡ or_later c (field_at edge (c ∷ cs)) (find_field (is_blank c) cs)
unfolding find_field
find_field-cons edge c cs = refl

pub find_field-nil : (edge : Bool) → find_field edge [] ≡ none
unfolding find_field
find_field-nil edge = refl

-- The front of the first field holds no field itself.
find_field-front :
    (edge : Bool) (text front value more : Bytes)
    → find_field edge (text ++ more) ≡ some (front, value)
    → length text ≤ length front
    → find_field edge text ≡ none
find_field-front edge [] front value more h le = find_field-nil edge
find_field-front edge (c ∷ cs) front value more h le =
    let start : or_later c (field_at edge (c ∷ cs ++ more)) (find_field (is_blank c) (cs ++ more))
        ≡ some (front, value) =
      sym (find_field-cons edge c (cs ++ more)) ∙ h in
    elim (Option-cases (field_at edge (c ∷ cs ++ more))) [
      | inr (rest, here) ↦
          let split =
            or_later-nil c rest (find_field (is_blank c) (cs ++ more)) front value
              (rw here at start) in
          absurd (omega (arith, ap length split))
      | inl nothing ↦
          let (f, split, later) =
            or_later-cons c (find_field (is_blank c) (cs ++ more)) front value
              (rw nothing at start) in
          let none_later =
            find_field-front (is_blank c) cs f value more later (omega (arith, ap length split)) in
          find_field-cons edge c cs
          ∙ ap₂ (or_later c) (field_at-none edge (c ∷ cs) more nothing) none_later
    ]

find_field-prefix :
    (edge : Bool) (text front value : Bytes)
    → find_field edge text ≡ some (front, value)
    → (rest : Bytes) × (text ≡ front ++ rest) × (0 < length rest)
find_field-prefix edge [] front value h = let nothing = find_field-nil edge in cc
find_field-prefix edge (c ∷ cs) front value h =
    let start = sym (find_field-cons edge c cs) ∙ h in
    elim (Option-cases (field_at edge (c ∷ cs))) [
      | inr (rest, here) ↦
          let split =
            or_later-nil c rest (find_field (is_blank c) cs) front value (rw here at start) in
          (c ∷ cs, rw split refl, omega arith)
      | inl nothing ↦
          let (f, split, later) =
            or_later-cons c (find_field (is_blank c) cs) front value (rw nothing at start) in
          let (rest, e, long) = find_field-prefix (is_blank c) cs f value later in
          (rest, rw (split, e) refl, long)
    ]

pub strip_end-prefix :
    (test : ℕ → Bool) (text : Bytes) → (back : Bytes) × (text ≡ strip_end test text ++ back)
unfolding strip_end
strip_end-prefix test [] = ([], refl)
strip_end-prefix test (c ∷ cs) =
    let (back, e) = strip_end-prefix test cs in
    elim (Bool-cases (length (strip_end test cs) == 0 && test c)) [
      | inl b ↦ (c ∷ cs, ground arith)
      | inr b ↦ (back, rw b (ap (◌∷◌ c) e))
    ]

pub until_nul-drop : (body : Bytes) → body ≡ until_nul body ++ drop (length (until_nul body)) body
unfolding until_nul
until_nul-drop [] = refl
until_nul-drop (c ∷ cs) = ground (arith, until_nul-drop cs)

-- A text in front of the first NUL, cut short and closed by a NUL.
pub until_nul-cut :
    (text back rest more body : Bytes)
    → until_nul body ≡ text ++ back
    → until_nul (text ++ (0 ∷ more)) ≡ text
unfolding until_nul
until_nul-cut [] back rest more body h = refl
until_nul-cut (c ∷ cs) back rest more [] h = cc
until_nul-cut (c ∷ cs) back rest more (b ∷ bs) h = elim (Bool-cases (b == 0)) [
  | inl z ↦ let e : [] ≡ c ∷ cs ++ back = rw z at h in cc
  | inr nz ↦
      let e : b ∷ until_nul bs ≡ c ∷ (cs ++ back) = rw nz at h in
      let e_tail : until_nul bs ≡ cs ++ back = cc in
      let e_head : b ≡ c = cc in
      let nz_c : c == 0 ≡ false = rw e_head at nz in
      rw nz_c (ap (◌∷◌ c) (until_nul-cut cs back rest more bs e_tail))
]

pub take-append : (xs ys : Bytes) → take (length xs) (xs ++ ys) ≡ xs
take-append [] ys = refl
take-append (x ∷ xs) ys = ap (◌∷◌ x) (take-append xs ys)

pub get_elem?-zeros :
    (xs rest : Bytes) (n i : ℕ)
    → length xs ≤ i
    → i < length xs + n
    → get_elem? (xs ++ (replicate n 0 ++ rest)) i ≡ some 0
get_elem?-zeros [] rest zero i h h' = absurd (omega arith)
get_elem?-zeros [] rest (suc n) zero h h' = refl
get_elem?-zeros [] rest (suc n) (suc i) h h' =
    get_elem?-zeros [] rest n i (omega arith) (omega arith)
get_elem?-zeros (x ∷ xs) rest n zero h h' = absurd (omega arith)
get_elem?-zeros (x ∷ xs) rest n (suc i) h h' =
    get_elem?-zeros xs rest n i (omega arith) (omega arith)

-- The field that a search of the body finds, with the cut in front of it.
pub record Cut (body : Bytes) (kept : Bytes) : Type 0 where
  pub back : Bytes
  pub split : until_nul body ≡ kept ++ back
  pub more : 0 < length back
  pub clean : find_field true kept ≡ none

pub found-Cut :
    (body front value : Bytes)
    → find_field true (until_nul body) ≡ some (front, value)
    → Cut body (strip_end is_blank front)
found-Cut body front value h =
    let (rest, e, long) = find_field-prefix true (until_nul body) front value h in
    let (blanks, e') = strip_end-prefix is_blank front in
    let whole : until_nul body ≡ strip_end is_blank front ++ (blanks ++ rest) =
      e ∙ ap (λ f. f ++ rest) e' ∙ append_assoc (strip_end is_blank front) blanks rest in
    record {
      back = blanks ++ rest;
      split = whole;
      more = omega (arith, length-append blanks rest);
      clean =
          find_field-front true (strip_end is_blank front) front value (blanks ++ rest)
            (ap (find_field true) (sym whole) ∙ h)
            (omega (arith, ap length e', length-append (strip_end is_blank front) blanks));
    }
