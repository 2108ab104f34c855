-- ===== src/Hub/ModPassword/Fields.antt =====
-- The password field in a text, and what is cut off at the end of one, stated apart from the code
-- (src/core/hub/mod_password.c).
use conan_exiles_teamspeak.Prelude.{
  ℕ, ◌≡◌, ◌≢◌, refl, ◌∙◌, ap, sym, Bool, true, false, Option, none, some, [], ◌∷◌, ◌++◌, ◌==◌,
  arith, inl, inr, ◌⊎◌, Bool-cases, Option-cases,
}
use conan_exiles_teamspeak.CText.{Bytes, codes, strip_prefix}
use conan_exiles_teamspeak.Hub.ModPassword.{is_blank, field, field_at, or_later, find_field}
use conan_exiles_teamspeak.Hub.ModPassword.Body.{
  or_later-nil, or_later-cons, find_field-cons, find_field-nil,
}

-- A space or a tab; a carriage return or a newline.
abbrev pub Blank : ℕ → Type 0
Blank c = (c ≡ 32) ⊎ (c ≡ 9)

abbrev pub Newline : ℕ → Type 0
Newline c = (c ≡ 13) ⊎ (c ≡ 10)

-- A text that is empty or ends in a blank: a field may start behind it.
abbrev pub Edge : Bytes → Type 0
Edge [] = Unit
Edge (c ∷ []) = Blank c
Edge (c ∷ (d ∷ ds)) = Edge (d ∷ ds)

-- The field TSPW= at the start of the text or behind a blank: what stands in front of it, and
-- the value behind it.
abbrev pub IsFieldOf : Bytes → Bytes → Bytes → Type 0
IsFieldOf text front value = (text ≡ front ++ (codes "TSPW=" ++ value)) × Edge front

abbrev pub NoField : Bytes → Type 0
NoField text = (front value : Bytes) → ¬ IsFieldOf text front value

abbrev EdgeFrom : Bool → Bytes → Type 0
EdgeFrom edge [] = edge ≡ true
EdgeFrom edge (c ∷ cs) = Edge (c ∷ cs)

Edge-cons : (c : ℕ) (cs : Bytes) → EdgeFrom (is_blank c) cs → Edge (c ∷ cs)
Edge-cons c [] h = ground arith
Edge-cons c (d ∷ ds) h = h

Edge-tail : (c : ℕ) (cs : Bytes) → Edge (c ∷ cs) → EdgeFrom (is_blank c) cs
Edge-tail c [] h = ground arith
Edge-tail c (d ∷ ds) h = h

strip_prefix_sound : (p text rest : Bytes) → strip_prefix p text ≡ some rest → text ≡ p ++ rest
unfolding strip_prefix
strip_prefix_sound [] text rest h = cc
strip_prefix_sound (a ∷ p) [] rest h = cc
strip_prefix_sound (a ∷ p) (c ∷ cs) rest h = elim (Bool-cases (a == c)) [
  | inl same ↦
      let later = strip_prefix_sound p cs rest (ground arith) in
      let first : a ≡ c = ground arith in cc
  | inr other ↦ absurd (ground arith)
]

field_at_sound :
    (edge : Bool) (text value : Bytes)
    → field_at edge text ≡ some value
    → (edge ≡ true) × (text ≡ codes "TSPW=" ++ value)
unfolding field_at
field_at_sound true text value h = (refl, strip_prefix_sound field text value h)
field_at_sound false text value h = cc

or_later-value :
    (c : ℕ) (v : Bytes) (later : Option (Bytes × Bytes)) (front value : Bytes)
    → or_later c (some v) later ≡ some (front, value)
    → value ≡ v
or_later-value c v later front value h = cc

find_field_sound :
    (edge : Bool) (text front value : Bytes)
    → find_field edge text ≡ some (front, value)
    → (text ≡ front ++ (codes "TSPW=" ++ value)) × EdgeFrom edge front
find_field_sound edge [] front value h = let nothing = find_field-nil edge in cc
find_field_sound edge (c ∷ cs) front value h =
    let start = sym (find_field-cons edge c cs) ∙ h in
    elim (Option-cases (field_at edge (c ∷ cs))) [
      | inr (rest, here) ↦
          let at_front : or_later c (some rest) (find_field (is_blank c) cs) ≡ some (front, value) =
            ap (λ o. or_later c o (find_field (is_blank c) cs)) (sym here) ∙ start in
          let split : front ≡ [] =
            or_later-nil c rest (find_field (is_blank c) cs) front value at_front in
          let same : value ≡ rest =
            or_later-value c rest (find_field (is_blank c) cs) front value at_front in
          let (may, text_is) = field_at_sound edge (c ∷ cs) rest here in
          rw (split, same) (text_is, may)
      | inl nothing ↦
          let (f, split, later) =
            or_later-cons c (find_field (is_blank c) cs) front value
              (ap (λ o. or_later c o (find_field (is_blank c) cs)) (sym nothing) ∙ start) in
          let (text_is, may) = find_field_sound (is_blank c) cs f value later in
          rw split (ap (◌∷◌ c) text_is, Edge-cons c f may)
    ]

starts :
    (edge : Bool) (value : Bytes) → edge ≡ true → find_field edge (codes "TSPW=" ++ value) ≢ none
unfolding find_field field_at strip_prefix
starts true value may h = cc
starts false value may h = cc

or_later-none :
    (c : ℕ) (o : Option Bytes) (later : Option (Bytes × Bytes))
    → or_later c o later ≡ none
    → later ≡ none
or_later-none c (some v) later h = cc
or_later-none c none none h = refl
or_later-none c none (some found) h = cc

find_field_complete :
    (edge : Bool) (front value : Bytes)
    → EdgeFrom edge front
    → find_field edge (front ++ (codes "TSPW=" ++ value)) ≢ none
find_field_complete edge [] value may h = starts edge value may h
find_field_complete edge (c ∷ cs) value may h =
    let text = cs ++ (codes "TSPW=" ++ value) in
    let missed = sym (find_field-cons edge c text) ∙ h in
    find_field_complete (is_blank c) cs value (Edge-tail c cs may)
      (or_later-none c (field_at edge (c ∷ text)) (find_field (is_blank c) text) missed)

EdgeFrom-start : (front : Bytes) → EdgeFrom true front → Edge front
EdgeFrom-start [] may = tt
EdgeFrom-start (c ∷ cs) may = may

pub find_field-IsFieldOf :
    (text front value : Bytes)
    → find_field true text ≡ some (front, value)
    → IsFieldOf text front value
find_field-IsFieldOf text front value h =
    let (text_is, may) = find_field_sound true text front value h in
    (text_is, EdgeFrom-start front may)

Edge-start : (front : Bytes) → Edge front → EdgeFrom true front
Edge-start [] may = refl
Edge-start (c ∷ cs) may = may

pub find_field-NoField : (text : Bytes) → find_field true text ≡ none → NoField text
find_field-NoField text h front value (text_is, may) =
    find_field_complete true front value (Edge-start front may)
      (ap (find_field true) (sym text_is) ∙ h)
