-- ===== src/Http/Guard/Rules.antt =====
-- The rules of the guard, stated apart from its code (src/core/http/http_request.h).
use conan_exiles_teamspeak.Prelude.{
  ℕ, suc, ◌+◌, ◌≤◌, ◌<◌, ◌≡◌, refl, ap, Bool, true, false, ◌&&◌, ◌||◌, none, some, [], ◌∷◌, ◌++◌,
  ltb, ◌==◌, arith, inl, inr, ◌⊎◌, Bool-cases, Option-cases, ◌↔◌, length,
}
use conan_exiles_teamspeak.CText.{Bytes, codes, print, until_nul, is_digit}
use conan_exiles_teamspeak.Http.Headers.{http_lower, http_ieq}
use conan_exiles_teamspeak.Http.Guard.{split_at, count_digits}

abbrev IsUpper : ℕ → Type 0
IsUpper c = (b'A' ≤ c) × (c ≤ b'Z')

-- The same letter, upper case or lower case, or the same byte.
abbrev SameLetter : ℕ → ℕ → Type 0
SameLetter a b = (a ≡ b) ⊎ ((IsUpper a × (b ≡ a + 32)) ⊎ (IsUpper b × (a ≡ b + 32)))

abbrev pub SameText : Bytes → Bytes → Type 0
SameText [] [] = Unit
SameText [] (b ∷ bs) = ⊥
SameText (a ∷ xs) [] = ⊥
SameText (a ∷ xs) (b ∷ bs) = SameLetter a b × SameText xs bs

-- An Origin of the plugin's own server.
abbrev pub OwnOrigin : ℕ → Bytes → Type 0
OwnOrigin port v =
    (length v < 128)
    × (SameText (until_nul v) (codes "http://127.0.0.1:" ++ print port [])
        ⊎ SameText (until_nul v) (codes "http://localhost:" ++ print port []))

-- A Sec-Fetch-Site that does not tell of another site.
abbrev pub NotForeign : Bytes → Type 0
NotForeign v = ¬ SameText v (codes "cross-site") × ¬ SameText v (codes "same-site")

abbrev pub Digits : Bytes → Type 0
Digits [] = Unit
Digits (c ∷ cs) = (b'0' ≤ c) × (c ≤ b'9') × Digits cs

-- Nothing, or a colon and at most five digits.
abbrev pub IsPort : Bytes → Type 0
IsPort [] = Unit
IsPort (c ∷ cs) = (c ≡ b':') × Digits cs × (length cs ≤ 5)

-- A name of this computer, with or without a port.
abbrev pub LocalName : Bytes → Type 0
LocalName v =
    (name : Bytes) × (port : Bytes) × (v ≡ name ++ port)
    × (SameText name (codes "127.0.0.1")
        ⊎ (SameText name (codes "localhost") ⊎ SameText name (codes "[::1]")))
    × IsPort port

abbrev pub LocalHost : Bytes → Type 0
LocalHost v = (length v < 128) × LocalName (until_nul v)

SameLetter-iff : (a b : ℕ) → (http_lower a == http_lower b ≡ true) ↔ SameLetter a b
SameLetter-iff a b = (λ h. ground arith, λ h. ground arith)

pub http_ieq_iff : (a b : Bytes) → (http_ieq a b ≡ true) ↔ SameText a b
unfolding http_ieq
http_ieq_iff [] [] = (λ h. tt, λ h. refl)
http_ieq_iff [] (b ∷ bs) = (λ h. absurd (ground arith), λ h. absurd h)
http_ieq_iff (a ∷ xs) [] = (λ h. absurd (ground arith), λ h. absurd h)
http_ieq_iff (a ∷ xs) (b ∷ bs) =
    let first = SameLetter-iff a b in
    let more = http_ieq_iff xs bs in
    (
      λ h. (first.0 (ground arith), more.0 (ground arith)),
      λ (l, t). (let x = first.1 l in let y = more.1 t in ground arith),
    )

pub SameText-length : (a b : Bytes) → SameText a b → length a ≡ length b
SameText-length [] [] h = refl
SameText-length [] (b ∷ bs) h = absurd h
SameText-length (a ∷ xs) [] h = absurd h
SameText-length (a ∷ xs) (b ∷ bs) (l, t) = ap suc (SameText-length xs bs t)

-- A byte that is no letter is the same in both texts.
abbrev plain : ℕ → Bool
plain c = ltb c 65 || (ltb 90 c && ltb c 97) || ltb 122 c

abbrev pub has : ℕ → Bytes → Bool
has byte [] = false
has byte (c ∷ cs) = c == byte || has byte cs

pub SameText-has :
    (byte : ℕ) (a b : Bytes)
    → plain byte ≡ true
    → SameText a b
    → has byte b ≡ false
    → has byte a ≡ false
SameText-has byte [] [] p h n = refl
SameText-has byte [] (b ∷ bs) p h n = absurd h
SameText-has byte (a ∷ xs) [] p h n = absurd h
SameText-has byte (a ∷ xs) (b ∷ bs) p (l, t) n = ground (arith, SameText-has byte xs bs p t)

abbrev all_plain : Bytes → Bool
all_plain [] = true
all_plain (c ∷ cs) = plain c && all_plain cs

pub SameText-plain : (a b : Bytes) → all_plain b ≡ true → SameText a b → a ≡ b
SameText-plain [] [] p h = refl
SameText-plain [] (b ∷ bs) p h = absurd h
SameText-plain (a ∷ xs) [] p h = absurd h
SameText-plain (a ∷ xs) (b ∷ bs) p (l, t) =
    let same : a ≡ b = ground arith in let more = SameText-plain xs bs (ground arith) t in cc

pub split_at-none : (byte : ℕ) (xs : Bytes) → has byte xs ≡ false → split_at byte xs ≡ none
unfolding split_at
split_at-none byte [] h = refl
split_at-none byte (c ∷ cs) h = ground (arith, split_at-none byte cs)

pub split_at-found :
    (byte : ℕ) (front back : Bytes)
    → has byte front ≡ false
    → split_at byte (front ++ (byte ∷ back)) ≡ some (front, back)
unfolding split_at
split_at-found byte [] back h = ground arith
split_at-found byte (c ∷ cs) back h = ground (arith, split_at-found byte cs back)

pub split_at_sound :
    (byte : ℕ) (xs front back : Bytes)
    → split_at byte xs ≡ some (front, back)
    → xs ≡ front ++ (byte ∷ back)
unfolding split_at
split_at_sound byte [] front back h = cc
split_at_sound byte (c ∷ cs) front back h = elim (Bool-cases (c == byte)) [
  | inl here ↦
      let first : front ≡ [] = ground arith in
      let behind : back ≡ cs = ground arith in let c_is : c ≡ byte = ground arith in cc
  | inr other ↦ elim (Option-cases (split_at byte cs)) [
    | inl nothing ↦ absurd (ground arith)
    | inr ((f, b), found) ↦
        let later = split_at_sound byte cs f b found in
        let first : front ≡ c ∷ f = ground arith in let behind : back ≡ b = ground arith in cc
  ]
]

pub Digits-iff : (cs : Bytes) → (length (count_digits cs).1 == 0 ≡ true) ↔ Digits cs
unfolding count_digits is_digit
Digits-iff [] = (λ h. tt, λ h. refl)
Digits-iff (c ∷ cs) =
    let more = Digits-iff cs in
    (
      λ h. (ground arith, ground arith, more.0 (ground arith)),
      λ (l, u, t). (let m = more.1 t in ground arith),
    )
