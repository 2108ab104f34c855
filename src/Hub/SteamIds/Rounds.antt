-- ===== src/Hub/SteamIds/Rounds.antt =====
-- The rounds of the loop over a SteamID list (src/core/hub/hub_parser.c).
use conan_exiles_teamspeak.Prelude.{
  ℕ, zero, suc, ◌+◌, ◌-◌, ◌*◌, ◌≤◌, ◌<◌, ◌≡◌, refl, ◌∙◌, ap, true, false, ◌||◌, Option, some, List,
  [], ◌∷◌, leb, ◌==◌, arith, Bool-cases, inl, inr, ◌⊎◌, length, Option-cases, drop, length-drop,
  if_either,
}
use conan_exiles_teamspeak.CText.{
  Bytes, peek, Number, scan_number, is_digit, skip_spaces, read_sign, read_digits,
}
use conan_exiles_teamspeak.Hub.SteamIds.{
  max_steam_ids, skip_separators, skip_blanks, find_close, after_name, next_entry, add_id, read_ids,
  parse_race_steamids,
}

skip_separators-le : (t : Bytes) → length (skip_separators t) ≤ length t
unfolding skip_separators
skip_separators-le [] = omega arith
skip_separators-le (c ∷ cs) = ground (arith, skip_separators-le cs)

skip_blanks-le : (t : Bytes) → length (skip_blanks t) ≤ length t
unfolding skip_blanks
skip_blanks-le [] = omega arith
skip_blanks-le (c ∷ cs) = ground (arith, skip_blanks-le cs)

skip_spaces-le : (t : Bytes) → length (skip_spaces t) ≤ length t
unfolding skip_spaces
skip_spaces-le [] = omega arith
skip_spaces-le (c ∷ cs) = ground (arith, skip_spaces-le cs)

read_sign-le : (t : Bytes) → length (read_sign t).1 ≤ length t
unfolding read_sign
read_sign-le [] = omega arith
read_sign-le (c ∷ cs) = ground arith

read_digits-le : (n : ℕ) (t : Bytes) → length (read_digits n t).1 ≤ length t
unfolding read_digits
read_digits-le n [] = omega arith
read_digits-le n (c ∷ cs) = ground (arith, read_digits-le (n * 10 + (c - b'0')) cs)

read_digits-shorter :
    (n : ℕ) (t : Bytes) → is_digit (peek t) ≡ true → length (read_digits n t).1 < length t
unfolding read_digits
read_digits-shorter n [] h = ground arith
read_digits-shorter n (c ∷ cs) h = rw h (omega (arith, read_digits-le (n * 10 + (c - b'0')) cs))

scan_number-shorter : (t : Bytes) (x : Number) → scan_number t ≡ some x → length x.rest < length t
unfolding scan_number
scan_number-shorter t x h =
    let body = (read_sign (skip_spaces t)).1 in
    let a = skip_spaces-le t in
    let b = read_sign-le (skip_spaces t) in
    let c = read_digits-shorter 0 body in
    elim (Bool-cases (is_digit (peek body))) [
      | inl digit ↦ let d = c digit in ground (arith, a, b, d)
      | inr other ↦ absurd (ground arith)
    ]

find_close-shorter : (p q : Bytes) → find_close p ≡ some q → length q < length p
unfolding find_close
find_close-shorter [] q h = cc
find_close-shorter (c ∷ cs) q h = ground (arith, find_close-shorter cs q)

after_name-le : (p q : Bytes) → after_name p ≡ some q → (q ≡ p) ⊎ (length q < length p)
unfolding after_name
after_name-le p q h = elim (Bool-cases (peek p == b'(')) [
  | inr e ↦ inl (ground arith)
  | inl e ↦ elim (Option-cases (find_close p)) [
    | inl missing ↦ absurd (ground arith)
    | inr (r, found) ↦
        inr (let a = find_close-shorter p r found in let b = skip_blanks-le r in ground arith)
  ]
]

shorter_by_one :
    (mem p q rest : Bytes)
    → (peek mem == 0 || peek p == 0) ≡ false
    → length p ≤ length mem
    → (q ≡ p) ⊎ (length q < length p)
    → rest ≡ drop 1 q
    → length rest < length mem
shorter_by_one mem [] q rest on a b left = ground arith
shorter_by_one mem (c ∷ cs) q rest on a (inl same) left =
    let sizes = ap length (left ∙ ap (drop 1) same) in omega arith
shorter_by_one mem (c ∷ cs) q rest on a (inr less) left =
    let sizes = ap length left in let dropped = length-drop 1 q in omega arith

shorter_by_digits :
    (mem p q rest : Bytes) (n : Number)
    → length p ≤ length mem
    → (q ≡ p) ⊎ (length q < length p)
    → length n.rest < length q
    → rest ≡ n.rest
    → length rest < length mem
shorter_by_digits mem p q rest n a (inl same) d left =
    let sizes = ap length left in let whole = ap length same in omega arith
shorter_by_digits mem p q rest n a (inr less) d left = let sizes = ap length left in omega arith

-- Each round that does not end the loop begins the next one farther on.
next_entry-shorter :
    (mem : Bytes) (id : Option ℕ) (rest : Bytes)
    → next_entry mem ≡ some (id, rest)
    → length rest < length mem
unfolding next_entry
next_entry-shorter mem id rest h =
    let p = skip_separators mem in
    let a = skip_separators-le mem in
    elim (Bool-cases (peek mem == 0 || peek p == 0)) [
      | inl ends ↦ absurd (ground arith)
      | inr on ↦ elim (Option-cases (after_name p)) [
        | inl unclosed ↦ absurd (ground arith)
        | inr (q, e) ↦ elim (Option-cases (scan_number q)) [
          | inl unread ↦
              let b = after_name-le p q e in
              let left : rest ≡ drop 1 q = ground arith in shorter_by_one mem p q rest on a b left
          | inr (n, read) ↦
              let b = after_name-le p q e in
              let d = scan_number-shorter q n read in
              let left : rest ≡ n.rest = ground arith in shorter_by_digits mem p q rest n a b d left
        ]
      ]
    ]

-- The loop has ended after as many rounds.
HasEnded : ℕ → Bytes → List ℕ → Type 0
HasEnded rounds mem ids = (found : List ℕ) × (read_ids rounds mem ids ≡ some found)

loop_ends :
    (rounds : ℕ) (mem : Bytes) (ids : List ℕ) → length mem < rounds → HasEnded rounds mem ids
unfolding read_ids HasEnded
loop_ends zero mem ids h = absurd (omega arith)
loop_ends (suc rounds) mem ids h =
    let Goal : Option (List ℕ) → Type 0 = λ o. (found : List ℕ) × (o ≡ some found) in
    if_either Goal (leb max_steam_ids (length ids)) (λ full. (ids, refl))
      (λ room. elim (Option-cases (next_entry mem)) [
        | inl ends ↦ rw ends (ids, refl)
        | inr ((id, rest), goes_on) ↦
            let shorter = next_entry-shorter mem id rest goes_on in
            let later = loop_ends rounds rest (add_id ids id) (omega arith) in rw goes_on later
      ])

-- More rounds give the same ids.
more_rounds :
    (f g : ℕ) (mem : Bytes) (ids found : List ℕ)
    → f ≤ g
    → read_ids f mem ids ≡ some found
    → read_ids g mem ids ≡ some found
unfolding read_ids
more_rounds zero g mem ids found le h = absurd (ground arith)
more_rounds (suc f) zero mem ids found le h = absurd (omega arith)
more_rounds (suc f) (suc g) mem ids found le h =
    elim (Bool-cases (leb max_steam_ids (length ids))) [
      | inl full ↦ ground arith
      | inr room ↦ elim (Option-cases (next_entry mem)) [
        | inl ends ↦ ground arith
        | inr ((id, rest), goes_on) ↦
            let later = more_rounds f g rest (add_id ids id) found (omega arith) in ground arith
      ]
    ]

-- The loop over a SteamID list ends on any bytes, within one round more than there are bytes:
-- then it has its result, and any larger number of rounds gives the same one.
pub enough_rounds :
    (rounds : ℕ) (mem : Bytes) (ids : List ℕ)
    → length mem < rounds
    → (found : List ℕ) × (read_ids rounds mem ids ≡ some found)
      × (parse_race_steamids mem ids ≡ some found)
unfolding parse_race_steamids HasEnded
enough_rounds rounds mem ids h =
    let (found, e) = loop_ends (suc (length mem)) mem ids (omega arith) in
    (found, more_rounds (suc (length mem)) rounds mem ids found (omega arith) e, e)
