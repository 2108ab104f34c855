-- ===== src/Hub/SteamIds/Listed.antt =====
-- What the loop over a SteamID list reads (src/core/hub/hub_parser.c).
use conan_exiles_teamspeak.Prelude.{
  ℕ, suc, ◌^◌, ◌<◌, ◌≡◌, ◌≢◌, refl, true, false, Option, none, some, List, [], ◌∷◌, ◌++◌, ◌==◌,
  arith, length, lt→ltb, lt→leb_false,
}
use conan_exiles_teamspeak.CText.{
  Bytes, peek, scan_number, unsigned_value, print, is_digit, is_space, skip_spaces, read_sign,
  read_digits,
}
use conan_exiles_teamspeak.CText.Decimal.{scan_number-print, print-digit}
use conan_exiles_teamspeak.Hub.SteamIds.{
  max_steam_ids, skip_separators, skip_blanks, find_close, after_name, next_entry, read_ids,
}

-- A name in an entry: no closing parenthesis and no NUL.
abbrev pub IsName : Bytes → Type 0
IsName [] = Unit
IsName (c ∷ cs) = (c ≢ b')') × (c ≢ 0) × IsName cs

find_close_lem :
    (name : Bytes) → IsName name → (q : Bytes) → find_close (name ++ (b')' ∷ q)) ≡ some q
unfolding find_close
find_close_lem [] h q = refl
find_close_lem (c ∷ cs) (a, b, h) q = let rest = find_close_lem cs h q in ground arith

skip_blanks-digit : (t : Bytes) → is_digit (peek t) ≡ true → skip_blanks t ≡ t
unfolding skip_blanks is_digit
skip_blanks-digit [] h = refl
skip_blanks-digit (c ∷ cs) h = ground arith

after_name_lem :
    (name q : Bytes)
    → find_close (name ++ (b')' ∷ q)) ≡ some q
    → is_digit (peek q) ≡ true
    → after_name (b'(' ∷ (name ++ (b')' ∷ q))) ≡ some q
unfolding after_name find_close
after_name_lem name q closed digit = rw (closed, skip_blanks-digit q digit) refl

scan_nul : (behind : Bytes) → scan_number (0 ∷ behind) ≡ none
unfolding scan_number is_space is_digit skip_spaces read_sign read_digits
scan_nul behind = refl

-- A list that ends in a name without an id: the loop does not stop at the end of the text, but
-- goes on with whatever lies behind it.
pub runs_past_the_end :
    (name behind : Bytes) (ids : List ℕ) (rounds : ℕ)
    → IsName name
    → length ids < max_steam_ids
    → read_ids (suc rounds) (b'(' ∷ (name ++ (b')' ∷ (0 ∷ behind)))) ids
      ≡ read_ids rounds behind ids
unfolding read_ids next_entry after_name skip_separators skip_blanks
runs_past_the_end name behind ids rounds h room =
    rw
      (
        lt→leb_false max_steam_ids (length ids) room,
        find_close_lem name h (0 ∷ behind),
        scan_nul behind,
      )
      refl

-- An entry of a list: a name, or none, and an id.
abbrev pub entry : Option Bytes × ℕ → Bytes → Bytes
entry (none, id) out = print id out
entry (some name, id) out = b'(' ∷ (name ++ (b')' ∷ print id out))

-- The entries behind the first, the end of the text, and what lies behind it.
abbrev pub more_entries : List (Option Bytes × ℕ) → Bytes → Bytes
more_entries [] behind = 0 ∷ behind
more_entries (e ∷ es) behind = b',' ∷ entry e (more_entries es behind)

abbrev pub IsEntry : Option Bytes × ℕ → Type 0
IsEntry (none, id) = (0 < id) × (id < 2 ^ 64)
IsEntry (some name, id) = IsName name × (0 < id) × (id < 2 ^ 64)

abbrev pub AreEntries : List (Option Bytes × ℕ) → Type 0
AreEntries [] = Unit
AreEntries (e ∷ es) = IsEntry e × AreEntries es

abbrev pub ids_of : List (Option Bytes × ℕ) → List ℕ
ids_of [] = []
ids_of ((name, id) ∷ es) = id ∷ ids_of es

skip_separators-digit : (t : Bytes) → is_digit (peek t) ≡ true → skip_separators t ≡ t
unfolding skip_separators is_digit
skip_separators-digit [] h = refl
skip_separators-digit (c ∷ cs) h = ground arith

no_name-digit : (t : Bytes) → is_digit (peek t) ≡ true → after_name t ≡ some t
unfolding after_name is_digit
no_name-digit t h = ground arith

not_nul : (t : Bytes) → is_digit (peek t) ≡ true → (peek t == 0) ≡ false
unfolding is_digit
not_nul t h = ground arith

pub more-no_digit :
    (es : List (Option Bytes × ℕ)) (behind : Bytes)
    → is_digit (peek (more_entries es behind)) ≡ false
unfolding is_digit
more-no_digit [] behind = refl
more-no_digit (e ∷ es) behind = refl

value_lem :
    (id : ℕ) (out : Bytes)
    → id < 2 ^ 64
    → unsigned_value (2 ^ 64) (record { minus = false; magnitude = id; rest = out }) ≡ id
unfolding unsigned_value
value_lem id out h = rw (lt→ltb id (2 ^ 64) h) refl

-- One round reads one entry.
pub entry_lem :
    (e : Option Bytes × ℕ) (out : Bytes)
    → IsEntry e
    → is_digit (peek out) ≡ false
    → (next_entry (entry e out) ≡ some (some e.1, out))
      × (next_entry (b',' ∷ entry e out) ≡ some (some e.1, out))
unfolding next_entry skip_separators
entry_lem (none, id) out (pos, fits) stop =
    let digit = print-digit id out in
    let read = scan_number-print id out stop in
    let t = print id out in
    rw
      (
        skip_separators-digit t digit,
        not_nul t digit,
        no_name-digit t digit,
        read,
        value_lem id out fits,
      )
      (refl, refl)
entry_lem (some name, id) out (h, pos, fits) stop =
    let digit = print-digit id out in
    let read = scan_number-print id out stop in
    let closed = find_close_lem name h (print id out) in
    let named : after_name (b'(' ∷ (name ++ (b')' ∷ print id out))) ≡ some (print id out) =
      after_name_lem name (print id out) closed digit in
    rw (named, read, value_lem id out fits) (refl, refl)
