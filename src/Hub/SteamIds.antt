-- ===== src/Hub/SteamIds.antt =====
-- The SteamID list of a race in the hub description (src/core/hub/hub_parser.c). A text stands
-- here with its end: the bytes from a place in the buffer on, the NUL and what lies behind it.
pub mod Listed
pub mod Rounds
pub mod RoundTrip
use conan_exiles_teamspeak.Prelude.{
  ℕ, zero, suc, ◌+◌, ◌^◌, ◌||◌, Option, none, some, List, [], ◌∷◌, ◌++◌, leb, ◌==◌, if◌then◌else◌,
  length, drop,
}
use conan_exiles_teamspeak.CText.{Bytes, peek, scan_number, unsigned_value}

-- `HUB_MAX_STEAMIDS_PER_RACE`
abbrev pub max_steam_ids : ℕ
max_steam_ids = 32

unfoldable pub skip_separators : Bytes → Bytes
skip_separators [] = []
skip_separators (c ∷ cs) =
    let rest = skip_separators cs in if c == 32 || c == 9 || c == b',' then rest else c ∷ cs

unfoldable pub skip_blanks : Bytes → Bytes
skip_blanks [] = []
skip_blanks (c ∷ cs) = let rest = skip_blanks cs in if c == 32 || c == 9 then rest else c ∷ cs

-- `strchr(p, ')') + 1`
unfoldable pub find_close : Bytes → Option Bytes
find_close [] = none
find_close (c ∷ cs) =
    let rest = find_close cs in if c == b')' then some cs else if c == 0 then none else rest

-- Past a name in parentheses, if one is here; none if it is not closed.
unfoldable pub after_name : Bytes → Option Bytes
unfolding find_close skip_blanks
after_name p =
    if peek p == b'('
    then elim (find_close p) [ none ↦ none | some q ↦ some (skip_blanks q) ]
    else some p

-- One round of the loop: none if it ends; else the id read, if any, and where the next round
-- begins.
unfoldable pub next_entry : Bytes → Option (Option ℕ × Bytes)
unfolding skip_separators after_name
next_entry mem =
    let p = skip_separators mem in
    if peek mem == 0 || peek p == 0 then none else elim (after_name p) [
      | none ↦ none
      | some q ↦ elim (scan_number q) [
        | none ↦ some (none, drop 1 q)
        | some n ↦ some (some (unsigned_value (2 ^ 64) n), n.rest)
      ]
    ]

abbrev pub add_id : List ℕ → Option ℕ → List ℕ
add_id ids none = ids
add_id ids (some id) = if id == 0 then ids else ids ++ (id ∷ [])

-- The loop, for a number of rounds: the ids read, or none if it goes on after them.
unfoldable pub read_ids : ℕ → Bytes → List ℕ → Option (List ℕ)
unfolding next_entry
read_ids zero mem ids = none
read_ids (suc rounds) mem ids =
    if leb max_steam_ids (length ids) then some ids else elim (next_entry mem) [
      | none ↦ some ids
      | some (id, rest) ↦ read_ids rounds rest (add_id ids id)
    ]

-- `hub_parse_race_steamids`, run for one round more than there are bytes.
unfoldable pub parse_race_steamids : Bytes → List ℕ → Option (List ℕ)
unfolding read_ids
parse_race_steamids mem ids = read_ids (suc (length mem)) mem ids
