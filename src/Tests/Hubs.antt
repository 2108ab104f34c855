-- ===== src/Tests/Hubs.antt =====
-- The SteamID list at concrete inputs.
use conan_exiles_teamspeak.Prelude.{ℕ, ◌≡◌, Option, none, some, List, [], ◌∷◌, ◌++◌, arith}
use conan_exiles_teamspeak.CText.{Bytes, codes}
use conan_exiles_teamspeak.Hub.SteamIds.{read_ids, parse_race_steamids}
use conan_exiles_teamspeak.Hub.SteamIds.Listed.{
  IsName, entry, more_entries, ids_of, runs_past_the_end,
}
use conan_exiles_teamspeak.Hub.SteamIds.Rounds.{enough_rounds}
use conan_exiles_teamspeak.Hub.SteamIds.RoundTrip.{parse_race_steamids-entry}

bob-IsName : IsName (codes "bob")
bob-IsName = (
  (λ e. omega (arith, e)),
  (λ e. omega (arith, e)),
  (
    (λ e. omega (arith, e)),
    (λ e. omega (arith, e)),
    ((λ e. omega (arith, e)), (λ e. omega (arith, e)), tt),
  ),
)

-- The line behind the list in the buffer.
abbrev next_line : Bytes
next_line = codes "MinimumNormal=5" ++ (0 ∷ [])

runs_past_the_end_example :
    read_ids 40 (40 ∷ (codes "bob" ++ (41 ∷ (0 ∷ next_line)))) [] ≡ read_ids 39 next_line []
runs_past_the_end_example = runs_past_the_end (codes "bob") next_line [] 39 bob-IsName (omega arith)

enough_rounds_example :
    (found : List ℕ) × (read_ids 50 (codes "765,(a)42") [] ≡ some found)
    × (parse_race_steamids (codes "765,(a)42") [] ≡ some found)
enough_rounds_example = enough_rounds 50 (codes "765,(a)42") [] (omega arith)

parse_race_steamids-entry_example :
    let es : List (Option Bytes × ℕ) = (none, 43) ∷ [] in
    parse_race_steamids
      (entry (some (codes "bob"), 76561198063092371) (more_entries es next_line))
      []
    ≡ some (ids_of ((some (codes "bob"), 76561198063092371) ∷ es))
parse_race_steamids-entry_example =
    parse_race_steamids-entry (some (codes "bob"), 76561198063092371) ((none, 43) ∷ []) next_line
      (bob-IsName, omega arith, omega arith) ((omega arith, omega arith), tt) (omega arith)
