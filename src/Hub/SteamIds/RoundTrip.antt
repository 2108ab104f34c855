-- ===== src/Hub/SteamIds/RoundTrip.antt =====
-- SteamID lists of the documented form (src/core/hub/hub_parser.c).
use conan_exiles_teamspeak.Prelude.{
  ℕ, zero, suc, ◌+◌, ◌≤◌, ◌<◌, ◌≡◌, refl, ◌∙◌, ap, sym, Option, none, some, List, [], ◌∷◌, ◌++◌,
  leb, arith, length, lt→leb_false, append-nil, append_assoc, length-append, if_either,
}
use conan_exiles_teamspeak.CText.{Bytes}
use conan_exiles_teamspeak.Hub.SteamIds.{
  max_steam_ids, skip_separators, next_entry, add_id, read_ids, parse_race_steamids,
}
use conan_exiles_teamspeak.Hub.SteamIds.Rounds.{enough_rounds}
use conan_exiles_teamspeak.Hub.SteamIds.Listed.{
  IsEntry, AreEntries, entry, more_entries, ids_of, entry_lem, more-no_digit,
}

add_id_lem : (ids : List ℕ) (id : ℕ) → 0 < id → add_id ids (some id) ≡ ids ++ (id ∷ [])
add_id_lem ids id h = ground arith

ends_here :
    (behind : Bytes) (ids : List ℕ) (rounds : ℕ) → read_ids (suc rounds) (0 ∷ behind) ids ≡ some ids
unfolding read_ids next_entry skip_separators
ends_here behind ids rounds =
    if_either (λ x. x ≡ some ids) (leb max_steam_ids (length ids)) (λ full. refl) (λ room. refl)

IsEntry-positive : (e : Option Bytes × ℕ) → IsEntry e → 0 < e.1
IsEntry-positive (none, id) (pos, fits) = pos
IsEntry-positive (some name, id) (h, pos, fits) = pos

one_more :
    (mem rest : Bytes) (id : ℕ) (ids : List ℕ) (rounds : ℕ)
    → next_entry mem ≡ some (some id, rest)
    → 0 < id
    → length ids < max_steam_ids
    → read_ids (suc rounds) mem ids ≡ read_ids rounds rest (ids ++ (id ∷ []))
unfolding read_ids
one_more mem rest id ids rounds h pos room =
    rw (lt→leb_false max_steam_ids (length ids) room, h)
      (ap (read_ids rounds rest) (add_id_lem ids id pos))

read_more :
    (es : List (Option Bytes × ℕ)) (behind : Bytes) (ids : List ℕ) (rounds : ℕ)
    → AreEntries es
    → length ids + length es ≤ max_steam_ids
    → length es < rounds
    → read_ids rounds (more_entries es behind) ids ≡ some (ids ++ ids_of es)
read_more es behind ids zero h room enough = absurd (omega arith)
read_more [] behind ids (suc rounds) h room enough =
    ends_here behind ids rounds ∙ ap some (sym (append-nil ids))
read_more (e ∷ es) behind ids (suc rounds) (h, hs) room enough =
    let out = more_entries es behind in
    let sizes = length-append ids (e.1 ∷ []) in
    one_more (b',' ∷ entry e out) out e.1 ids rounds (entry_lem e out h (more-no_digit es behind)).1
      (IsEntry-positive e h) (omega arith)
    ∙ (read_more es behind (ids ++ (e.1 ∷ [])) rounds hs (omega arith) (omega arith)
        ∙ ap some (append_assoc ids (e.1 ∷ []) (ids_of es)))

-- A list of the documented form, of ids with or without a name in front, separated by commas, is
-- read whole and in order, whatever lies behind its end. The names hold no closing parenthesis,
-- the ids are not 0 and fit 64 bits, and there are no more than 32.
pub parse_race_steamids-entry :
    (e : Option Bytes × ℕ) (es : List (Option Bytes × ℕ)) (behind : Bytes)
    → IsEntry e
    → AreEntries es
    → length es < max_steam_ids
    → parse_race_steamids (entry e (more_entries es behind)) [] ≡ some (ids_of (e ∷ es))
parse_race_steamids-entry e es behind h hs room =
    let out = more_entries es behind in
    let mem = entry e out in
    let rounds = suc (suc (length mem + length es)) in
    let (found, after, parsed) = enough_rounds rounds mem [] (omega arith) in
    parsed
    ∙ sym after
    ∙ one_more mem out e.1 [] (suc (length mem + length es))
        (entry_lem e out h (more-no_digit es behind)).0 (IsEntry-positive e h) (omega arith)
    ∙ read_more es behind (e.1 ∷ []) (suc (length mem + length es)) hs (omega arith) (omega arith)
