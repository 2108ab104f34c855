-- ===== src/Queue/ReturnCode.antt =====
-- The remembered return codes of channel moves (src/ts/adapter/ts3_return_code.h): eight slots,
-- overwritten oldest first. A slot is a C string; an empty one is free.
pub mod Answers
use conan_exiles_teamspeak.Prelude.{
  ℕ, ◌+◌, ◌%◌, Bool, true, false, ◌&&◌, ◌||◌, not, List, [], ◌∷◌, leb, ◌==◌, if◌then◌else◌, length,
  set, replicate, Option, none, some,
}
use conan_exiles_teamspeak.CText.{Bytes, str_same}

abbrev pub track_slots : ℕ
track_slots = 8

abbrev pub rc_max : ℕ
rc_max = 128

-- `Ts3RcTracker`
pub record Ts3RcTracker : Type 0 where
  pub codes : List Bytes
  pub next : ℕ

-- `ts3_rc_track_clear`
unfoldable pub track_clear : Ts3RcTracker
track_clear = record { codes = replicate track_slots []; next = 0 }

-- `ts3_rc_track_add`; a NULL code counts as the empty one.
unfoldable pub track_add : Ts3RcTracker → Bytes → Bool × Ts3RcTracker
track_add t code =
    if length code == 0 || leb rc_max (length code)
    then (false, t)
    else (true, record { codes = set t.codes t.next code; next = (t.next + 1) % track_slots })

-- The loop of `ts3_rc_track_take`: the slots with the first match emptied.
unfoldable pub take_first : List Bytes → Bytes → Option (List Bytes)
take_first [] code = none
take_first (c ∷ cs) code =
    let later = take_first cs code in
    if not (length c == 0) && str_same c code
    then some ([] ∷ cs)
    else elim later [ none ↦ none | some rest ↦ some (c ∷ rest) ]

-- `ts3_rc_track_take`
unfoldable pub track_take : Ts3RcTracker → Bytes → Bool × Ts3RcTracker
track_take t code = if length code == 0 then (false, t) else elim (take_first t.codes code) [
  | none ↦ (false, t)
  | some codes ↦ (true, record t { codes = codes })
]
