-- ===== src/Proto/Mode/Codec.antt =====
-- CEMODE: what is sent is read back, and what is accepted.
use conan_exiles_teamspeak.Prelude.{
  ℕ, ◌≤◌, ◌<◌, ◌≡◌, refl, ◌&&◌, none, some, [], ◌∷◌, ◌++◌, leb, if◌then◌else◌, ◌>>=◌, arith,
  Bool-cases, inl, inr, ◌⊎◌,
}
use conan_exiles_teamspeak.CText.{Bytes, strip_prefix, print, is_digit}
use conan_exiles_teamspeak.CText.Decimal.{scan_number-print, length-print}
use conan_exiles_teamspeak.Proto.Mode.{
  prefix, mode_max, distance_max_dm, cmd_max, wire_format, wire_parse,
}

pub strip_prefix-prefix : (text : Bytes) → strip_prefix prefix (prefix ++ text) ≡ some text
unfolding strip_prefix
strip_prefix-prefix text = refl

pub wire_format-fits :
    (mode dm : ℕ)
    → mode ≤ mode_max
    → dm ≤ distance_max_dm
    → wire_format mode dm cmd_max
      ≡ some (prefix ++ print 1 (b';' ∷ print mode (b';' ∷ print dm [])))
unfolding wire_format
wire_format-fits mode dm h k = ground (
  arith,
  length-print 4 dm [] (omega arith),
  length-print 0 mode (b';' ∷ print dm []) (omega arith),
  length-print 0 1 (b';' ∷ print mode (b';' ∷ print dm [])) (omega arith),
)

wire_format-refuses :
    (mode dm : ℕ) → (mode_max < mode) ⊎ (distance_max_dm < dm) → wire_format mode dm cmd_max ≡ none
unfolding wire_format
wire_format-refuses mode dm h = ground arith

pub wire_parse-print :
    (mode dm : ℕ)
    → mode ≤ mode_max
    → dm ≤ distance_max_dm
    → wire_parse (print 1 (b';' ∷ print mode (b';' ∷ print dm []))) ≡ some (mode, dm)
unfolding wire_parse is_digit
wire_parse-print mode dm h k =
    rw
      (
        scan_number-print 1 (b';' ∷ print mode (b';' ∷ print dm [])) refl,
        scan_number-print mode (b';' ∷ print dm []) refl,
        scan_number-print dm [] refl,
      )
      (ground arith)

-- A mode and a distance in range fit the command buffer, and the receiver reads the same ones.
-- Anything out of range is not sent.
pub mode_round_trip :
    (mode dm : ℕ)
    → (do
      command ← wire_format mode dm cmd_max
      payload ← strip_prefix prefix command
      wire_parse payload)
      ≡ (if leb mode mode_max && leb dm distance_max_dm then some (mode, dm) else none)
mode_round_trip mode dm = elim (Bool-cases (leb mode mode_max && leb dm distance_max_dm)) [
  | inl e ↦
      rw (e, wire_format-fits mode dm (ground arith) (ground arith), strip_prefix-prefix)
        (wire_parse-print mode dm (ground arith) (ground arith))
  | inr e ↦ rw (e, wire_format-refuses mode dm (ground arith))
]

-- Whatever bytes arrive, an accepted mode is 0, 1 or 2, and its distance at most 1000 m.
pub mode_parse_range :
    (payload : Bytes) (mode dm : ℕ)
    → wire_parse payload ≡ some (mode, dm)
    → (mode ≤ mode_max) × (dm ≤ distance_max_dm)
unfolding wire_parse
mode_parse_range payload mode dm h = ground arith
