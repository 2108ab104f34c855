-- ===== src/Proto/Ping/RoundTrip.antt =====
-- CEPING: what is sent is read back.
use conan_exiles_teamspeak.Prelude.{
  ℕ, ◌%◌, ◌<◌, ◌≡◌, ◌≢◌, refl, none, some, [], ◌∷◌, ◌++◌, ◌>>=◌, arith, inl, inr, ◌⊎◌,
}
use conan_exiles_teamspeak.CText.{Bytes, strip_prefix, print, is_digit}
use conan_exiles_teamspeak.CText.Decimal.{scan_number-print, length-print}
use conan_exiles_teamspeak.Proto.Ping.{prefix, seq_modulus, cmd_max, wire_format, wire_parse}

strip_prefix-prefix : (text : Bytes) → strip_prefix prefix (prefix ++ text) ≡ some text
unfolding strip_prefix
strip_prefix-prefix text = refl

pub wire_format-fits :
    (seq : ℕ)
    → wire_format seq cmd_max ≡ some (prefix ++ print 1 (b';' ∷ print (seq % seq_modulus) []))
unfolding wire_format
wire_format-fits seq = ground (
  arith,
  length-print 9 (seq % seq_modulus) [] (omega arith),
  length-print 0 1 (b';' ∷ print (seq % seq_modulus) []) (omega arith),
)

-- What may stand behind the sequence number: nothing, or further fields.
abbrev pub Closes : Bytes → Type 0
Closes rest = (rest ≡ []) ⊎ ((extra : Bytes) × (rest ≡ b';' ∷ extra))

-- A payload of version 1 gives its sequence number, also with further fields behind it.
pub wire_parse-print :
    (n : ℕ) (rest : Bytes)
    → n < seq_modulus
    → Closes rest
    → wire_parse (print 1 (b';' ∷ print n rest)) ≡ some n
unfolding wire_parse is_digit
wire_parse-print n rest h (inl e) =
    rw (e, scan_number-print 1 (b';' ∷ print n []) refl, scan_number-print n [] refl) (ground arith)
wire_parse-print n rest h (inr (extra, e)) =
    rw
      (
        e,
        scan_number-print 1 (b';' ∷ print n (b';' ∷ extra)) refl,
        scan_number-print n (b';' ∷ extra) refl,
      )
      (ground arith)

-- Every sequence number fits the command buffer, and the receiver reads back its low 32 bits.
pub ping_round_trip :
    (seq : ℕ)
    → (do
      command ← wire_format seq cmd_max
      payload ← strip_prefix prefix command
      wire_parse payload)
      ≡ some (seq % seq_modulus)
ping_round_trip seq =
    rw (wire_format-fits seq, strip_prefix-prefix)
      (wire_parse-print (seq % seq_modulus) [] (omega arith) (inl refl))

-- A payload of any other version is refused, whatever follows it.
pub ping_version : (v : ℕ) (rest : Bytes) → v ≢ 1 → wire_parse (print v (b';' ∷ rest)) ≡ none
unfolding wire_parse is_digit
ping_version v rest h = rw (scan_number-print v (b';' ∷ rest) refl) (ground arith)
