-- ===== src/Proto/Auth/Codec.antt =====
-- CEAUTH: what is sent is read back, and what is accepted.
use conan_exiles_teamspeak.Prelude.{
  ℕ, ◌<◌, ◌≡◌, ◌≢◌, refl, none, some, [], ◌∷◌, ◌++◌, ◌==◌, if◌then◌else◌, ◌>>=◌, arith, ◌↔◌, Option,
  Bool-cases, inl, inr,
}
use conan_exiles_teamspeak.CText.{Bytes, strip_prefix, print, is_digit}
use conan_exiles_teamspeak.CText.Decimal.{scan_number-print, length-print}
use conan_exiles_teamspeak.Proto.Auth.{prefix, id_modulus, cmd_max, wire_format, wire_parse}

pub strip_prefix-prefix : (text : Bytes) → strip_prefix prefix (prefix ++ text) ≡ some text
unfolding strip_prefix
strip_prefix-prefix text = refl

pub wire_format-fits :
    (id : ℕ)
    → id ≢ 0
    → id < id_modulus
    → wire_format id cmd_max ≡ some (prefix ++ print 1 (b';' ∷ print id []))
unfolding wire_format
wire_format-fits id h k = ground (
  arith,
  length-print 19 id [] (omega arith),
  length-print 0 1 (b';' ∷ print id []) (omega arith),
)

wire_format-zero : (id : ℕ) → id ≡ 0 → wire_format id cmd_max ≡ none
unfolding wire_format
wire_format-zero id z = rw z refl

sent_not_none : {o : Option Bytes} {x : Bytes} → o ≡ some x → o ≢ none
sent_not_none h e = absurd (ground arith)

pub wire_parse-print :
    (id : ℕ) → id ≢ 0 → id < id_modulus → wire_parse (print 1 (b';' ∷ print id [])) ≡ some id
unfolding wire_parse is_digit
wire_parse-print id h k =
    rw (scan_number-print 1 (b';' ∷ print id []) refl, scan_number-print id [] refl) (ground arith)

-- Of the SteamID64s, 0 and no other is never put on the wire. Every other one fits the command
-- buffer, and the receiver reads the same one.
pub auth_round_trip :
    (id : ℕ)
    → id < id_modulus
    → ((wire_format id cmd_max ≡ none) ↔ (id ≡ 0))
      × ((do
        command ← wire_format id cmd_max
        payload ← strip_prefix prefix command
        wire_parse payload)
          ≡ (if id == 0 then none else some id))
auth_round_trip id h = elim (Bool-cases (id == 0)) [
  | inl e ↦
      let zero_id : id ≡ 0 = ground arith in
      let refused = wire_format-zero id zero_id in
      (((λ r. zero_id), (λ z. refused)), rw (e, refused) refl)
  | inr e ↦
      let nonzero : id ≢ 0 = ground arith in
      let sent = wire_format-fits id nonzero h in
      (
        ((λ r. absurd (sent_not_none sent r)), (λ z. absurd (nonzero z))),
        rw (e, sent, strip_prefix-prefix) (wire_parse-print id nonzero h),
      )
]

-- Whatever bytes arrive, an accepted identity is a SteamID64 that is not 0.
pub auth_parse_range :
    (payload : Bytes) (id : ℕ) → wire_parse payload ≡ some id → (0 < id) × (id < id_modulus)
unfolding wire_parse
auth_parse_range payload id h = ground arith
