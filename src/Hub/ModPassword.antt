-- ===== src/Hub/ModPassword.antt =====
-- The ingame channel password from the game mod (src/core/hub/mod_password.c). Each function
-- holds the module's lock around its accesses to the secret, so each is one step.
pub mod Body
pub mod Ends
pub mod Fields
pub mod Secret
use conan_exiles_teamspeak.Prelude.{
  ℕ, ◌+◌, ◌-◌, Bool, true, not, ◌&&◌, ◌||◌, Option, none, some, [], ◌∷◌, ◌++◌, ltb, leb, ◌==◌,
  if◌then◌else◌, length, drop,
}
use conan_exiles_teamspeak.Prelude.{replicate}
use conan_exiles_teamspeak.CText.{Bytes, codes, str_same, strip_prefix, until_nul, strip_end}

-- `MOD_PASSWORD_MAX`, `MOD_PASSWORD_TTL_MS`
abbrev pub password_max : ℕ
password_max = 128

abbrev pub ttl_ms : ℕ
ttl_ms = 10000

-- `g_pw` and `g_pwSeenMs`
pub record ModPassword : Type 0 where
  pub pw : Bytes
  pub seen_ms : ℕ

-- No byte of the value is a control character.
unfoldable pub printable : Bytes → Bool
printable [] = true
printable (c ∷ cs) = not (ltb c 32 || c == 127) && printable cs

-- `mod_password_store`, with the length that it logs when the value changed.
unfoldable pub store : ModPassword → Bytes → ℕ → ModPassword × Option ℕ
unfolding printable str_same
store s value now =
    if leb password_max (length value) || not (printable value) then (s, none) else (
      record { pw = value; seen_ms = now },
      if str_same s.pw value then none else some (length value),
    )

abbrev pub is_blank : ℕ → Bool
is_blank c = c == b' ' || c == 9

abbrev pub is_newline : ℕ → Bool
is_newline c = c == 13 || c == 10

-- `MOD_PASSWORD_FIELD`
abbrev pub field : Bytes
field = codes "TSPW="

-- The field at the start of a text, if it may start there: the value behind it.
unfoldable pub field_at : Bool → Bytes → Option Bytes
unfolding strip_prefix
field_at edge text = if edge then strip_prefix field text else none

abbrev pub or_later : ℕ → Option Bytes → Option (Bytes × Bytes) → Option (Bytes × Bytes)
or_later c (some value) later = some ([], value)
or_later c none none = none
or_later c none (some (front, value)) = some (c ∷ front, value)

-- The search for the field: what stands in front of it and the value behind it. `edge` tells
-- whether the field may start here.
unfoldable pub find_field : Bool → Bytes → Option (Bytes × Bytes)
unfolding field_at
find_field edge [] = none
find_field edge (c ∷ cs) = or_later c (field_at edge (c ∷ cs)) (find_field (is_blank c) cs)

-- What a caller of `mod_password_take_from_body` is left with.
pub record Taken : Type 0 where
  pub body_len : ℕ
  pub body : Bytes
  pub store : ModPassword

-- `mod_password_take_from_body` on the `bodyLen` bytes of the body.
unfoldable pub take_from_body : ModPassword → Bytes → ℕ → Taken
unfolding until_nul find_field strip_end store
take_from_body s body now =
    let avail = until_nul body in
    elim (find_field true avail) [
      | none ↦ record { body_len = length body; body = body; store = s }
      | some found ↦
          let kept = strip_end is_blank found.0 in
          record {
            body_len = length kept;
            body = kept ++ (replicate (length avail - length kept) 0 ++ drop (length avail) body);
            store = (store s (strip_end is_newline found.1) now).0;
          }
    ]

-- `mod_password_get` into a buffer of `out_len` bytes: the password, if there is one to hand out.
unfoldable pub get : ModPassword → ℕ → ℕ → Option Bytes × ModPassword
get s out_len now =
    let len = length s.pw in
    if out_len == 0
    then (none, s)
    else if ltb 0 len && leb s.seen_ms now && ltb ttl_ms (now - s.seen_ms)
    then (none, record { pw = []; seen_ms = 0 })
    else if ltb 0 len && ltb len out_len && leb s.seen_ms now && leb (now - s.seen_ms) ttl_ms
    then (some s.pw, s)
    else (none, s)

-- `mod_password_clear`
unfoldable pub clear : ModPassword
clear = record { pw = []; seen_ms = 0 }
