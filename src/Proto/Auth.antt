-- ===== src/Proto/Auth.antt =====
-- CEAUTH, the announced Steam identity: the wire codec (src/ts/proximity/ts3_ceauth_wire.h) and
-- the sender, receiver and peer table around it (src/ts/proximity/ts3_ceauth.c).
pub mod Codec
pub mod Handshake
use conan_exiles_teamspeak.Prelude.{
  ℕ, ◌+◌, ◌^◌, Bool, true, false, not, ◌&&◌, ◌||◌, Option, none, some, List, [], ◌∷◌, ◌++◌, ltb,
  leb, ◌==◌, if◌then◌else◌, ◌>>=◌, ◌>>◌, guard, tick_sub,
}
use conan_exiles_teamspeak.CText.{
  Bytes, codes, peek, tail, Number, scan_number, long_is, unsigned_value, print, fits, strip_prefix,
}
use conan_exiles_teamspeak.Proto.{
  Env, Effect, wakeup, send, client_id_valid, plugin_name_matches, is_own, update,
}

abbrev pub prefix : Bytes
prefix = codes "CEAUTH:"

abbrev pub id_modulus : ℕ
id_modulus = 2 ^ 64

abbrev pub cmd_max : ℕ
cmd_max = 40

-- `ceauth_wire_format`
unfoldable pub wire_format : ℕ → ℕ → Option Bytes
unfolding fits
wire_format steam_id out_size =
    if steam_id == 0 then none else fits out_size (prefix ++ print 1 (b';' ∷ print steam_id []))

abbrev pub ends_field : Number → Bool
ends_field n = peek n.rest == 0 || peek n.rest == b';'

-- `ceauth_wire_parse`, on the text behind the prefix.
unfoldable pub wire_parse : Bytes → Option ℕ
unfolding long_is unsigned_value
wire_parse payload = do
  version ← scan_number payload
  guard (peek version.rest == b';')
  guard (long_is 1 version)
  field ← scan_number (tail version.rest)
  guard (ends_field field)
  let steam_id = unsigned_value id_modulus field
  guard (not (steam_id == 0))
  some steam_id

-- `CeauthPeer`
pub record CeauthPeer : Type 0 where
  pub steam_id : ℕ
  pub known : Bool
  pub replied : Bool

abbrev pub unknown_peer : CeauthPeer
unknown_peer = record { steam_id = 0; known = false; replied = false }

-- The state of ts3_ceauth.c: `g_peers`, `g_sendPending`, `g_lastSendMs`.
pub record Ceauth : Type 0 where
  pub peers : ℕ → CeauthPeer
  pub send_pending : Bool
  pub last_send_ms : ℕ

-- `CEAUTH_SEND_MIN_MS`
abbrev pub send_min_ms : ℕ
send_min_ms = 30

-- `ts3_ceauth_signal_send_pending`
unfoldable pub signal_send_pending : Ceauth → Ceauth × List Effect
signal_send_pending s =
    if s.send_pending then (s, []) else (record s { send_pending = true }, wakeup ∷ [])

unfoldable pub send_identity : Env → Ceauth → Option Bytes → Ceauth × List Effect
send_identity env s none = (s, [])
send_identity env s (some command) =
    if env.can_send then (record s { last_send_ms = env.now }, send command ∷ []) else (s, [])

-- `ts3_ceauth_flush`; `local_steam_id` is what `server_profile_get_local_steam_id` returns.
unfoldable pub flush : Env → ℕ → Ceauth → Ceauth × List Effect
unfolding send_identity
flush env local_steam_id s =
    if not env.on_callback || not env.connected || env.shutting_down
    then (s, [])
    else if not s.send_pending
    then (s, [])
    else if not (s.last_send_ms == 0) && ltb (tick_sub env.now s.last_send_ms) send_min_ms
    then (s, wakeup ∷ [])
    else if local_steam_id == 0
    then (record s { send_pending = false }, [])
    else let (sent, effects) = send_identity env s (wire_format local_steam_id cmd_max) in
      (record sent { send_pending = false }, effects)

-- The identity in a command of another client, if the handler stores it.
unfoldable pub accepted : Env → Bytes → Bytes → ℕ → Option ℕ
accepted env plugin_name payload invoker = do
  guard (plugin_name_matches env.plugin_id plugin_name && env.on_callback)
  guard (not (is_own env invoker))
  guard (client_id_valid invoker)
  wire_parse payload

-- The section under the lock, and the reply to a first contact.
unfoldable pub store_identity : ℕ → ℕ → Ceauth → Ceauth × List Effect
unfolding signal_send_pending
store_identity invoker steam_id s =
    let peer : CeauthPeer = record { steam_id = steam_id; known = true; replied = true } in
    let stored = record s { peers = update s.peers invoker peer } in
    if (s.peers invoker).replied then (stored, []) else signal_send_pending stored

-- `ts3_ceauth_on_plugin_command`: whether it was a CEAUTH command, the state and the effects.
unfoldable pub on_plugin_command : Env → Bytes → Bytes → ℕ → Ceauth → Bool × Ceauth × List Effect
unfolding accepted store_identity
on_plugin_command env plugin_name command invoker s =
    elim (if env.shutting_down then none else strip_prefix prefix command) [
      | none ↦ (false, s, [])
      | some payload ↦ elim (accepted env plugin_name payload invoker) [
        | none ↦ (true, s, [])
        | some steam_id ↦
            let (s', effects) = store_identity invoker steam_id s in (true, s', effects)
      ]
    ]

-- `ts3_ceauth_clear_client` and `ts3_ceauth_reset`
unfoldable pub clear_client : ℕ → Ceauth → Ceauth
clear_client client s =
    if client_id_valid client then record s { peers = update s.peers client unknown_peer } else s

unfoldable pub reset : Ceauth
reset = record { peers = λ _. unknown_peer; send_pending = false; last_send_ms = 0 }

-- `ts3_ceauth_format_peer` into a buffer of `out_size` bytes: the text of the info panel; `none` is
-- the result 0. `snprintf` never cuts it: a SteamID64 has at most 20 digits, and the text 29 bytes.
unfoldable pub format_peer : ℕ → ℕ → Ceauth → Option Bytes
format_peer out_size client s =
    if leb 32 out_size && client_id_valid client && (s.peers client).known
    then some (codes "SteamID: " ++ print (s.peers client).steam_id [])
    else none
