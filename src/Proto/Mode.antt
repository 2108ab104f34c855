-- ===== src/Proto/Mode.antt =====
-- CEMODE, the announced voice mode: the wire codec (src/ts/proximity/ts3_cemode_wire.h) and the
-- sender, receiver and peer table around it (src/ts/proximity/ts3_cemode.c). The float
-- distance is a number of decimetres here, as on the wire.
pub mod Codec
pub mod Retry
pub mod Handover
use conan_exiles_teamspeak.Prelude.{
  ℕ, ◌+◌, Bool, true, false, not, ◌&&◌, ◌||◌, Option, none, some, List, [], ◌∷◌, ◌++◌, ltb, leb,
  ◌==◌, if◌then◌else◌, ◌>>=◌, ◌>>◌, guard, tick_sub,
}
use conan_exiles_teamspeak.CText.{
  Bytes, codes, peek, tail, Number, scan_number, long_is, long_in, long_magnitude, print, fits,
  strip_prefix,
}
use conan_exiles_teamspeak.Proto.{
  Env, Effect, wakeup, send, client_id_valid, plugin_name_matches, is_own, update,
}

abbrev pub prefix : Bytes
prefix = codes "CEMODE:"

abbrev pub cmd_max : ℕ
cmd_max = 40

-- `CEMODE_MODE_MAX` and `CEMODE_DISTANCE_MAX_DM`; the lower bounds are 0, and both values are
-- natural numbers here: `VoiceMode` is 0, 1 or 2, and `cemode_wire_distance_dm` is not negative.
abbrev pub mode_max : ℕ
mode_max = 2

abbrev pub distance_max_dm : ℕ
distance_max_dm = 10000

-- `cemode_wire_format`
unfoldable pub wire_format : ℕ → ℕ → ℕ → Option Bytes
unfolding fits
wire_format mode distance_dm out_size =
    if ltb mode_max mode
    then none
    else if ltb distance_max_dm distance_dm
    then none
    else fits out_size (prefix ++ print 1 (b';' ∷ print mode (b';' ∷ print distance_dm [])))

abbrev pub ends_field : Number → Bool
ends_field n = peek n.rest == 0 || peek n.rest == b';'

-- `cemode_wire_parse`, on the text behind the prefix: first the three fields, then their ranges.
unfoldable pub wire_parse : Bytes → Option (ℕ × ℕ)
unfolding long_is long_in long_magnitude
wire_parse payload = do
  version ← scan_number payload
  guard (peek version.rest == b';')
  mode ← scan_number (tail version.rest)
  guard (peek mode.rest == b';')
  distance ← scan_number (tail mode.rest)
  guard (ends_field distance)
  guard (long_is 1 version)
  guard (long_in mode_max mode)
  guard (long_in distance_max_dm distance)
  some (long_magnitude mode, long_magnitude distance)

-- `CemodePeer`; the distance is kept in decimetres here, the source divides it by 10.
pub record CemodePeer : Type 0 where
  pub distance_dm : ℕ
  pub mode : ℕ
  pub known : Bool
  pub replied : Bool

abbrev pub unknown_peer : CemodePeer
unknown_peer = record { distance_dm = 0; mode = 0; known = false; replied = false }

-- The state of ts3_cemode.c: `g_peers`, `g_sendPending`, `g_lastSendMs`, `g_sendFailures`.
pub record Cemode : Type 0 where
  pub peers : ℕ → CemodePeer
  pub send_pending : Bool
  pub last_send_ms : ℕ
  pub send_failures : ℕ

abbrev pub send_min_ms : ℕ
send_min_ms = 30

abbrev pub send_retry_max : ℕ
send_retry_max = 5

-- `ts3_cemode_signal_send_pending`
unfoldable pub signal_send_pending : Cemode → Cemode × List Effect
signal_send_pending s =
    if s.send_pending then (s, []) else (record s { send_pending = true }, wakeup ∷ [])

-- The end of `ts3_cemode_flush`, with the flag claimed: send, or count the failure.
unfoldable pub send_mode : Env → Cemode → Option Bytes → Cemode × List Effect
send_mode env s none = (s, [])
send_mode env s (some command) =
    if env.can_send
    then (record s { last_send_ms = env.now; send_failures = 0 }, send command ∷ [])
    else if leb (s.send_failures + 1) send_retry_max
    then (record s { send_failures = s.send_failures + 1; send_pending = true }, wakeup ∷ [])
    else (record s { send_failures = 0 }, [])

-- `ts3_cemode_flush`; the mode and the distance in decimetres are those of the voice module,
-- read after the claim of the flag.
unfoldable pub flush : Env → ℕ → ℕ → Cemode → Cemode × List Effect
unfolding send_mode
flush env mode distance_dm s =
    if not env.on_callback || not env.connected || env.shutting_down
    then (s, [])
    else if not s.send_pending
    then (s, [])
    else if not (s.last_send_ms == 0) && ltb (tick_sub env.now s.last_send_ms) send_min_ms
    then (s, wakeup ∷ [])
    else send_mode env (record s { send_pending = false }) (wire_format mode distance_dm cmd_max)

-- The mode and distance in a command of another client, if the handler stores them.
unfoldable pub accepted : Env → Bytes → Bytes → ℕ → Option (ℕ × ℕ)
accepted env plugin_name payload invoker = do
  guard (plugin_name_matches env.plugin_id plugin_name && env.on_callback)
  guard (not (is_own env invoker))
  guard (client_id_valid invoker)
  wire_parse payload

-- The section under the lock, and the reply to a first contact.
unfoldable pub store_mode : ℕ → ℕ × ℕ → Cemode → Cemode × List Effect
unfolding signal_send_pending
store_mode invoker (mode, distance_dm) s =
    let peer : CemodePeer = record {
      distance_dm = distance_dm;
      mode = mode;
      known = true;
      replied = true;
    } in
    let stored = record s { peers = update s.peers invoker peer } in
    if (s.peers invoker).replied then (stored, []) else signal_send_pending stored

-- `ts3_cemode_on_plugin_command`: whether it was a CEMODE command, the state and the effects.
unfoldable pub on_plugin_command : Env → Bytes → Bytes → ℕ → Cemode → Bool × Cemode × List Effect
unfolding accepted store_mode
on_plugin_command env plugin_name command invoker s =
    elim (if env.shutting_down then none else strip_prefix prefix command) [
      | none ↦ (false, s, [])
      | some payload ↦ elim (accepted env plugin_name payload invoker) [
        | none ↦ (true, s, [])
        | some values ↦ let (s', effects) = store_mode invoker values s in (true, s', effects)
      ]
    ]

-- `ts3_cemode_clear_client` and `ts3_cemode_reset`
unfoldable pub clear_client : ℕ → Cemode → Cemode
clear_client client s =
    if client_id_valid client then record s { peers = update s.peers client unknown_peer } else s

unfoldable pub reset : Cemode
reset = record {
  peers = λ _. unknown_peer;
  send_pending = false;
  last_send_ms = 0;
  send_failures = 0;
}
