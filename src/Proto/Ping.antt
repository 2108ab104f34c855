-- ===== src/Proto/Ping.antt =====
-- CEPING, the liveness heartbeat: the wire codec and the per-peer loss tracking
-- (src/ts/proximity/ts3_ceping_wire.h), and the sender and receiver around them
-- (src/ts/proximity/ts3_ceping.c). Sequence numbers are uint32 values, clocks are uint64.
pub mod RoundTrip
pub mod Gap
pub mod Loss
pub mod Rate
use conan_exiles_teamspeak.Prelude.{
  ℕ, ◌+◌, ◌-◌, ◌%◌, ◌^◌, Bool, true, false, not, ◌&&◌, ◌||◌, Option, none, some, List, [], ◌∷◌,
  ◌++◌, ltb, leb, ◌==◌, if◌then◌else◌, ◌>>=◌, ◌>>◌, guard, tick_sub,
}
use conan_exiles_teamspeak.CText.{
  Bytes, codes, peek, tail, Number, scan_number, long_is, unsigned_value, print, fits, strip_prefix,
}
use conan_exiles_teamspeak.Proto.{
  Env, Effect, wakeup, send, client_id_valid, plugin_name_matches, is_own, update,
}

abbrev pub prefix : Bytes
prefix = codes "CEPING:"

-- `CEPING_SEQ_MASK + 1`: masking is the remainder by it.
abbrev pub seq_modulus : ℕ
seq_modulus = 2 ^ 32

abbrev pub cmd_max : ℕ
cmd_max = 28

-- `ceping_wire_format`
unfoldable pub wire_format : ℕ → ℕ → Option Bytes
unfolding fits
wire_format seq out_size = fits out_size (prefix ++ print 1 (b';' ∷ print (seq % seq_modulus) []))

-- `*end` is the end of the text, or the start of an additive field.
abbrev pub ends_field : Number → Bool
ends_field n = peek n.rest == 0 || peek n.rest == b';'

-- `ceping_wire_parse`, on the text behind the prefix.
unfoldable pub wire_parse : Bytes → Option ℕ
unfolding long_is unsigned_value
wire_parse payload = do
  version ← scan_number payload
  guard (peek version.rest == b';')
  guard (long_is 1 version)
  seq ← scan_number (tail version.rest)
  guard (ends_field seq)
  some (unsigned_value seq_modulus seq % seq_modulus)

-- `(a - b) & CEPING_SEQ_MASK` of uint32 values.
abbrev pub seq_sub : ℕ → ℕ → ℕ
seq_sub a b = (a + seq_modulus - b) % seq_modulus

abbrev pub forward_max : ℕ
forward_max = 0x7FFFFFFF

-- `ceping_seq_gap`
unfoldable pub seq_gap : ℕ → ℕ → ℕ
seq_gap prev next =
    let diff = seq_sub next prev in if diff == 0 || ltb forward_max diff then 0 else diff - 1

-- `CepingTrack`; `ULONG_MAX` is that of a 32-bit unsigned long.
pub record CepingTrack : Type 0 where
  pub last_seq : ℕ
  pub suppressed : ℕ
  pub last_log_ms : ℕ
  pub has_seq : Bool
  pub has_logged : Bool

abbrev pub empty_track : CepingTrack
empty_track = record {
  last_seq = 0;
  suppressed = 0;
  last_log_ms = 0;
  has_seq = false;
  has_logged = false;
}

-- `CepingObserved`
pub record CepingObserved : Type 0 where
  pub missed : ℕ
  pub suppressed : ℕ
  pub log : Bool

abbrev pub nothing_observed : CepingObserved
nothing_observed = record { missed = 0; suppressed = 0; log = false }

abbrev pub reorder_window : ℕ
reorder_window = 16

abbrev pub loss_log_min_ms : ℕ
loss_log_min_ms = 1000

abbrev pub ulong_max : ℕ
ulong_max = 2 ^ 32 - 1

-- The end of `ceping_track_observe`: a loss of `missed` heartbeats is logged or only counted.
unfoldable pub note_loss : CepingTrack → ℕ → ℕ → CepingTrack × CepingObserved
note_loss track missed now =
    if not track.has_logged
      || ltb now track.last_log_ms
      || leb loss_log_min_ms (now - track.last_log_ms)
    then (
      record track { suppressed = 0; has_logged = true; last_log_ms = now },
      record { missed = missed; suppressed = track.suppressed; log = true },
    )
    else if not (track.suppressed == ulong_max)
    then (
      record track { suppressed = track.suppressed + 1 },
      record { missed = missed; suppressed = 0; log = false },
    )
    else (track, record { missed = missed; suppressed = 0; log = false })

-- `ceping_track_observe`; `seq` is masked first.
unfoldable pub track_observe : CepingTrack → ℕ → ℕ → CepingTrack × CepingObserved
unfolding note_loss
track_observe track raw now =
    let seq = raw % seq_modulus in
    let diff = seq_sub seq track.last_seq in
    let advanced = record track { last_seq = seq } in
    if not track.has_seq
    then (record track { last_seq = seq; has_seq = true }, nothing_observed)
    else if diff == 0
    then (track, nothing_observed)
    else if ltb forward_max diff
    then (
      (if ltb reorder_window (seq_sub track.last_seq seq) then advanced else track),
      nothing_observed,
    )
    else if diff - 1 == 0
    then (advanced, nothing_observed)
    else note_loss advanced (diff - 1) now

-- The state of ts3_ceping.c: `g_peers`, `g_sendPending`, `g_localSeq`, `g_lastSendMs`.
pub record Ceping : Type 0 where
  pub peers : ℕ → CepingTrack
  pub send_pending : Bool
  pub local_seq : ℕ
  pub last_send_ms : ℕ

abbrev pub send_min_ms : ℕ
send_min_ms = 1000

-- `ts3_ceping_signal_send_pending`
unfoldable pub signal_send_pending : Ceping → Ceping × List Effect
signal_send_pending s =
    if s.send_pending then (s, []) else (record s { send_pending = true }, wakeup ∷ [])

-- What leaves for a formatted command, and the time stamp of the send.
unfoldable pub send_beat : Env → Ceping → Option Bytes → Ceping × List Effect
send_beat env s none = (s, [])
send_beat env s (some command) =
    if env.can_send then (record s { last_send_ms = env.now }, send command ∷ []) else (s, [])

-- `ts3_ceping_flush`
unfoldable pub flush : Env → Ceping → Ceping × List Effect
unfolding send_beat
flush env s =
    if not env.on_callback || not env.connected || env.shutting_down
    then (record s { send_pending = false }, [])
    else if not s.send_pending
    then (s, [])
    else if not (s.last_send_ms == 0) && ltb (tick_sub env.now s.last_send_ms) send_min_ms
    then (record s { send_pending = false }, [])
    else let seq = (s.local_seq + 1) % seq_modulus in
      let (sent, effects) =
        send_beat env (record s { local_seq = seq }) (wire_format seq cmd_max) in
      (record sent { send_pending = false }, effects)

-- The sequence number of a command from another client, if the handler looks at it.
unfoldable pub accepted : Env → Bytes → Bytes → ℕ → Option ℕ
accepted env plugin_name payload invoker = do
  guard (plugin_name_matches env.plugin_id plugin_name && env.on_callback)
  guard (not (is_own env invoker))
  guard (client_id_valid invoker)
  wire_parse payload

-- `ts3_ceping_on_plugin_command`: whether it was a CEPING command, the state, and the loss
-- line to write.
unfoldable pub on_plugin_command : Env → Bytes → Bytes → ℕ → Ceping → Bool × Ceping × CepingObserved
unfolding accepted
on_plugin_command env plugin_name command invoker s =
    elim (if env.shutting_down then none else strip_prefix prefix command) [
      | none ↦ (false, s, nothing_observed)
      | some payload ↦ elim (accepted env plugin_name payload invoker) [
        | none ↦ (true, s, nothing_observed)
        | some seq ↦
            let (track, seen) = track_observe (s.peers invoker) seq env.now in
            (true, record s { peers = update s.peers invoker track }, seen)
      ]
    ]

-- `ts3_ceping_clear_client` and `ts3_ceping_reset`
unfoldable pub clear_client : ℕ → Ceping → Ceping
clear_client client s =
    if client_id_valid client then record s { peers = update s.peers client empty_track } else s

unfoldable pub reset : Ceping
reset = record { peers = λ _. empty_track; send_pending = false; local_seq = 0; last_send_ms = 0 }
