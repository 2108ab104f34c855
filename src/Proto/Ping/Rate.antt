-- ===== src/Proto/Ping/Rate.antt =====
-- CEPING: how often a peer's losses are logged, and when a heartbeat is sent.
use conan_exiles_teamspeak.Prelude.{
  ℕ, ◌+◌, ◌%◌, ◌≤◌, ◌≡◌, true, false, not, ◌&&◌, Option, none, some, List, [], ◌∷◌, if◌then◌else◌,
  tick_sub, arith, ◌⊎◌, Spaced, Clocked,
}
use conan_exiles_teamspeak.Proto.{Env, send}
use conan_exiles_teamspeak.Proto.Ping.{
  CepingTrack, track_observe, loss_log_min_ms, Ceping, flush, send_min_ms, seq_modulus, wire_format,
  cmd_max,
}
use conan_exiles_teamspeak.Proto.Ping.RoundTrip.{wire_format-fits}
use conan_exiles_teamspeak.CText.{Bytes}
use conan_exiles_teamspeak.Proto.Ping.Loss.{Message}

-- When the messages of a peer, at their times, lead to log lines.
pub log_times : CepingTrack → List Message → List ℕ
log_times t [] = []
log_times t ((seq, now) ∷ ms) =
    let (t', seen) = track_observe t seq now in
    let rest = log_times t' ms in if seen.log then now ∷ rest else rest

abbrev pub last_log : CepingTrack → Option ℕ
last_log t = if t.has_logged then some t.last_log_ms else none

abbrev times : List (ℕ × ℕ) → List ℕ
times [] = []
times ((seq, now) ∷ ms) = now ∷ times ms

observe-log :
    (t : CepingTrack) (seq now : ℕ) (ts : List ℕ)
    → (last : ℕ) → (t.has_logged ≡ true → t.last_log_ms ≤ last)
    → last ≤ now
    → let (t', o) = track_observe t seq now in
      Spaced loss_log_min_ms (last_log t') ts
      → Spaced loss_log_min_ms (last_log t) (if o.log then now ∷ ts else ts)
unfolding track_observe
observe-log t seq now ts last h k s = ground (arith)

observe-bound :
    (t : CepingTrack) (seq now : ℕ)
    → (last : ℕ) → (t.has_logged ≡ true → t.last_log_ms ≤ last)
    → last ≤ now
    → let (t', o) = track_observe t seq now in t'.has_logged ≡ true → t'.last_log_ms ≤ now
unfolding track_observe
observe-bound t seq now last h k e = ground arith

-- The log lines about one peer lie at least a second apart, and a second after the last line
-- written before, on a clock that does not run backwards.
pub loss_lines-Spaced :
    (ms : List Message) (t : CepingTrack) (last : ℕ)
    → (t.has_logged ≡ true → t.last_log_ms ≤ last)
    → Clocked last (times ms)
    → Spaced loss_log_min_ms (last_log t) (log_times t ms)
unfolding log_times
loss_lines-Spaced [] t last h c = tt
loss_lines-Spaced ((seq, now) ∷ ms) t last h c =
    let t' = (track_observe t seq now).0 in
    observe-log t seq now (log_times t' ms) last h c.0
      (loss_lines-Spaced ms t' now (observe-bound t seq now last h c.0) c.2)

-- One call of `flush` sends nothing, or the next sequence number: then a send was pending, a
-- second has passed since the last heartbeat (or there was none), and the clock is stamped.
-- No call leaves a send pending.
pub flush_lem :
    (env : Env) (s : Ceping)
    → let (s', effects) = flush env s in
      (s'.send_pending ≡ false)
      × ((effects ≡ []) × (s'.last_send_ms ≡ s.last_send_ms)
          ⊎ (s.send_pending ≡ true)
            × (env.on_callback && env.connected && not env.shutting_down ≡ true)
            × ((s.last_send_ms ≡ 0) ⊎ (send_min_ms ≤ tick_sub env.now s.last_send_ms))
            × (s'.local_seq ≡ (s.local_seq + 1) % seq_modulus)
            × (s'.last_send_ms ≡ env.now)
            × ((command : Bytes) × (wire_format s'.local_seq cmd_max ≡ some command)
                × (effects ≡ send command ∷ [])))
unfolding flush
flush_lem env s = ground (arith, wire_format-fits ((s.local_seq + 1) % seq_modulus))
