-- ===== src/Adapter/Wakeup.antt =====
-- The wakeup thread, the only sender of CEDRAIN (src/ts/adapter/ts3_adapter.c), and the rate
-- limit of its sends (src/core/util/wakeup_policy.h).
pub mod Requests
use conan_exiles_teamspeak.Prelude.{ℕ, ◌+◌, Bool, true, false, not, ◌||◌, leb, ◌==◌, if◌then◌else◌}
use conan_exiles_teamspeak.Adapter.Drain
use conan_exiles_teamspeak.Adapter.Drain.{DrainTargetState, Target}

-- `wakeup_should_send`; the signed difference `now - last >= rate` without subtraction.
unfoldable pub should_send : ℕ → ℕ → Bool → ℕ → Bool
should_send now last urgent rate = urgent || leb (last + rate) now

-- `PLUGIN_POLL_INTERVAL_MS`
abbrev pub poll_interval_ms : ℕ
poll_interval_ms = 30

-- What the wakeup thread owns (`drain`, `drainEpochSeen`, `s_lastWakeMs`) and the flags that it
-- shares with the producers (`g_wakeupPending`, `g_wakeupUrgent`).
pub record Waker : Type 0 where
  pub pending : Bool
  pub urgent : Bool
  pub last_wake_ms : ℕ
  pub epoch_seen : ℕ
  pub drain : DrainTargetState

-- What one round of the loop reads from outside: why the wait ended, `g_wakeupStop`,
-- `g_drainEpoch`, `g_drainEchoMs`, whether functions, connection and plugin id are there, the
-- clock, and after the rate limit the connection, its id and the own client id; and whether a
-- producer raises the flags after the round has read them, before it clears them or ends.
pub record Round : Type 0 where
  pub timed_out : Bool
  pub stop : Bool
  pub epoch : ℕ
  pub echo_ms : ℕ
  pub ready : Bool
  pub now : ℕ
  pub still_connected : Bool
  pub connection : ℕ
  pub local_id : ℕ
  pub requested : Bool
  pub urgent_requested : Bool

-- How the round ends: the thread leaves its loop; it waits again; it sleeps and sets its own
-- event, so that the next wait ends at once; or CEDRAIN leaves for the connection.
pub data Outcome : Type 0 where
  exits waits rearmed : Outcome
  sends : Target → ℕ → Outcome

-- A new connection or tab restarts the probe.
unfoldable pub see_epoch : Waker → ℕ → Waker
see_epoch w epoch =
    if epoch == w.epoch_seen then w else record w { epoch_seen = epoch; drain = Drain.reset }

-- The flags as the producers of the round leave them.
unfoldable pub raise : Round → Waker → Waker
raise r w = record w {
  pending = w.pending || r.requested || r.urgent_requested;
  urgent = w.urgent || r.urgent_requested;
}

-- From the load of the connection id on. The clear writes over what producers have raised.
unfoldable pub send_now : Waker → Round → Outcome × Waker
unfolding raise
send_now w r =
    if not r.still_connected || r.connection == 0
    then (rearmed, raise r w)
    else let (target, drain, events) = Drain.pick w.drain r.now r.echo_ms (not (r.local_id == 0)) in
      (
        sends target r.connection,
        record (raise r w) { pending = false; urgent = false; last_wake_ms = r.now; drain = drain },
      )

-- From the coalescing of the requests on.
unfoldable pub serve : Waker → Round → Outcome × Waker
unfolding send_now should_send raise
serve w r =
    if not w.pending
    then (waits, raise r w)
    else if not r.ready
    then (rearmed, raise r w)
    else if not (should_send r.now w.last_wake_ms w.urgent poll_interval_ms)
    then (rearmed, raise r w)
    else send_now w r

-- The watchdog tick of an open probe: it ends the round if the echo has arrived, and else asks
-- for a send.
unfoldable pub watchdog : Waker → Round → Outcome × Waker
unfolding serve raise
watchdog w r =
    let (drain, events) = Drain.poll w.drain r.echo_ms in
    let polled = record w { drain = drain } in
    if not (Drain.probe_open drain)
    then (waits, raise r polled)
    else serve (record polled { pending = true }) r

-- One round of `ts3_wakeup_thread`.
unfoldable pub round : Waker → Round → Outcome × Waker
unfolding see_epoch watchdog serve
round w r =
    if r.stop
    then (exits, w)
    else let w' = see_epoch w r.epoch in if r.timed_out then watchdog w' r else serve w' r

-- `ts3_request_wakeup`, `ts3_request_wakeup_urgent`: nothing after the shutdown was signalled.
unfoldable pub request_wakeup : Bool → Waker → Waker
request_wakeup stopping w = if stopping then w else record w { pending = true }

unfoldable pub request_wakeup_urgent : Bool → Waker → Waker
request_wakeup_urgent stopping w =
    if stopping then w else record w { pending = true; urgent = true }
