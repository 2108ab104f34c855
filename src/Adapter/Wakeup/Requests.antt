-- ===== src/Adapter/Wakeup/Requests.antt =====
-- The wakeup thread: requests are served, at the rate allowed.
use conan_exiles_teamspeak.Prelude.{ℕ, ◌+◌, ◌≤◌, ◌≡◌, ◌≢◌, true, false, ◌||◌, arith, ◌⊎◌}
use conan_exiles_teamspeak.Adapter.Drain
use conan_exiles_teamspeak.Adapter.Wakeup.{
  Waker, Round, waits, rearmed, sends, round, poll_interval_ms,
}

-- What a round that does not leave the loop does with requests. One that is pending when the
-- round begins is served, CEDRAIN leaves, or it stays pending and the thread has set its event
-- for another round; the watchdog alone may find nothing to do, and then keeps it. One that a
-- producer makes while the round runs, after it has read the flags, stays pending too, unless
-- CEDRAIN leaves: then the flags are cleared after the send, and that request with them.
pub requests_served_or_kept :
    (w : Waker) (r : Round)
    → r.stop ≡ false
    → let (outcome, w') = round w r in
      (((target : Drain.Target) × (outcome ≡ sends target r.connection)) × (w'.pending ≡ false))
      ⊎ (((w.pending || r.requested || r.urgent_requested ≡ false) ⊎ (w'.pending ≡ true))
          × (w'.urgent ≡ w.urgent || r.urgent_requested)
          × ((outcome ≡ rearmed)
              ⊎ ((outcome ≡ waits) × ((w.pending ≡ false) ⊎ (r.timed_out ≡ true)))))
unfolding round
requests_served_or_kept w r s = ground arith

-- When CEDRAIN leaves, the plugin was ready and connected, the request was urgent or the rate
-- window had passed since the last send, the send is stamped, and both flags are cleared.
pub sends_only_when_due :
    (w : Waker) (r : Round) (target : Drain.Target) (connection : ℕ)
    → (round w r).0 ≡ sends target connection
    → let w' = (round w r).1 in
      (r.ready ≡ true)
      × (r.still_connected ≡ true)
      × (connection ≡ r.connection)
      × (connection ≢ 0)
      × ((w.urgent ≡ true) ⊎ (w.last_wake_ms + poll_interval_ms ≤ r.now))
      × (w'.last_wake_ms ≡ r.now)
      × (w'.pending ≡ false)
      × (w'.urgent ≡ false)
unfolding round
sends_only_when_due w r target connection h = ground arith
