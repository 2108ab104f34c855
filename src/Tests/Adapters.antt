-- ===== src/Tests/Adapters.antt =====
-- The adapter at concrete inputs.
use conan_exiles_teamspeak.Prelude.{
  ℕ, ◌+◌, ◌≤◌, ◌≡◌, ◌≢◌, refl, true, false, ◌||◌, List, [], ◌∷◌, arith, inl, inr, ◌⊎◌,
}
use conan_exiles_teamspeak.Adapter.Wakeup.{
  poll_interval_ms, Waker, Round, waits, rearmed, sends, round,
}
use conan_exiles_teamspeak.Adapter.Wakeup.Requests.{requests_served_or_kept, sends_only_when_due}
use conan_exiles_teamspeak.Adapter.Drain
use conan_exiles_teamspeak.Adapter.Drain.{
  Target, client, server, DrainTargetState, pick, reset, accept_invoker, echo_is_own,
  probe_min_sends, probe_timeout_ms,
}
use conan_exiles_teamspeak.Adapter.Drain.Fallback.{pick_all, silent_client_falls_back}

abbrev asked : Waker
asked = record {
  pending = true;
  urgent = false;
  last_wake_ms = 100;
  epoch_seen = 1;
  drain = record {
    mode = client;
    run_open = false;
    run_sends = 0;
    run_start_ms = 0;
    confirmed = false;
    fell_back = false;
  };
}

abbrev signalled : Round
signalled = record {
  timed_out = false;
  stop = false;
  epoch = 1;
  echo_ms = 0;
  ready = true;
  now = 500;
  still_connected = true;
  connection = 1;
  local_id = 3;
  requested = true;
  urgent_requested = false;
}

requests_served_or_kept_example :
    let w : Waker = asked in
    let r : Round = signalled in
    let (outcome, w') = round w r in
    (((target : Drain.Target) × (outcome ≡ sends target r.connection)) × (w'.pending ≡ false))
    ⊎ (((w.pending || r.requested || r.urgent_requested ≡ false) ⊎ (w'.pending ≡ true))
        × (w'.urgent ≡ w.urgent || r.urgent_requested)
        × ((outcome ≡ rearmed)
            ⊎ ((outcome ≡ waits) × ((w.pending ≡ false) ⊎ (r.timed_out ≡ true)))))
requests_served_or_kept_example = requests_served_or_kept asked signalled refl

sends_only_when_due_example :
    let w : Waker = asked in
    let r : Round = signalled in
    let target : Drain.Target = client in
    let connection : ℕ = 1 in
    let w' = (round w r).1 in
    (r.ready ≡ true)
    × (r.still_connected ≡ true)
    × (connection ≡ r.connection)
    × (connection ≢ 0)
    × ((w.urgent ≡ true) ⊎ (w.last_wake_ms + poll_interval_ms ≤ r.now))
    × (w'.last_wake_ms ≡ r.now)
    × (w'.pending ≡ false)
    × (w'.urgent ≡ false)
unfolding round pick
sends_only_when_due_example = sends_only_when_due asked signalled client 1 refl

silent_client_falls_back_example :
    let first : ℕ = 100 in
    let old : ℕ = 60 in
    let now : ℕ = 2500 in
    let last : ℕ = 60 in
    let between : List (ℕ × ℕ) = (200, 60) ∷ (300, 60) ∷ (400, 0) ∷ (500, 60) ∷ [] in
    (pick (pick_all (pick reset first old true).1 between) now last true).0 ≡ server
silent_client_falls_back_example =
    silent_client_falls_back 100 60 2500 60 ((200, 60) ∷ (300, 60) ∷ (400, 0) ∷ (500, 60) ∷ [])
      (inr (omega arith), (inr (omega arith), (inl refl, (inr (omega arith), tt))))
      (inr (omega arith)) (omega arith) (omega arith)
