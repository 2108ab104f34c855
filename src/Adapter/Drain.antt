-- ===== src/Adapter/Drain.antt =====
-- Whom a CEDRAIN command is addressed to (src/core/util/drain_target.h): the own client, or
-- after a probe without echo the whole server.
pub mod Fallback
use conan_exiles_teamspeak.Prelude.{
  ℕ, ◌+◌, Bool, true, false, not, ◌&&◌, ◌||◌, leb, ◌==◌, if◌then◌else◌,
}

-- `DRAIN_TARGET_CLIENT`, `DRAIN_TARGET_SERVER`
pub data Target : Type 0 where
  client server : Target

abbrev pub is_client : Target → Bool
is_client client = true
is_client server = false

abbrev pub probe_min_sends : ℕ
probe_min_sends = 5

abbrev pub probe_timeout_ms : ℕ
probe_timeout_ms = 2000

-- `DrainTargetState`; the clocks are milliseconds of uptime, never negative.
pub record DrainTargetState : Type 0 where
  pub mode : Target
  pub run_open : Bool
  pub run_sends : ℕ
  pub run_start_ms : ℕ
  pub confirmed : Bool
  pub fell_back : Bool

-- The event bits `DRAIN_EVT_CONFIRMED` and `DRAIN_EVT_FALLBACK`.
pub record Events : Type 0 where
  pub confirmed : Bool
  pub fallback : Bool

-- `drain_target_reset`
unfoldable pub reset : DrainTargetState
reset = record {
  mode = client;
  run_open = false;
  run_sends = 0;
  run_start_ms = 0;
  confirmed = false;
  fell_back = false;
}

-- `drain_target_poll`
unfoldable pub poll : DrainTargetState → ℕ → DrainTargetState × Events
poll s last_echo_ms =
    if is_client s.mode && s.run_open && not (last_echo_ms == 0) && leb s.run_start_ms last_echo_ms
    then (
      record s { run_open = false; run_sends = 0; confirmed = true },
      record { confirmed = not s.confirmed; fallback = false },
    )
    else (s, record { confirmed = false; fallback = false })

-- `drain_target_probe_open`
unfoldable pub probe_open : DrainTargetState → Bool
probe_open s = is_client s.mode && s.run_open

-- The decision of `drain_target_pick` behind its poll. The comparison of the signed difference
-- `now - start >= timeout` is written without subtraction.
unfoldable pub choose : DrainTargetState → Events → ℕ → Bool → Target × DrainTargetState × Events
choose s ev now have_local_id =
    if not have_local_id || not (is_client s.mode)
    then (server, s, ev)
    else if s.run_open
        && leb probe_min_sends s.run_sends
        && leb (s.run_start_ms + probe_timeout_ms) now
    then (
      server,
      record s { mode = server; run_open = false; run_sends = 0; fell_back = true },
      record ev { fallback = not s.fell_back },
    )
    else if not s.run_open
    then (client, record s { run_open = true; run_start_ms = now; run_sends = 1 }, ev)
    else (client, record s { run_sends = s.run_sends + 1 }, ev)

-- `drain_target_pick`
unfoldable pub pick : DrainTargetState → ℕ → ℕ → Bool → Target × DrainTargetState × Events
unfolding poll choose
pick s now last_echo_ms have_local_id =
    let (polled, ev) = poll s last_echo_ms in choose polled ev now have_local_id

-- `drain_accept_invoker` and `drain_target_echo_is_own`
unfoldable pub accept_invoker : ℕ → ℕ → Bool
accept_invoker local_id invoker_id = local_id == 0 || invoker_id == 0 || invoker_id == local_id

unfoldable pub echo_is_own : ℕ → ℕ → Bool
echo_is_own local_id invoker_id = not (local_id == 0) && invoker_id == local_id
