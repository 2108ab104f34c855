-- ===== src/Adapter/Drain/Fallback.antt =====
-- The addressing of CEDRAIN: fallback without echo, and what an echo does.
use conan_exiles_teamspeak.Prelude.{
  ℕ, ◌+◌, ◌≤◌, ◌<◌, ◌≡◌, ◌≢◌, Bool, true, false, not, ◌&&◌, List, [], ◌∷◌, arith, ◌⊎◌, ◌↔◌, length,
}
use conan_exiles_teamspeak.Adapter.Drain.{
  client, server, probe_min_sends, probe_timeout_ms, DrainTargetState, reset, pick, accept_invoker,
  echo_is_own,
}

-- Sends on one connection with a known own id, each at its time and with the stamp of the last
-- echo that it reads.
pub pick_all : DrainTargetState → List (ℕ × ℕ) → DrainTargetState
pick_all s [] = s
pick_all s ((t, echo) ∷ ts) = pick_all (pick s t echo true).1 ts

-- No echo of these sends: the stamps are older than `start`, or 0.
abbrev pub NoEcho : ℕ → List (ℕ × ℕ) → Type 0
NoEcho start [] = Unit
NoEcho start ((t, echo) ∷ ts) = ((echo ≡ 0) ⊎ (echo < start)) × NoEcho start ts

-- A probe that waits since `start` for an echo of `sends` sends, or the end of a probe.
abbrev Probing : ℕ → ℕ → DrainTargetState → Type 0
Probing start sends s =
    (s.mode ≡ server)
    ⊎ ((s.mode ≡ client) × (s.run_open ≡ true) × (s.run_start_ms ≡ start) × (s.run_sends ≡ sends))

pick-Probing :
    (s : DrainTargetState) (t echo start sends : ℕ)
    → Probing start sends s
    → (echo ≡ 0) ⊎ (echo < start)
    → Probing start (sends + 1) (pick s t echo true).1
unfolding pick
pick-Probing s t echo start sends p quiet = ground arith

pick_all-Probing :
    (ts : List (ℕ × ℕ)) (s : DrainTargetState) (start sends : ℕ)
    → Probing start sends s
    → NoEcho start ts
    → Probing start (sends + length ts) (pick_all s ts)
unfolding pick_all
pick_all-Probing [] s start sends p quiet = ground arith
pick_all-Probing ((t, echo) ∷ ts) s start sends p (quiet, more) = ground (
  arith,
  pick_all-Probing ts (pick s t echo true).1 start (sends + 1)
      (pick-Probing s t echo start sends p quiet) more,
)

pick-late :
    (s : DrainTargetState) (t echo start sends : ℕ)
    → Probing start sends s
    → (echo ≡ 0) ⊎ (echo < start)
    → probe_min_sends ≤ sends
    → start + probe_timeout_ms ≤ t
    → ((pick s t echo true).0 ≡ server) × ((pick s t echo true).1.mode ≡ server)
unfolding pick
pick-late s t echo start sends p quiet n d = ground arith

pick_first : (start echo : ℕ) → Probing start 1 (pick reset start echo true).1
unfolding pick reset
pick_first start echo = ground arith

-- Drains never stop for want of an echo: on a fresh connection where no send to the own client
-- comes back, a send that has at least five before it and comes two seconds after the first
-- goes to the whole server. An echo older than the first send, of an earlier connection, does not
-- prevent it: the first send may read any stamp, the later ones any that is older than it.
pub silent_client_falls_back :
    (first old now last : ℕ) (between : List (ℕ × ℕ))
    → NoEcho first between
    → (last ≡ 0) ⊎ (last < first)
    → 5 ≤ 1 + length between
    → first + 2000 ≤ now
    → (pick (pick_all (pick reset first old true).1 between) now last true).0 ≡ server
silent_client_falls_back first old now last between quiet none n d =
    let s = (pick reset first old true).1 in
    (pick-late (pick_all s between) now last first (1 + length between)
      (pick_all-Probing between s first 1 (pick_first first old) quiet) none n d).0

-- A connection that has fallen back stays with the server, whatever echoes come, until a reset.
pub server_stays :
    (s : DrainTargetState) (now echo : ℕ) (have_id : Bool)
    → s.mode ≡ server
    → ((pick s now echo have_id).0 ≡ server) × ((pick s now echo have_id).1 ≡ s)
unfolding pick
server_stays s now echo have_id h = ground arith

-- An own echo that is not older than the open run keeps the client mode: that send goes to the
-- own client again, and starts a run of its own.
pub echo_keeps_client :
    (s : DrainTargetState) (now echo : ℕ)
    → s.mode ≡ client
    → echo ≢ 0
    → s.run_start_ms ≤ echo
    → let (target, s', ev) = pick s now echo true in
      (target ≡ client)
      × (s'.mode ≡ client)
      × (s'.run_open ≡ true)
      × (s'.run_start_ms ≡ now)
      × (s'.run_sends ≡ 1)
      × (ev.confirmed ≡ s.run_open && not s.confirmed)
      × (ev.fallback ≡ false)
unfolding pick
echo_keeps_client s now echo h e k = ground arith

-- The filter of received CEDRAIN commands refuses exactly those that another client is reported
-- to have sent, when the own id is known; and what counts as the own echo is never refused.
pub accept_invoker_lem :
    (local_id invoker : ℕ)
    → ((accept_invoker local_id invoker ≡ false)
        ↔ ((local_id ≢ 0) × (invoker ≢ 0) × (invoker ≢ local_id)))
      × (echo_is_own local_id invoker ≡ true → accept_invoker local_id invoker ≡ true)
unfolding accept_invoker echo_is_own
accept_invoker_lem local_id invoker = ((λ h. ground arith, λ h. ground arith), λ h. ground arith)
