-- ===== src/Tests/Modes.antt =====
-- CEMODE at concrete inputs.
use conan_exiles_teamspeak.Prelude.{
  ℕ, ◌+◌, ◌≡◌, refl, true, false, List, [], ◌∷◌, leb, arith, inl, length,
}
use conan_exiles_teamspeak.Proto.{Env}
use conan_exiles_teamspeak.Proto.Mode.{unknown_peer, Cemode, send_retry_max}
use conan_exiles_teamspeak.Proto.Mode.Retry.{Fails, flush_all, retries_end}
use conan_exiles_teamspeak.Proto.Mode.Handover.{
  Shared, idle, switch, signal, claim, read, sent, Reach, here, next, no_mode_edge_lost,
}

abbrev start : Shared
start = record { mode = 0; pending = false; announced = 0; unsignalled = 0; flusher = idle }

abbrev end : Shared
end = record { mode = 2; pending = false; announced = 2; unsignalled = 0; flusher = idle }

reach_end : Reach start end
reach_end =
    next
      (next (next (next (next here (switch _ 2)) (signal _ (omega arith))) (claim _ refl refl))
        (read _ refl))
      (sent _ 2 refl)

abbrev offline : Env
offline = record {
  on_callback = true;
  connected = true;
  shutting_down = false;
  now = 1000;
  plugin_id = [];
  local_client = 3;
  can_send = false;
}

offline-Fails : Fails offline 0
offline-Fails = record { runs = refl; due = inl refl; failing = refl }

abbrev waiting : Cemode
waiting = record {
  peers = λ _. unknown_peer;
  send_pending = true;
  last_send_ms = 0;
  send_failures = 0;
}

no_mode_edge_lost_example : let s : Shared = start in let t : Shared = end in t.announced ≡ t.mode
no_mode_edge_lost_example = no_mode_edge_lost start end refl refl reach_end refl refl refl

retries_end_example :
    let es : List Env = offline ∷ offline ∷ [] in
    let mode : ℕ = 1 in
    let dm : ℕ = 30 in
    let s : Cemode = waiting in
    (flush_all es mode dm s).send_pending ≡ leb (s.send_failures + length es) send_retry_max
retries_end_example =
    retries_end (offline ∷ offline ∷ []) 1 30 waiting (omega arith) (omega arith) refl (omega arith)
      (offline-Fails, (offline-Fails, tt))
