-- ===== src/Tests/Pings.antt =====
-- CEPING at concrete inputs.
use conan_exiles_teamspeak.Prelude.{◌+◌, ◌≡◌, true, false, List, [], ◌∷◌, arith}
use conan_exiles_teamspeak.Proto.{Env}
use conan_exiles_teamspeak.Proto.Ping.{CepingTrack, empty_track, Ceping}
use conan_exiles_teamspeak.Proto.Ping.Loss.{
  Message, observations, final_track, events, reported, events-eq-reported,
}

abbrev online : Env
online = record {
  on_callback = true;
  connected = true;
  shutting_down = false;
  now = 1000;
  plugin_id = [];
  local_client = 3;
  can_send = true;
}

abbrev due : Ceping
due = record { peers = λ _. empty_track; send_pending = true; local_seq = 4; last_send_ms = 0 }

events-eq-reported_example :
    let ms : List Message = (1, 1000) ∷ (4, 2000) ∷ (9, 2500) ∷ [] in
    let t : CepingTrack = empty_track in
    events (observations t ms) + t.suppressed
    ≡ reported (observations t ms) + (final_track t ms).suppressed
events-eq-reported_example =
    events-eq-reported ((1, 1000) ∷ (4, 2000) ∷ (9, 2500) ∷ []) empty_track (omega arith)
