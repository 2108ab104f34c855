-- ===== src/Tests/Auths.antt =====
-- CEAUTH at concrete inputs.
use conan_exiles_teamspeak.Prelude.{
  ℕ, ◌≡◌, refl, true, false, none, some, [], ◌∷◌, ◌==◌, if◌then◌else◌, ◌>>=◌, arith, inl, ◌↔◌,
}
use conan_exiles_teamspeak.CText.{Bytes, codes, str_same, strip_prefix}
use conan_exiles_teamspeak.Proto.{Env, send, client_id_valid, plugin_name_matches}
use conan_exiles_teamspeak.Proto.Auth.{
  prefix, cmd_max, wire_format, wire_parse, Ceauth, flush, on_plugin_command, reset,
}
use conan_exiles_teamspeak.Proto.Auth.Codec.{auth_round_trip}
use conan_exiles_teamspeak.Proto.Auth.Handshake.{announce, Listens, auth_exchange}

abbrev here : Env
here = record {
  on_callback = true;
  connected = true;
  shutting_down = false;
  now = 1000;
  plugin_id = codes "p";
  local_client = 3;
  can_send = true;
}

abbrev there : Env
there = record here { local_client = 4 }

Listens-here : Listens here (codes "p") 4
unfolding plugin_name_matches client_id_valid str_same
Listens-here = record {
  running = refl;
  thread = refl;
  known_name = refl;
  foreign = refl;
  valid = refl;
}

Listens-there : Listens there (codes "p") 3
unfolding plugin_name_matches client_id_valid str_same
Listens-there = record {
  running = refl;
  thread = refl;
  known_name = refl;
  foreign = refl;
  valid = refl;
}

auth_round_trip_example :
    let id : ℕ = 76561198000000000 in
    ((wire_format id cmd_max ≡ none) ↔ (id ≡ 0))
    × ((do
      command ← wire_format id cmd_max
      payload ← strip_prefix prefix command
      wire_parse payload)
        ≡ (if id == 0 then none else some id))
auth_round_trip_example = auth_round_trip 76561198000000000 (omega arith)

auth_exchange_example :
    let here : Env = here in
    let there : Env = there in
    let name_here : Bytes = codes "p" in
    let name_there : Bytes = codes "p" in
    let me : ℕ = 3 in
    let peer : ℕ = 4 in
    let my_id : ℕ = 11 in
    let peer_id : ℕ = 22 in
    let s : Ceauth = reset in
    let t : Ceauth = reset in
    let heard = (on_plugin_command here name_there (announce peer_id) peer s).1 in
    let answered = on_plugin_command there name_here (announce my_id) me t in
    ((heard.peers peer).steam_id ≡ peer_id)
    × ((flush here my_id heard).1 ≡ send (announce my_id) ∷ [])
    × ((answered.1.peers me).steam_id ≡ my_id)
unfolding reset
auth_exchange_example =
    auth_exchange here there (codes "p") (codes "p") 3 4 11 22 reset reset Listens-here
      Listens-there (omega arith) (omega arith) (omega arith) (omega arith) refl refl refl
      (inl refl)
