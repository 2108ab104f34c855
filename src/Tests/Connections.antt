-- ===== src/Tests/Connections.antt =====
-- Connections at concrete inputs.
use conan_exiles_teamspeak.Prelude.{
  ℕ, ◌≡◌, refl, true, false, ◌||◌, none, some, ◌==◌, if◌then◌else◌,
}
use conan_exiles_teamspeak.Adapter.Connection.{
  Sdk, Identity, Status, connection_established, on_connect_status_changed,
}
use conan_exiles_teamspeak.Adapter.Connection.Publish.{
  IsWhole, AtAllTimes, status_publishes-IsWhole,
}

abbrev sdk : Sdk
sdk = record {
  current_tab = some 1;
  established = λ c. c == 1 || c == 2;
  client_of = λ c. if c == 1 then some 31 else if c == 2 then some 32 else none;
}

abbrev live : Identity
live = record { active = 1; connected = true; local_client = 31; drain_epoch = 4 }

abbrev offline : Identity
offline = record { active = 0; connected = false; local_client = 0; drain_epoch = 4 }

writes_made : (on_connect_status_changed sdk offline 1 connection_established).0 ≡ true
unfolding on_connect_status_changed
writes_made = refl

status_publishes-IsWhole_example :
    let sdk : Sdk = sdk in
    let s : Identity = offline in
    let conn : ℕ = 1 in
    let client : ℕ = 31 in
    let status : Status = connection_established in
    AtAllTimes (IsWhole sdk) (on_connect_status_changed sdk s conn status).1 s
status_publishes-IsWhole_example =
    status_publishes-IsWhole sdk offline 1 31 connection_established (λ e. cc) refl
