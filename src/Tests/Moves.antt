-- ===== src/Tests/Moves.antt =====
-- The channel manager at concrete inputs.
use conan_exiles_teamspeak.Prelude.{
  inl, inr, ℕ, ◌≡◌, refl, true, false, not, ◌&&◌, Option, some, List, [], ◌∷◌, ◌==◌, if◌then◌else◌,
  arith, ◌⊎◌, Spaced,
}
use conan_exiles_teamspeak.CText.{Bytes, codes}
use conan_exiles_teamspeak.Channel.Names.{has_ignore_keyword}
use conan_exiles_teamspeak.Channel.State.{Chan, ChanEnv, move_cooldown_ms}
use conan_exiles_teamspeak.Channel.Find.{
  find_hub_and_ingame, channel_name_is, is_hub_channel, is_ingame_channel, is_root_channel,
}
use conan_exiles_teamspeak.Channel.Find.First.{found_or_kept, find_hub_and_ingame_lem}
use conan_exiles_teamspeak.Channel.Ignore.{is_ignored_channel, name_ignored}
use conan_exiles_teamspeak.Channel.Ignore.Fresh.{AllHonest, Recent, is_ignored_channel_lem}
use conan_exiles_teamspeak.Channel.Move.{request_move}
use conan_exiles_teamspeak.Channel.Move.Sends.{Leaves, Stays, Allowed, request_move_lem}
use conan_exiles_teamspeak.Channel.Tick.{mind_speakers}
use conan_exiles_teamspeak.Channel.Tick.Reasons.{Reasoned}
use conan_exiles_teamspeak.Channel.Tick.Speakers.{Why, mind_speakers_lem}
use conan_exiles_teamspeak.Channel.Tick.Spacing.{
  ChanCall, ticked, own_moved, move_times, move_requests-Spaced,
}

-- Channel 1 is the hub, 2 the ingame channel, 3 one for the rest.
abbrev names : ℕ → Option Bytes
names c =
    if c == 1
    then some (codes "Hub")
    else if c == 2
    then some (codes "INGAME")
    else some (codes "AFK")

abbrev at : ℕ → ℕ → ChanEnv
at time own = record {
  on_callback = true;
  connected = true;
  now = time;
  later = time;
  channels = 3 ∷ 2 ∷ 1 ∷ [];
  channel_name = names;
  has_password = λ c. some (c == 2);
  local_id = 5;
  own_channel = own;
  clients = 5 ∷ [];
  speakers_muted = λ c. some false;
  takes_move = true;
  profile_active = true;
  ingame_password = some (codes "secret");
  coordinates_valid = true;
  distance_muting = true;
  auto_move = true;
  force_speakers_on = true;
}

abbrev in_hub : Chan
in_hub = record {
  hub = 1;
  ingame = 2;
  last_find = 0;
  in_flight = false;
  in_flight_since = 0;
  move_target = 0;
  move_to_ingame = false;
  last_move = 0;
  last_tick = 0;
  backoff = record { target = 0; fail_count = 0; retry_at_ms = 0 };
  position_pending = false;
  list_dirty = false;
  move_wanted = false;
  ingame_arrival = 0;
  ignore_cache = [];
  deaf_poll = false;
  hint_shown = false;
}

request_move_lem_example :
    (Leaves (at 3000 1) in_hub 2 (request_move (at 3000 1) in_hub 2) × Allowed (at 3000 1) in_hub 2)
    ⊎ Stays (at 3000 1) in_hub (request_move (at 3000 1) in_hub 2)
request_move_lem_example = request_move_lem (at 3000 1) in_hub 2

mind_speakers_lem_example : Reasoned Why (at 3000 1) in_hub (mind_speakers (at 3000 1) in_hub)
mind_speakers_lem_example = mind_speakers_lem (at 3000 1) in_hub

abbrev calls : List (ChanEnv × ChanCall)
calls = (at 3000 1, ticked) ∷ (at 3100 2, own_moved 2) ∷ (at 4000 2, ticked) ∷ []

move_requests-Spaced_example : Spaced move_cooldown_ms (some 0) (move_times in_hub calls)
move_requests-Spaced_example =
    move_requests-Spaced calls in_hub 0 (omega arith)
      (omega arith, omega arith, (omega arith, omega arith, (omega arith, omega arith, tt)))

find_hub_and_ingame_lem_example :
    let env = at 3000 1 in
    let hub = found_or_kept env (codes "hub") 1 in
    let ingame = found_or_kept env (codes "ingame") 2 in
    find_hub_and_ingame env in_hub
    ≡ (not (hub == 0) && not (ingame == 0), record in_hub { hub = hub; ingame = ingame })
find_hub_and_ingame_lem_example =
    find_hub_and_ingame_lem (at 3000 1) in_hub refl refl
      ((λ e. omega (arith, e)), ((λ e. omega (arith, e)), ((λ e. omega (arith, e)), tt)))

-- A free entry, and an answer two seconds old.
abbrev cached : Chan
cached = record in_hub {
  ignore_cache =
      record { channel = 0; cached_at = 0; ignored = false }
      ∷ record { channel = 3; cached_at = 1000; ignored = false }
      ∷ [];
}

is_ignored_channel_lem_example :
    let (answer, s') = is_ignored_channel (at 3000 3) cached 3 in
    Recent (λ t c. false) 3 3000 answer × AllHonest (λ t c. false) s'.ignore_cache
unfolding is_ignored_channel is_hub_channel is_ingame_channel is_root_channel name_ignored
    has_ignore_keyword channel_name_is
is_ignored_channel_lem_example =
    is_ignored_channel_lem (λ t c. false) (at 3000 3) cached 3 (λ e. omega (arith, e)) refl refl
      refl refl (inl refl, (inr refl, tt))
