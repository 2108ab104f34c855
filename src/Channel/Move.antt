-- ===== src/Channel/Move.antt =====
-- The move request: in flight, cooldown, backoff, password (src/ts/channel/channel_manage.c).
pub mod Passwords
pub mod Sends
use conan_exiles_teamspeak.Prelude.{
  ℕ, ◌+◌, Bool, true, false, not, ◌&&◌, ◌||◌, Option, none, some, List, [], ◌∷◌, ◌++◌, ltb, ◌==◌,
  if◌then◌else◌, tick_sub,
}
use conan_exiles_teamspeak.CText.{Bytes}
use conan_exiles_teamspeak.Channel.Backoff.{on_failure, blocks, keeps_loop}
use conan_exiles_teamspeak.Channel.State.{
  Chan, ChanEnv, ChanEffect, request_client_move, anonymize, restore, move_inflight_max_ms,
  move_cooldown_ms,
}
use conan_exiles_teamspeak.Channel.Find.{is_ingame_channel}

-- `chan_move_attempt_failed`
unfoldable pub move_attempt_failed : Chan → ℕ → Chan × List ChanEffect
move_attempt_failed s now = (
  record s {
    in_flight = false;
    in_flight_since = 0;
    move_target = 0;
    move_to_ingame = false;
    backoff = (on_failure s.backoff s.move_target now).0;
  },
  if s.move_to_ingame then restore ∷ [] else [],
)

-- The password for the ingame channel, by whether it is protected and whether one is known; none
-- if the request waits for the game mod.
abbrev pub choose_password : Option Bool → Option Bytes → Option Bytes
choose_password (some false) known = some []
choose_password (some true) known = known
choose_password none none = some []
choose_password none (some password) = some password

-- The password that goes with a request.
unfoldable pub password_for : ChanEnv → Bool → ℕ → Option Bytes
password_for env to_ingame target =
    if to_ingame then choose_password (env.has_password target) env.ingame_password else some []

-- What a call yields: whether the request left, `*retrySoon`, the state, the effects.
pub record MoveResult : Type 0 where
  pub sent : Bool
  pub retry_soon : Bool
  pub state : Chan
  pub effects : List ChanEffect

abbrev pub no_move : Chan → Bool → MoveResult
no_move s retry_soon = record { sent = false; retry_soon = retry_soon; state = s; effects = [] }

-- From the stamp of the attempt on.
unfoldable pub attempt_move : ChanEnv → Chan → ℕ → Bool → Bytes → MoveResult
attempt_move env s target to_ingame password =
    let before = if to_ingame then anonymize target ∷ [] else [] in
    let stamped = record s { last_move = env.later } in
    if not env.takes_move
    then record {
      sent = false;
      retry_soon = false;
      state = stamped;
      effects = before ++ (if to_ingame then restore ∷ [] else []);
    }
    else record {
      sent = true;
      retry_soon = true;
      state = record stamped {
        in_flight = true;
        in_flight_since = env.later;
        move_target = target;
        move_to_ingame = to_ingame;
      };
      effects = before ++ (request_client_move target password ∷ []);
    }

-- From the own client id on: the checks of the profile and of the password.
unfoldable pub prepare_move : ChanEnv → Chan → ℕ → MoveResult
unfolding attempt_move
prepare_move env s target =
    let to_ingame = is_ingame_channel env s target in
    if env.local_id == 0 || (to_ingame && not env.profile_active)
    then no_move s false
    else elim (password_for env to_ingame target) [
      | none ↦ no_move s false
      | some password ↦ attempt_move env s target to_ingame password
    ]

-- From the cooldown on.
unfoldable pub timed_move : ChanEnv → Chan → ℕ → MoveResult
unfolding prepare_move
timed_move env s target =
    if ltb (tick_sub env.later s.last_move) move_cooldown_ms
    then no_move s true
    else if blocks s.backoff target env.later
    then no_move s (keeps_loop s.backoff)
    else prepare_move env s target

-- `chan_request_move_impl`
unfoldable pub request_move : ChanEnv → Chan → ℕ → MoveResult
unfolding timed_move move_attempt_failed
request_move env s target =
    if not env.on_callback || not env.connected || target == 0
    then no_move s false
    else if not s.in_flight
    then timed_move env s target
    else if ltb (tick_sub env.later s.in_flight_since) move_inflight_max_ms
    then no_move s true
    else let (failed, effects) = move_attempt_failed s env.later in
      let r = timed_move env failed target in record r { effects = effects ++ r.effects }
