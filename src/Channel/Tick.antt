-- ===== src/Channel/Tick.antt =====
-- The tick of the channel manager and its events (src/ts/channel/channel_manage.c).
pub mod Steps
pub mod Spacing
pub mod Speakers
pub mod Reasons
use conan_exiles_teamspeak.Prelude.{
  ℕ, ◌+◌, Bool, true, false, not, ◌&&◌, ◌||◌, none, some, List, [], ◌∷◌, ◌++◌, ltb, leb, ◌==◌,
  if◌then◌else◌, tick_sub, take,
}
use conan_exiles_teamspeak.Channel.Backoff.{backoff_reset}
use conan_exiles_teamspeak.Channel.State.{
  Chan, ChanEnv, ChanEffect, request_client_move, anonymize, restore, set_audio_mode, clear_deaf,
  set_deaf, wakeup, speaker_hint, AudioMode, passthrough, proximity, mute, move_inflight_max_ms,
  find_retry_ms, tick_min_ms,
}
use conan_exiles_teamspeak.Channel.Find.{
  find_hub_and_ingame, is_hub_channel, is_ingame_channel, should_be_ingame,
}
use conan_exiles_teamspeak.Channel.Ignore.{is_ignored_channel}
use conan_exiles_teamspeak.Channel.Move.{move_attempt_failed, request_move}

-- `chan_update_audio_mode`
unfoldable pub audio_mode : ChanEnv → Chan → ℕ → AudioMode × Chan
audio_mode env s channel =
    let (ignored, s') = is_ignored_channel env s channel in
    (
      if ignored
          then passthrough
          else if is_ingame_channel env s' channel
          then proximity
          else if is_hub_channel env s' channel
          then mute
          else passthrough,
      s',
    )

-- The loop of `chan_update_deaf_speakers`.
unfoldable pub deaf_clients : ChanEnv → List ℕ → List ChanEffect
deaf_clients env [] = []
deaf_clients env (c ∷ cs) =
    let rest = deaf_clients env cs in
    if c == env.local_id
    then rest
    else elim (env.speakers_muted c) [ none ↦ rest | some muted ↦ set_deaf c muted ∷ rest ]

-- `chan_update_deaf_speakers`
unfoldable pub update_deaf_speakers : ChanEnv → Chan → Chan × List ChanEffect
unfolding deaf_clients
update_deaf_speakers env s =
    if not env.force_speakers_on || not (is_ingame_channel env s env.own_channel)
    then (if s.deaf_poll then (record s { deaf_poll = false }, clear_deaf ∷ []) else (s, []))
    else (
      record s { deaf_poll = true },
      (if s.deaf_poll then [] else clear_deaf ∷ []) ++ deaf_clients env (take 512 env.clients),
    )

-- A move that never got an answer counts as failed.
unfoldable pub expire_move : Chan → ℕ → Chan × List ChanEffect
expire_move s now =
    if s.in_flight && leb move_inflight_max_ms (tick_sub now s.in_flight_since)
    then move_attempt_failed s now
    else (s, [])

-- The hub and the ingame channel looked for again, when the list changed or one is missing.
unfoldable pub rescan : ChanEnv → Chan → Chan
rescan env s =
    let clean = record s { list_dirty = false } in
    if s.list_dirty
      || ((s.hub == 0 || s.ingame == 0) && leb find_retry_ms (tick_sub env.now s.last_find))
    then (find_hub_and_ingame env (record clean { last_find = env.now })).1
    else clean

-- A pass: whether the wakeup loop is kept alive, the state, the effects.
pub record Pass : Type 0 where
  pub wake : Bool
  pub state : Chan
  pub effects : List ChanEffect

-- A wanted move to a channel that has been found, or to none yet.
unfoldable pub wanted_move : ChanEnv → Chan → ℕ → Pass
wanted_move env s target =
    if target == 0
    then record { wake = false; state = s; effects = [] }
    else let r = request_move env s target in
      record { wake = r.retry_soon; state = r.state; effects = r.effects }

-- The automatic move out of the own channel, or the new name inside the ingame channel.
unfoldable pub auto_place : ChanEnv → Chan → Bool → Pass
auto_place env s speakers_off =
    if should_be_ingame env s && not speakers_off
    then (if not (is_ingame_channel env s env.own_channel)
        then wanted_move env s s.ingame
        else record { wake = false; state = s; effects = anonymize env.own_channel ∷ [] })
    else if not (is_hub_channel env s env.own_channel)
    then wanted_move env s s.hub
    else record { wake = false; state = s; effects = [] }

-- From the test of the automatic moves on.
unfoldable pub place : ChanEnv → Chan → Bool → Pass
place env s speakers_off =
    let (ignored, s') = is_ignored_channel env s env.own_channel in
    if not env.auto_move
    then record { wake = false; state = s; effects = [] }
    else if ignored
    then record { wake = false; state = s'; effects = [] }
    else auto_place env s' speakers_off

abbrev pub own_speakers_off : ChanEnv → Bool
own_speakers_off env =
    env.force_speakers_on
    && elim (env.speakers_muted env.local_id) [ none ↦ false | some muted ↦ muted ]

-- From the test of the own speakers on: with muted ones the own client leaves for the hub.
unfoldable pub mind_speakers : ChanEnv → Chan → Pass
mind_speakers env s =
    if not (own_speakers_off env)
    then place env (record s { hint_shown = false }) false
    else if is_ingame_channel env s env.own_channel
    then (let r = wanted_move env (record s { hint_shown = true }) s.hub in
        record r { effects = (if s.hint_shown then [] else speaker_hint ∷ []) ++ r.effects })
    else place env s true

-- The playback gate.
unfoldable pub gate : ChanEnv → Chan → Chan × List ChanEffect
gate env s =
    let (mode, s') = audio_mode env s env.own_channel in
    if env.distance_muting
    then (s', set_audio_mode mode ∷ [])
    else (s, set_audio_mode passthrough ∷ [])

-- `chan_tick_run`
unfoldable pub tick_run : ChanEnv → Chan → Pass
tick_run env s =
    let (s1, failed) = expire_move s env.now in
    let s2 = rescan env s1 in
    let (s3, gated) = gate env s2 in
    let (s4, deafened) = update_deaf_speakers env s3 in
    let r = mind_speakers env s4 in
    if env.local_id == 0 || env.own_channel == 0
    then record { wake = false; state = s2; effects = failed }
    else record r { effects = failed ++ (gated ++ (deafened ++ r.effects)) }

-- `chan_tick`
unfoldable pub tick : ChanEnv → Chan → Chan × List ChanEffect
tick env s =
    if not env.on_callback || not env.connected || ltb (tick_sub env.now s.last_tick) tick_min_ms
    then (s, [])
    else let r = tick_run env (record s { last_tick = env.now; position_pending = false }) in
      (record (r.state) { move_wanted = r.wake }, r.effects ++ (if r.wake then wakeup ∷ [] else []))

-- `chan_on_own_move`
unfoldable pub on_own_move : ChanEnv → Chan → ℕ → Chan × List ChanEffect
on_own_move env s channel =
    if not env.on_callback
    then (s, [])
    else let answered = record s {
      in_flight = false;
      in_flight_since = 0;
      move_target = 0;
      move_to_ingame = false;
      backoff = backoff_reset;
      move_wanted = false;
      last_tick = 0;
    } in
      let (mode, s') = audio_mode env answered channel in
      if is_ingame_channel env s' channel
      then (record s' { ingame_arrival = env.later }, set_audio_mode mode ∷ [])
      else (record s' { ingame_arrival = 0 }, set_audio_mode mode ∷ (restore ∷ []))

-- `chan_on_move_failed`
unfoldable pub on_move_failed : ChanEnv → Chan → Chan × List ChanEffect
on_move_failed env s =
    if not env.on_callback || not s.in_flight
    then (s, [])
    else let (failed, effects) = move_attempt_failed s env.now in
      (record failed { last_tick = 0 }, effects ++ (wakeup ∷ []))

-- `chan_on_channel_list_changed`
unfoldable pub on_channel_list_changed : ChanEnv → Chan → Chan × List ChanEffect
on_channel_list_changed env s =
    if not env.on_callback then (s, []) else (record s { list_dirty = true }, wakeup ∷ [])

-- `chan_signal_position_update`
unfoldable pub signal_position_update : Chan → Chan × List ChanEffect
signal_position_update s = (record s { position_pending = true }, wakeup ∷ [])

-- `chan_has_pending_work`
unfoldable pub has_pending_work : Chan → Bool
has_pending_work s = s.in_flight || s.position_pending || s.list_dirty || s.move_wanted

-- `chan_leave_ingame_on_plugin_disable`
unfoldable pub leave_ingame : ChanEnv → Chan → Chan × List ChanEffect
leave_ingame env s =
    let found = if s.hub == 0 || s.ingame == 0 then (find_hub_and_ingame env s).1 else s in
    if not env.on_callback || not env.connected
    then (s, [])
    else if found.hub == 0
        || env.local_id == 0
        || env.own_channel == 0
        || not (is_ingame_channel env found env.own_channel)
    then (found, [])
    else if env.takes_move
    then (
      record found {
        in_flight = true;
        in_flight_since = env.later;
        move_target = found.hub;
        move_to_ingame = false;
        last_move = env.later;
      },
      restore ∷ (request_client_move found.hub [] ∷ []),
    )
    else (record found { in_flight = false; last_move = 0 }, restore ∷ [])
