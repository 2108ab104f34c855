-- ===== src/Channel/Tick/Steps.antt =====
-- What each part of a tick leaves alone (src/ts/channel/channel_manage.c).
use conan_exiles_teamspeak.Prelude.{
  ℕ, ◌-◌, ◌^◌, ◌≡◌, refl, ap, Bool, true, false, not, ◌&&◌, ◌||◌, List, [], ◌∷◌, ◌++◌, leb, ◌==◌,
  if◌then◌else◌, tick_sub, Bool-cases, inl, inr, length, Option-cases, take, if_either,
}
use conan_exiles_teamspeak.Channel.State.{
  Chan, ChanEnv, ChanEffect, clear_deaf, move_inflight_max_ms, find_retry_ms, max_channels,
}
use conan_exiles_teamspeak.Channel.Find.{
  is_ingame_channel, is_hub_channel, is_root_channel, find_hub_and_ingame,
}
use conan_exiles_teamspeak.Channel.Ignore.{
  CacheSearch, hit, slot, search_cache, refresh, is_ignored_channel,
}
use conan_exiles_teamspeak.Channel.Move.{move_attempt_failed}
use conan_exiles_teamspeak.Channel.Move.Passwords.{requests}
use conan_exiles_teamspeak.Channel.Move.Sends.{give_up_lem}
use conan_exiles_teamspeak.Channel.Tick.{
  audio_mode, deaf_clients, update_deaf_speakers, expire_move, rescan, gate,
}

refresh_keeps :
    (env : ChanEnv) (s : Chan) (channel : ℕ) (found : CacheSearch)
    → let s' = (refresh env s channel found).1 in s' ≡ record s { ignore_cache = s'.ignore_cache }
unfolding refresh
refresh_keeps env s channel (hit b) = refl
refresh_keeps env s channel (slot i) = refl

-- The question whether a channel is ignored changes the cache only.
pub is_ignored_channel_keeps :
    (env : ChanEnv) (s : Chan) (channel : ℕ)
    → let s' = (is_ignored_channel env s channel).1 in
      s' ≡ record s { ignore_cache = s'.ignore_cache }
unfolding is_ignored_channel
is_ignored_channel_keeps env s channel =
    let known =
      channel == 0
      || is_hub_channel env s channel
      || is_ingame_channel env s channel
      || is_root_channel env channel in
    elim (Bool-cases known) [
      | inl e ↦ rw e refl
      | inr e ↦ rw e (
          refresh_keeps env s channel
            (search_cache channel env.later 0 0 (2 ^ 64 - 1) s.ignore_cache))
    ]

-- A part of a tick that neither asks for a move nor touches the stamp of the last one.
abbrev pub Quiet : Chan → Chan × List ChanEffect → Type 0
Quiet s (s', effects) = (requests effects ≡ []) × (s'.last_move ≡ s.last_move)

pub gate-Quiet : (env : ChanEnv) (s : Chan) → Quiet s (gate env s)
unfolding gate audio_mode
gate-Quiet env s =
    if_either (Quiet s) env.distance_muting
      (λ on.
        (refl, ap (λ (x : Chan). x.last_move) (is_ignored_channel_keeps env s env.own_channel)))
      (λ off. (refl, refl))

deaf_clients-none : (env : ChanEnv) (cs : List ℕ) → requests (deaf_clients env cs) ≡ []
unfolding deaf_clients
deaf_clients-none env [] = refl
deaf_clients-none env (c ∷ cs) = elim (Bool-cases (c == env.local_id)) [
  | inl e ↦ rw e (deaf_clients-none env cs)
  | inr e ↦ elim (Option-cases (env.speakers_muted c)) [
    | inl unknown ↦ rw (e, unknown) (deaf_clients-none env cs)
    | inr (muted, known) ↦ rw (e, known) (deaf_clients-none env cs)
  ]
]

pub update_deaf_speakers-Quiet : (env : ChanEnv) (s : Chan) → Quiet s (update_deaf_speakers env s)
unfolding update_deaf_speakers
update_deaf_speakers-Quiet env s =
    elim (Bool-cases (not env.force_speakers_on || not (is_ingame_channel env s env.own_channel))) [
      | inl off ↦ rw off (go_off s.deaf_poll)
      | inr on ↦ rw on (go_on s.deaf_poll, refl)
    ]
  where
    go_off :
        (b : Bool)
        → Quiet s (if b then (record s { deaf_poll = false }, clear_deaf ∷ []) else (s, []))
    go_off false = (refl, refl)
    go_off true = (refl, refl)

    go_on :
        (b : Bool)
        → requests ((if b then [] else clear_deaf ∷ []) ++ deaf_clients env (take 512 env.clients))
          ≡ []
    go_on false = deaf_clients-none env (take 512 env.clients)
    go_on true = deaf_clients-none env (take 512 env.clients)

pub give_up_keeps : (s : Chan) (now : ℕ) → (move_attempt_failed s now).0.last_move ≡ s.last_move
unfolding move_attempt_failed
give_up_keeps s now = refl

pub expire_move-Quiet : (s : Chan) (now : ℕ) → Quiet s (expire_move s now)
unfolding expire_move
expire_move-Quiet s now =
    elim (Bool-cases (s.in_flight && leb move_inflight_max_ms (tick_sub now s.in_flight_since))) [
      | inl e ↦ rw e (give_up_lem s now, give_up_keeps s now)
      | inr e ↦ rw e (refl, refl)
    ]

find_keeps : (env : ChanEnv) (s : Chan) → (find_hub_and_ingame env s).1.last_move ≡ s.last_move
unfolding find_hub_and_ingame
find_keeps env s = elim (Bool-cases (not env.on_callback || not env.connected)) [
  | inl e ↦ rw e refl
  | inr e ↦ elim (Bool-cases (length (take max_channels env.channels) == 0)) [
    | inl nothing ↦ rw (e, nothing) refl
    | inr listed ↦ rw (e, listed) refl
  ]
]

pub rescan_keeps : (env : ChanEnv) (s : Chan) → (rescan env s).last_move ≡ s.last_move
unfolding rescan
rescan_keeps env s =
    let wanted =
      s.list_dirty
      || ((s.hub == 0 || s.ingame == 0) && leb find_retry_ms (tick_sub env.now s.last_find)) in
    elim (Bool-cases wanted) [
      | inl e ↦ rw e (find_keeps env (record s { list_dirty = false; last_find = env.now }))
      | inr e ↦ rw e refl
    ]
