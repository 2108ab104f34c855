-- ===== src/Channel/Tick/Spacing.antt =====
-- The pace of the move requests over a run of calls (src/ts/channel/channel_manage.c).
use conan_exiles_teamspeak.Prelude.{
  ℕ, ◌^◌, ◌≤◌, ◌<◌, ◌≡◌, refl, ◌∙◌, ap, ap₂, Bool, true, false, not, ◌||◌, some, List, [], ◌∷◌,
  ◌++◌, ltb, ◌==◌, if◌then◌else◌, tick_sub, arith, inl, inr, ◌⊎◌, Spaced, Clocked, map, if_either,
}
use mathlib.Core.Path.{subst}
use conan_exiles_teamspeak.CText.{Bytes}
use conan_exiles_teamspeak.Channel.State.{
  Chan, ChanEnv, ChanEffect, wakeup, move_cooldown_ms, tick_min_ms,
}
use conan_exiles_teamspeak.Channel.Find.{is_ingame_channel}
use conan_exiles_teamspeak.Channel.Backoff.{backoff_reset}
use conan_exiles_teamspeak.Channel.Ignore.{is_ignored_channel}
use conan_exiles_teamspeak.Channel.Move.{move_attempt_failed, request_move}
use conan_exiles_teamspeak.Channel.Move.Passwords.{requests, requests-append}
use conan_exiles_teamspeak.Channel.Move.Sends.{request_move_lem, give_up_lem}
use conan_exiles_teamspeak.Channel.Tick.{
  Pass, expire_move, rescan, gate, update_deaf_speakers, mind_speakers, tick_run, tick, audio_mode,
  on_own_move, on_move_failed, on_channel_list_changed, signal_position_update,
}
use conan_exiles_teamspeak.Channel.Tick.Steps.{
  gate-Quiet, update_deaf_speakers-Quiet, expire_move-Quiet, give_up_keeps, rescan_keeps,
  is_ignored_channel_keeps,
}
use conan_exiles_teamspeak.Channel.Tick.Speakers.{mind_speakers_lem}

-- The calls that the other modules make of the channel manager on one connection. The move out
-- of the ingame channel when the plugin is switched off is none of them: it does not wait.
pub data ChanCall : Type 0 where
  ticked : ChanCall
  own_moved move_requested : ℕ → ChanCall
  move_refused list_changed position_signaled : ChanCall

-- What each of them runs.
unfoldable pub handle : ChanEnv → Chan → ChanCall → Chan × List ChanEffect
handle env s ticked = tick env s
handle env s (own_moved channel) = on_own_move env s channel
handle env s (move_requested target) = let r = request_move env s target in (r.state, r.effects)
handle env s move_refused = on_move_failed env s
handle env s list_changed = on_channel_list_changed env s
handle env s position_signaled = signal_position_update s

-- The times of the move requests of a run.
unfoldable pub move_times : Chan → List (ChanEnv × ChanCall) → List ℕ
unfolding handle
move_times s [] = []
move_times s ((env, call) ∷ calls) =
    let (s', effects) = handle env s call in
    map (λ _. env.later) (requests effects) ++ move_times s' calls

-- At most one request, not before the cooldown is over since `last`, and then stamped.
abbrev pub Paced : ChanEnv → ℕ → Chan × List ChanEffect → Type 0
Paced env last (s', effects) =
    ((p : ℕ × Bytes) × (requests effects ≡ p ∷ [])
      × (s'.last_move ≡ env.later)
      × (move_cooldown_ms ≤ tick_sub env.later last))
    ⊎ ((requests effects ≡ []) × ((s'.last_move ≡ last) ⊎ (s'.last_move ≡ env.later)))

prefixed :
    (env : ChanEnv) (last : ℕ) (s : Chan) (xs ys : List ChanEffect)
    → requests xs ≡ []
    → Paced env last (s, ys)
    → Paced env last (s, xs ++ ys)
prefixed env last s xs ys h (inl (p, e, t, c)) =
    inl (p, requests-append xs ys ∙ ap (λ zs. zs ++ requests ys) h ∙ e, t, c)
prefixed env last s xs ys h (inr (e, t)) =
    inr (requests-append xs ys ∙ ap (λ zs. zs ++ requests ys) h ∙ e, t)

suffixed :
    (env : ChanEnv) (last : ℕ) (s : Chan) (xs ys : List ChanEffect)
    → requests ys ≡ []
    → Paced env last (s, xs)
    → Paced env last (s, xs ++ ys)
suffixed env last s xs ys h (inl (p, e, t, c)) =
    inl (p, requests-append xs ys ∙ ap₂ (λ us vs. us ++ vs) e h, t, c)
suffixed env last s xs ys h (inr (e, t)) =
    inr (requests-append xs ys ∙ ap₂ (λ us vs. us ++ vs) e h, t)

mind_speakers-Paced :
    (env : ChanEnv) (s : Chan)
    → Paced env s.last_move ((mind_speakers env s).state, (mind_speakers env s).effects)
mind_speakers-Paced env s = elim (mind_speakers_lem env s) [
  | inl (target, why, asks) ↦ inl ((target, asks.password), asks.alone, asks.stamped, asks.cooled)
  | inr h ↦ inr (h.none_left, h.stamped)
]

tick_run-Paced :
    (env : ChanEnv) (s : Chan)
    → Paced env s.last_move ((tick_run env s).state, (tick_run env s).effects)
unfolding tick_run
tick_run-Paced env s =
    let (s1, failed) = expire_move s env.now in
    let s2 = rescan env s1 in
    let (s3, gated) = gate env s2 in
    let (s4, deafened) = update_deaf_speakers env s3 in
    let r = mind_speakers env s4 in
    let (no_failed, same1) = expire_move-Quiet s env.now in
    let same2 = rescan_keeps env s1 ∙ same1 in
    let (no_gated, same3) = gate-Quiet env s2 in
    let (no_deafened, same4) = update_deaf_speakers-Quiet env s3 in
    if_either (λ (p : Pass). Paced env s.last_move (p.state, p.effects))
      (env.local_id == 0 || env.own_channel == 0) (λ gone. inr (no_failed, inl same2))
      (λ there.
        prefixed env s.last_move r.state failed (gated ++ (deafened ++ r.effects)) no_failed (
          prefixed env s.last_move r.state gated (deafened ++ r.effects) no_gated (
            prefixed env s.last_move r.state deafened r.effects no_deafened (
              subst (λ last. Paced env last (r.state, r.effects)) (same4 ∙ same3 ∙ same2)
                (mind_speakers-Paced env s4)))))

wakes_nothing : (b : Bool) → requests (if b then wakeup ∷ [] else []) ≡ []
wakes_nothing false = refl
wakes_nothing true = refl

-- A tick sends at most one move request, at least two seconds after the last one it knows of.
pub tick-Paced : (env : ChanEnv) (s : Chan) → Paced env s.last_move (tick env s)
unfolding tick
tick-Paced env s =
    let started = record s { last_tick = env.now; position_pending = false } in
    let r = tick_run env started in
    if_either (Paced env s.last_move)
      (not env.on_callback || not env.connected || ltb (tick_sub env.now s.last_tick) tick_min_ms)
      (λ skipped. inr (refl, inl refl))
      (λ due.
        suffixed env s.last_move (record (r.state) { move_wanted = r.wake }) r.effects
          (if r.wake then wakeup ∷ [] else []) (wakes_nothing r.wake) (tick_run-Paced env started))

own_move-Paced :
    (env : ChanEnv) (s : Chan) (channel : ℕ) → Paced env s.last_move (on_own_move env s channel)
unfolding on_own_move audio_mode
own_move-Paced env s channel =
    let answered = record s {
      in_flight = false;
      in_flight_since = 0;
      move_target = 0;
      move_to_ingame = false;
      backoff = backoff_reset;
      move_wanted = false;
      last_tick = 0;
    } in
    let same = ap (λ (x : Chan). x.last_move) (is_ignored_channel_keeps env answered channel) in
    if_either (Paced env s.last_move) (not env.on_callback) (λ elsewhere. inr (refl, inl refl))
      (λ here.
        if_either (Paced env s.last_move)
          (is_ingame_channel env (is_ignored_channel env answered channel).1 channel)
          (λ arrived. inr (refl, inl same)) (λ left. inr (refl, inl same)))

move_failed-Paced : (env : ChanEnv) (s : Chan) → Paced env s.last_move (on_move_failed env s)
unfolding on_move_failed
move_failed-Paced env s =
    if_either (Paced env s.last_move) (not env.on_callback || not s.in_flight)
      (λ ignored. inr (refl, inl refl))
      (λ answered.
        suffixed env s.last_move (record ((move_attempt_failed s env.now).0) { last_tick = 0 })
          (move_attempt_failed s env.now).1 (wakeup ∷ []) refl
          (inr (give_up_lem s env.now, inl (give_up_keeps s env.now))))

handle-Paced :
    (env : ChanEnv) (s : Chan) (call : ChanCall) → Paced env s.last_move (handle env s call)
unfolding handle on_channel_list_changed signal_position_update
handle-Paced env s ticked = tick-Paced env s
handle-Paced env s (own_moved channel) = own_move-Paced env s channel
handle-Paced env s (move_requested target) = elim (request_move_lem env s target) [
  | inl (leaves, allowed) ↦
      inl ((target, leaves.password), leaves.alone, leaves.stamped, allowed.cooled)
  | inr stays ↦ inr (stays.none_left, stays.stamped)
]
handle-Paced env s move_refused = move_failed-Paced env s
handle-Paced env s list_changed =
    if_either (Paced env s.last_move) (not env.on_callback) (λ elsewhere. inr (refl, inl refl))
      (λ here. inr (refl, inl refl))
handle-Paced env s position_signaled = inr (refl, inl refl)

Spaced-earlier :
    (gap a b : ℕ) (ts : List ℕ) → a ≤ b → Spaced gap (some b) ts → Spaced gap (some a) ts
Spaced-earlier gap a b [] h k = tt
Spaced-earlier gap a b (t ∷ ts) h (k, later) = (omega arith, later)

abbrev pub calls_at : List (ChanEnv × ChanCall) → List ℕ
calls_at [] = []
calls_at ((env, call) ∷ calls) = env.later ∷ calls_at calls

one_call :
    (env : ChanEnv) (s s' : Chan) (effects : List ChanEffect) (rest : List ℕ)
    → s.last_move ≤ env.later
    → env.later < 2 ^ 64
    → Paced env s.last_move (s', effects)
    → Spaced move_cooldown_ms (some s'.last_move) rest
    → Spaced move_cooldown_ms (some s.last_move) (map (λ _. env.later) (requests effects) ++ rest)
one_call env s s' effects rest h bound (inl (p, e, t, c)) spaced =
    rw e (ground arith, subst (λ x. Spaced move_cooldown_ms (some x) rest) t spaced)
one_call env s s' effects rest h bound (inr (e, inl t)) spaced =
    rw e (subst (λ x. Spaced move_cooldown_ms (some x) rest) t spaced)
one_call env s s' effects rest h bound (inr (e, inr t)) spaced = rw e (
    Spaced-earlier move_cooldown_ms s.last_move env.later rest h
      (subst (λ x. Spaced move_cooldown_ms (some x) rest) t spaced))

Paced-bound :
    (env : ChanEnv) (last : ℕ) (r : Chan × List ChanEffect)
    → last ≤ env.later
    → Paced env last r
    → r.0.last_move ≤ env.later
Paced-bound env last r h (inl (p, e, t, c)) = omega arith
Paced-bound env last r h (inr (e, inl t)) = omega arith
Paced-bound env last r h (inr (e, inr t)) = omega arith

-- Over any run of ticks, requests and events, whatever the server answers and however channels and names
-- change, with a clock that does not run backwards: the move requests that leave are at least
-- two seconds apart from each other and from the last one before the run.
pub move_requests-Spaced :
    (calls : List (ChanEnv × ChanCall)) (s : Chan) (last : ℕ)
    → s.last_move ≤ last
    → Clocked last (calls_at calls)
    → Spaced move_cooldown_ms (some s.last_move) (move_times s calls)
unfolding move_times
move_requests-Spaced [] s last h c = tt
move_requests-Spaced ((env, call) ∷ calls) s last h (c, bound, later) =
    let r = handle env s call in
    let paced = handle-Paced env s call in
    one_call env s r.0 r.1 (move_times r.0 calls) (omega arith) bound paced (
      move_requests-Spaced calls r.0 env.later (Paced-bound env s.last_move r (omega arith) paced)
        later)
