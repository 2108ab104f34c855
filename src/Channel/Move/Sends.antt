-- ===== src/Channel/Move/Sends.antt =====
-- When a move request leaves, and with which password (src/ts/channel/channel_manage.c).
use conan_exiles_teamspeak.Prelude.{
  ℕ, ◌≤◌, ◌≡◌, ◌≢◌, refl, ◌∙◌, ap, Bool, true, false, not, ◌&&◌, ◌||◌, [], ◌∷◌, ◌++◌, ltb, ◌==◌,
  if◌then◌else◌, tick_sub, arith, Bool-cases, inl, inr, ◌⊎◌, Option-cases,
}
use conan_exiles_teamspeak.CText.{Bytes}
use conan_exiles_teamspeak.Channel.Backoff.{on_failure, blocks, keeps_loop}
use conan_exiles_teamspeak.Channel.State.{Chan, ChanEnv, move_inflight_max_ms, move_cooldown_ms}
use conan_exiles_teamspeak.Channel.Find.{is_ingame_channel}
use conan_exiles_teamspeak.Channel.Move.{
  MoveResult, no_move, move_attempt_failed, password_for, attempt_move, prepare_move, timed_move,
  request_move,
}
use conan_exiles_teamspeak.Channel.Move.Passwords.{
  requests, requests-append, Suits, password_for-Suits,
}

-- A request has left: it is the only one, carries a fitting password, and is in flight now.
pub record Leaves (env : ChanEnv) (s : Chan) (target : ℕ) (r : MoveResult) : Type 0 where
  pub password : Bytes
  pub sent : r.sent ≡ true
  pub alone : requests r.effects ≡ (target, password) ∷ []
  pub suits : Suits env (is_ingame_channel env s target) target password
  pub profile : is_ingame_channel env s target ≡ true → env.profile_active ≡ true
  pub own_id : env.local_id ≢ 0
  pub flying : (r.state.in_flight ≡ true) × (r.state.in_flight_since ≡ env.later)
  pub stamped : r.state.last_move ≡ env.later

-- None has left, and the stamp of the last attempt is the old one or the time of this one.
pub record Stays (env : ChanEnv) (s : Chan) (r : MoveResult) : Type 0 where
  pub sent : r.sent ≡ false
  pub none_left : requests r.effects ≡ []
  pub stamped : (r.state.last_move ≡ s.last_move) ⊎ (r.state.last_move ≡ env.later)

attempt_move_lem :
    (env : ChanEnv) (s : Chan) (target : ℕ) (password : Bytes)
    → Suits env (is_ingame_channel env s target) target password
    → (is_ingame_channel env s target ≡ true → env.profile_active ≡ true)
    → env.local_id ≢ 0
    → Leaves env s target (attempt_move env s target (is_ingame_channel env s target) password)
      ⊎ Stays env s (attempt_move env s target (is_ingame_channel env s target) password)
unfolding attempt_move
attempt_move_lem env s target password suits profile own_id = elim (Bool-cases env.takes_move) [
  | inl yes_sent ↦ inl (record {
    password = password;
    sent = ground arith;
    alone = ground arith;
    suits = suits;
    profile = profile;
    own_id = own_id;
    flying = ground arith;
    stamped = ground arith;
  })
  | inr refused ↦
      inr (record { sent = ground arith; none_left = ground arith; stamped = inr (ground arith) })
]

no_move-Stays : (env : ChanEnv) (s : Chan) (retry_soon : Bool) → Stays env s (no_move s retry_soon)
no_move-Stays env s retry_soon = record { sent = refl; none_left = refl; stamped = inl refl }

prepare_move_lem :
    (env : ChanEnv) (s : Chan) (target : ℕ)
    → Leaves env s target (prepare_move env s target) ⊎ Stays env s (prepare_move env s target)
unfolding prepare_move
prepare_move_lem env s target =
    let to_ingame = is_ingame_channel env s target in
    elim (Bool-cases (env.local_id == 0 || (to_ingame && not env.profile_active))) [
      | inl off ↦ rw off (inr (no_move-Stays env s false))
      | inr on ↦ elim (Option-cases (password_for env to_ingame target)) [
        | inl e ↦ rw (on, e) (inr (no_move-Stays env s false))
        | inr (password, e) ↦
            rw (on, e)
              (attempt_move_lem env s target password
                (password_for-Suits env to_ingame target password e) (λ ingame. ground arith)
                (ground arith))
      ]
    ]

-- What the request waits for: the cooldown and the backoff.
abbrev pub Waited : ChanEnv → Chan → ℕ → Type 0
Waited env s target =
    (move_cooldown_ms ≤ tick_sub env.later s.last_move)
    × (blocks s.backoff target env.later ≡ false)

timed_move_lem :
    (env : ChanEnv) (s : Chan) (target : ℕ)
    → (Leaves env s target (timed_move env s target) × Waited env s target)
      ⊎ Stays env s (timed_move env s target)
unfolding timed_move
timed_move_lem env s target =
    elim (Bool-cases (ltb (tick_sub env.later s.last_move) move_cooldown_ms)) [
      | inl early ↦ rw early (inr (no_move-Stays env s true))
      | inr cool ↦ elim (Bool-cases (blocks s.backoff target env.later)) [
        | inl blocked ↦ rw (cool, blocked) (inr (no_move-Stays env s (keeps_loop s.backoff)))
        | inr unblocked ↦
            rw (cool, unblocked)
              (elim (prepare_move_lem env s target) [
                | inl leaves ↦ inl (leaves, (ground arith, refl))
                | inr stays ↦ inr stays
              ])
      ]
    ]

-- What a request in flight leaves behind when it is given up: the effects hold no request.
pub give_up_lem : (s : Chan) (now : ℕ) → requests (move_attempt_failed s now).1 ≡ []
unfolding move_attempt_failed
give_up_lem s now = elim (Bool-cases s.move_to_ingame) [ inl e ↦ rw e refl | inr e ↦ rw e refl ]

given_up-Leaves :
    (env : ChanEnv) (s : Chan) (target : ℕ) (r : MoveResult)
    → Leaves env (move_attempt_failed s env.later).0 target r
    → Leaves env s target (record r { effects = (move_attempt_failed s env.later).1 ++ r.effects })
unfolding move_attempt_failed is_ingame_channel
given_up-Leaves env s target r h = record {
  password = h.password;
  sent = h.sent;
  alone =
      requests-append (move_attempt_failed s env.later).1 r.effects
      ∙ ap (λ xs. xs ++ requests r.effects) (give_up_lem s env.later)
      ∙ h.alone;
  suits = h.suits;
  profile = h.profile;
  own_id = h.own_id;
  flying = h.flying;
  stamped = h.stamped;
}

given_up-Stays :
    (env : ChanEnv) (s : Chan) (r : MoveResult)
    → Stays env (move_attempt_failed s env.later).0 r
    → Stays env s (record r { effects = (move_attempt_failed s env.later).1 ++ r.effects })
unfolding move_attempt_failed
given_up-Stays env s r h = record {
  sent = h.sent;
  none_left =
      requests-append (move_attempt_failed s env.later).1 r.effects
      ∙ ap (λ xs. xs ++ requests r.effects) (give_up_lem s env.later)
      ∙ h.none_left;
  stamped = h.stamped;
}

-- When a request may leave: on the callback thread of a live connection, with a channel to go
-- to, with none in flight but a stale one, and after the cooldown; the backoff has its say.
pub record Allowed (env : ChanEnv) (s : Chan) (target : ℕ) : Type 0 where
  pub on_callback : env.on_callback ≡ true
  pub connected : env.connected ≡ true
  pub somewhere : target ≢ 0
  pub free :
      ((s.in_flight ≡ false) × (blocks s.backoff target env.later ≡ false))
      ⊎ ((s.in_flight ≡ true)
          × (move_inflight_max_ms ≤ tick_sub env.later s.in_flight_since)
          × (blocks (on_failure s.backoff s.move_target env.later).0 target env.later ≡ false))
  pub cooled : move_cooldown_ms ≤ tick_sub env.later s.last_move

stale_move_lem :
    (env : ChanEnv) (s : Chan) (target : ℕ)
    → let failed = move_attempt_failed s env.later in
      let r = timed_move env failed.0 target in
      (Leaves env s target (record r { effects = failed.1 ++ r.effects })
        × (move_cooldown_ms ≤ tick_sub env.later s.last_move)
        × (blocks (on_failure s.backoff s.move_target env.later).0 target env.later ≡ false))
      ⊎ Stays env s (record r { effects = failed.1 ++ r.effects })
unfolding move_attempt_failed
stale_move_lem env s target =
    let failed = move_attempt_failed s env.later in
    elim (timed_move_lem env failed.0 target) [
      | inl (leaves, waited) ↦
          inl (
            given_up-Leaves env s target (timed_move env failed.0 target) leaves,
            waited.0,
            waited.1,
          )
      | inr stays ↦ inr (given_up-Stays env s (timed_move env failed.0 target) stays)
    ]

-- Past the tests of the thread, the connection and the target, by whether a move is in flight.
free_move_lem :
    (env : ChanEnv) (s : Chan) (target : ℕ) (flying : Bool)
    → s.in_flight ≡ flying
    → env.on_callback ≡ true
    → env.connected ≡ true
    → target ≢ 0
    → let failed = move_attempt_failed s env.later in
      let again = timed_move env failed.0 target in
      let r =
        if not flying
        then timed_move env s target
        else if ltb (tick_sub env.later s.in_flight_since) move_inflight_max_ms
        then no_move s true
        else record again { effects = failed.1 ++ again.effects } in
      (Leaves env s target r × Allowed env s target) ⊎ Stays env s r
free_move_lem env s target false idle callback connected somewhere =
    elim (timed_move_lem env s target) [
      | inl (leaves, (cool, unblocked)) ↦ inl (
        leaves,
        record {
          on_callback = callback;
          connected = connected;
          somewhere = somewhere;
          free = inl (idle, unblocked);
          cooled = cool;
        },
      )
      | inr stays ↦ inr stays
    ]
free_move_lem env s target true flying callback connected somewhere =
    elim (Bool-cases (ltb (tick_sub env.later s.in_flight_since) move_inflight_max_ms)) [
      | inl fresh ↦ rw fresh (inr (no_move-Stays env s true))
      | inr stale ↦ rw stale (elim (stale_move_lem env s target) [
        | inl (leaves, cool, unblocked) ↦ inl (
          leaves,
          record {
            on_callback = callback;
            connected = connected;
            somewhere = somewhere;
            free = inr (flying, ground arith, unblocked);
            cooled = cool;
          },
        )
        | inr stays ↦ inr stays
      ])
    ]

-- A call of `chan_request_move_impl` has one of two outcomes. Either exactly one move request
-- leaves, with a password that fits the channel: then the call was made on the callback thread
-- of a live connection, for a channel, with none in flight but one older than five seconds, at
-- least two seconds after the last one and not blocked by the backoff, and to the ingame channel
-- only with an active profile; the move is now in flight and stamped. Or no request leaves.
pub request_move_lem :
    (env : ChanEnv) (s : Chan) (target : ℕ)
    → (Leaves env s target (request_move env s target) × Allowed env s target)
      ⊎ Stays env s (request_move env s target)
unfolding request_move
request_move_lem env s target =
    elim (Bool-cases (not env.on_callback || not env.connected || target == 0)) [
      | inl off ↦ rw off (inr (no_move-Stays env s false))
      | inr on ↦
          rw on (
            free_move_lem env s target s.in_flight refl (ground arith) (ground arith)
              (ground arith))
    ]
