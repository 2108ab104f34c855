-- ===== src/Channel/Tick/Reasons.antt =====
-- Why a tick asks for a move (src/ts/channel/channel_manage.c).
use conan_exiles_teamspeak.Prelude.{
  ℕ, ◌-◌, ◌^◌, ◌≤◌, ◌≡◌, ◌≢◌, refl, ◌∙◌, ap, sym, Bool, true, false, not, ◌&&◌, ◌||◌, List, [], ◌∷◌,
  ◌==◌, if◌then◌else◌, tick_sub, arith, inl, inr, ◌⊎◌, if_either,
}
use mathlib.Core.Path.{subst}
use conan_exiles_teamspeak.CText.{Bytes}
use conan_exiles_teamspeak.Channel.State.{Chan, IgnoreEntry, ChanEnv, move_cooldown_ms}
use conan_exiles_teamspeak.Channel.Find.{
  is_ingame_channel, is_hub_channel, is_root_channel, should_be_ingame,
}
use conan_exiles_teamspeak.Channel.Ignore.{
  CacheSearch, hit, slot, search_cache, refresh, is_ignored_channel,
}
use conan_exiles_teamspeak.Channel.Move.Passwords.{requests, Suits}
use conan_exiles_teamspeak.Channel.Move.Sends.{request_move_lem}
use conan_exiles_teamspeak.Channel.Tick.{Pass, wanted_move, auto_place, place}
use conan_exiles_teamspeak.Channel.Tick.Steps.{is_ignored_channel_keeps}

-- A pass that asks for a move to `target`, with a fitting password and after the cooldown.
pub record Asks (env : ChanEnv) (s : Chan) (p : Pass) (target : ℕ) : Type 0 where
  pub password : Bytes
  pub alone : requests p.effects ≡ (target, password) ∷ []
  pub suits : Suits env (is_ingame_channel env s target) target password
  pub somewhere : target ≢ 0
  pub cooled : move_cooldown_ms ≤ tick_sub env.later s.last_move
  pub stamped : p.state.last_move ≡ env.later

-- A pass that asks for none.
pub record Rests (env : ChanEnv) (s : Chan) (p : Pass) : Type 0 where
  pub none_left : requests p.effects ≡ []
  pub stamped : (p.state.last_move ≡ s.last_move) ⊎ (p.state.last_move ≡ env.later)

rests : (env : ChanEnv) (s : Chan) → Rests env s record { wake = false; state = s; effects = [] }
rests env s = record { none_left = refl; stamped = inl refl }

pub wanted_move_lem :
    (env : ChanEnv) (s : Chan) (target : ℕ)
    → Asks env s (wanted_move env s target) target ⊎ Rests env s (wanted_move env s target)
unfolding wanted_move
wanted_move_lem env s target =
    if_either (λ p. Asks env s p target ⊎ Rests env s p) (target == 0)
      (λ none_found. inr (rests env s))
      (λ found. elim (request_move_lem env s target) [
        | inl (leaves, allowed) ↦ inl (record {
          password = leaves.password;
          alone = leaves.alone;
          suits = leaves.suits;
          somewhere = allowed.somewhere;
          cooled = allowed.cooled;
          stamped = leaves.stamped;
        })
        | inr stays ↦ inr (record { none_left = stays.none_left; stamped = stays.stamped })
      ])

-- The automatic moves want a target: the ingame channel for a player with a position, or just
-- arrived, and with speakers on; else the hub.
pub data Automatic (env : ChanEnv) (s : Chan) (speakers_off : Bool) (target : ℕ) : Type 0 where
  into_game :
      should_be_ingame env s ≡ true
      → speakers_off ≡ false
      → is_ingame_channel env s env.own_channel ≡ false
      → target ≡ s.ingame
      → Automatic env s speakers_off target
  to_hub :
      (should_be_ingame env s && not speakers_off) ≡ false
      → is_hub_channel env s env.own_channel ≡ false
      → target ≡ s.hub
      → Automatic env s speakers_off target

-- A pass asks for a move that its reason wants, or for none.
abbrev pub Reasoned : (ChanEnv → Chan → ℕ → Type 0) → ChanEnv → Chan → Pass → Type 0
Reasoned Why env s p = ((target : ℕ) × Why env s target × Asks env s p target) ⊎ Rests env s p

auto_place_lem :
    (env : ChanEnv) (s : Chan) (off : Bool)
    → Reasoned (λ e c t. Automatic e c off t) env s (auto_place env s off)
unfolding auto_place
auto_place_lem env s off =
    let Goal = Reasoned (λ e c t. Automatic e c off t) env s in
    if_either Goal (should_be_ingame env s && not off)
      (λ wanted.
        if_either Goal (not (is_ingame_channel env s env.own_channel))
          (λ outside. elim (wanted_move_lem env s s.ingame) [
            | inl asks ↦
                inl (s.ingame, into_game (ground arith) (ground arith) (ground arith) refl, asks)
            | inr stays ↦ inr stays
          ])
          (λ inside. inr (record { none_left = refl; stamped = inl refl })))
      (λ unwanted.
        if_either Goal (not (is_hub_channel env s env.own_channel))
          (λ outside. elim (wanted_move_lem env s s.hub) [
            | inl asks ↦ inl (s.hub, to_hub unwanted (ground arith) refl, asks)
            | inr stays ↦ inr stays
          ])
          (λ inside. inr (rests env s)))

-- The state with another cache and another memory of the hint.
abbrev remembering : Chan → List IgnoreEntry → Bool → Chan
remembering s cache shown = record s { ignore_cache = cache; hint_shown = shown }

-- Neither plays a part in the reasons.
pub remembering-Asks :
    (env : ChanEnv) (s : Chan) (cache : List IgnoreEntry) (shown : Bool) (p : Pass) (target : ℕ)
    → Asks env (remembering s cache shown) p target
    → Asks env s p target
unfolding is_ingame_channel
remembering-Asks env s cache shown p target h = record {
  password = h.password;
  alone = h.alone;
  suits = record { secret = h.suits.secret; demanded = h.suits.demanded };
  somewhere = h.somewhere;
  cooled = h.cooled;
  stamped = h.stamped;
}

remembering-Automatic :
    (env : ChanEnv) (s : Chan) (cache : List IgnoreEntry) (shown off : Bool) (target : ℕ)
    → Automatic env (remembering s cache shown) off target
    → Automatic env s off target
unfolding is_ingame_channel is_hub_channel should_be_ingame
remembering-Automatic env s cache shown off target (into_game a b c d) = into_game a b c d
remembering-Automatic env s cache shown off target (to_hub a b c) = to_hub a b c

remembered_place_lem :
    (env : ChanEnv) (s : Chan) (cache : List IgnoreEntry) (shown off : Bool)
    → Reasoned (λ e c t. Automatic e c off t) env s (auto_place env (remembering s cache shown) off)
remembered_place_lem env s cache shown off =
    let p = auto_place env (remembering s cache shown) off in
    elim (auto_place_lem env (remembering s cache shown) off) [
      | inl (target, why, asks) ↦ inl (
        target,
        remembering-Automatic env s cache shown off target why,
        remembering-Asks env s cache shown p target asks,
      )
      | inr h ↦ inr (record { none_left = h.none_left; stamped = h.stamped })
    ]

-- What the name of the own channel says does not depend on the memory of the hint.
refresh_hint :
    (env : ChanEnv) (s : Chan) (channel : ℕ) (shown : Bool) (found : CacheSearch)
    → (refresh env (record s { hint_shown = shown }) channel found).0
      ≡ (refresh env s channel found).0
unfolding refresh
refresh_hint env s channel shown (hit b) = refl
refresh_hint env s channel shown (slot i) = refl

is_ignored_channel_hint :
    (env : ChanEnv) (s : Chan) (channel : ℕ) (shown : Bool)
    → (is_ignored_channel env (record s { hint_shown = shown }) channel).0
      ≡ (is_ignored_channel env s channel).0
unfolding is_ignored_channel is_hub_channel is_ingame_channel
is_ignored_channel_hint env s channel shown =
    let known =
      channel == 0
      || is_hub_channel env s channel
      || is_ingame_channel env s channel
      || is_root_channel env channel in
    let found = search_cache channel env.later 0 0 (2 ^ 64 - 1) s.ignore_cache in go known found
  where
    go :
        (known : Bool) (found : CacheSearch)
        → (if known
            then (false, record s { hint_shown = shown })
            else refresh env (record s { hint_shown = shown }) channel found).0
          ≡ (if known then (false, s) else refresh env s channel found).0
    go true found = refl
    go false found = refresh_hint env s channel shown found

-- With automatic moves on, and out of a channel that is not ignored.
abbrev pub Placed : Bool → ChanEnv → Chan → ℕ → Type 0
Placed off env s target =
    (env.auto_move ≡ true)
    × ((is_ignored_channel env s env.own_channel).0 ≡ false)
    × Automatic env s off target

pub place_lem :
    (env : ChanEnv) (s : Chan) (shown off : Bool)
    → Reasoned (Placed off) env s (place env (record s { hint_shown = shown }) off)
unfolding place
place_lem env s shown off =
    let Goal = Reasoned (Placed off) env s in
    let hinted = record s { hint_shown = shown } in
    let asked = is_ignored_channel env hinted env.own_channel in
    let same = is_ignored_channel_keeps env hinted env.own_channel in
    let cache = asked.1.ignore_cache in
    if_either Goal (not env.auto_move)
      (λ off_now. inr (record { none_left = refl; stamped = inl refl }))
      (λ on.
        if_either Goal asked.0
          (λ ignored.
            inr (record { none_left = refl; stamped = inl (ap (λ (x : Chan). x.last_move) same) }))
          (λ heeded.
            subst (λ c. Goal (auto_place env c off)) (sym same)
              (elim (remembered_place_lem env s cache shown off) [
                | inl (target, why, asks) ↦ inl (
                  target,
                  (
                    ground arith,
                    sym (is_ignored_channel_hint env s env.own_channel shown) ∙ heeded,
                    why,
                  ),
                  asks,
                )
                | inr h ↦ inr h
              ])))
