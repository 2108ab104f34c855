-- ===== src/Channel/Tick/Speakers.antt =====
-- The pass over the own speakers and the automatic moves (src/ts/channel/channel_manage.c).
use conan_exiles_teamspeak.Prelude.{
  ℕ, ◌≡◌, refl, ◌∙◌, sym, Bool, true, false, not, [], ◌∷◌, ◌++◌, if◌then◌else◌, arith, inl, inr,
  if_either,
}
use mathlib.Core.Path.{subst}
use conan_exiles_teamspeak.Channel.State.{Chan, ChanEnv, speaker_hint}
use conan_exiles_teamspeak.Channel.Find.{is_ingame_channel}
use conan_exiles_teamspeak.Channel.Ignore.{is_ignored_channel}
use conan_exiles_teamspeak.Channel.Move.Passwords.{requests}
use conan_exiles_teamspeak.Channel.Tick.{Pass, wanted_move, place, own_speakers_off, mind_speakers}
use conan_exiles_teamspeak.Channel.Tick.Reasons.{
  Asks, Rests, Automatic, Reasoned, Placed, place_lem, wanted_move_lem, remembering-Asks,
}

-- Why a pass asks for a move to `target`: the own speakers are off inside the ingame channel,
-- which the client leaves for the hub; or the automatic moves are on, the own channel is not one
-- they leave alone, and they want the target.
pub data Why (env : ChanEnv) (s : Chan) (target : ℕ) : Type 0 where
  muted_inside :
      own_speakers_off env ≡ true
      → is_ingame_channel env s env.own_channel ≡ true
      → target ≡ s.hub
      → Why env s target
  automatic :
      env.auto_move ≡ true
      → (is_ignored_channel env s env.own_channel).0 ≡ false
      → Automatic env s (own_speakers_off env) target
      → Why env s target

Placed-Why :
    (env : ChanEnv) (s : Chan) (off : Bool) (p : Pass)
    → own_speakers_off env ≡ off
    → Reasoned (Placed off) env s p
    → Reasoned Why env s p
Placed-Why env s off p e (inl (target, (on, heeded, why), asks)) =
    inl (target, automatic on heeded (subst (λ b. Automatic env s b target) (sym e) why), asks)
Placed-Why env s off p e (inr h) = inr h

hinted-Asks :
    (env : ChanEnv) (s : Chan) (p : Pass) (shown : Bool) (target : ℕ)
    → Asks env s p target
    → Asks env s
        (record p { effects = (if shown then [] else speaker_hint ∷ []) ++ p.effects })
        target
hinted-Asks env s p shown target h = record {
  password = h.password;
  alone = skip shown ∙ h.alone;
  suits = h.suits;
  somewhere = h.somewhere;
  cooled = h.cooled;
  stamped = h.stamped;
}
  where
    skip :
        (b : Bool)
        → requests ((if b then [] else speaker_hint ∷ []) ++ p.effects) ≡ requests p.effects
    skip false = refl
    skip true = refl

hinted-Rests :
    (env : ChanEnv) (s : Chan) (p : Pass) (shown : Bool)
    → Rests env s p
    → Rests env s (record p { effects = (if shown then [] else speaker_hint ∷ []) ++ p.effects })
hinted-Rests env s p false h = record { none_left = h.none_left; stamped = h.stamped }
hinted-Rests env s p true h = record { none_left = h.none_left; stamped = h.stamped }

-- The pass of a tick over the own speakers and the automatic moves asks for at most one move.
-- If it asks, then for one of two reasons: the own speakers are off inside the ingame channel
-- and the move is to the hub; or automatic moves are on, the own channel is not an ignored one,
-- and the target is the ingame channel for a player in the game with speakers on who is not
-- there, and the hub for any other who is not in the hub. The move has a password that fits, and
-- comes at least two seconds after the last one.
pub mind_speakers_lem : (env : ChanEnv) (s : Chan) → Reasoned Why env s (mind_speakers env s)
unfolding mind_speakers
mind_speakers_lem env s =
    let Goal = Reasoned Why env s in
    if_either Goal (not (own_speakers_off env))
      (λ speakers_on.
        Placed-Why env s false (place env (record s { hint_shown = false }) false)
          (not_true speakers_on) (place_lem env s false false))
      (λ speakers_off.
        if_either Goal (is_ingame_channel env s env.own_channel)
          (λ inside.
            let hinted = record s { hint_shown = true } in
            let p = wanted_move env hinted s.hub in
            elim (wanted_move_lem env hinted s.hub) [
              | inl asks ↦ inl (
                s.hub,
                muted_inside (not_false speakers_off) inside refl,
                hinted-Asks env s p s.hint_shown s.hub
                    (remembering-Asks env s s.ignore_cache true p s.hub asks),
              )
              | inr h ↦ inr (
                  hinted-Rests env s p s.hint_shown
                    (record { none_left = h.none_left; stamped = h.stamped }))
            ])
          (λ outside.
            Placed-Why env s true (place env s true) (not_false speakers_off)
              (place_lem env s s.hint_shown true)))
  where
    not_true : {b : Bool} → not b ≡ true → b ≡ false
    not_true h = ground arith

    not_false : {b : Bool} → not b ≡ false → b ≡ true
    not_false h = ground arith
