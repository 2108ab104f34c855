-- ===== src/Channel/Move/Passwords.antt =====
-- Which password goes with a move request (src/ts/channel/channel_manage.c).
use conan_exiles_teamspeak.Prelude.{
  ℕ, ◌≡◌, ◌≢◌, refl, ap, Bool, true, false, Option, none, some, List, [], ◌∷◌, ◌++◌, inl, inr, ◌⊎◌,
}
use mathlib.Core.Path.{subst}
use conan_exiles_teamspeak.CText.{Bytes}
use conan_exiles_teamspeak.Channel.State.{
  ChanEnv, ChanEffect, request_client_move, anonymize, restore, set_audio_mode, clear_deaf,
  set_deaf, wakeup, speaker_hint,
}
use conan_exiles_teamspeak.Channel.Move.{choose_password, password_for}

-- The move requests among the effects, each with its password.
abbrev pub requests : List ChanEffect → List (ℕ × Bytes)
requests [] = []
requests (request_client_move target password ∷ more) = (target, password) ∷ requests more
requests (anonymize c ∷ more) = requests more
requests (restore ∷ more) = requests more
requests (set_audio_mode m ∷ more) = requests more
requests (clear_deaf ∷ more) = requests more
requests (set_deaf c m ∷ more) = requests more
requests (wakeup ∷ more) = requests more
requests (speaker_hint ∷ more) = requests more

pub requests-append : (xs ys : List ChanEffect) → requests (xs ++ ys) ≡ requests xs ++ requests ys
requests-append [] ys = refl
requests-append (request_client_move t p ∷ more) ys = ap (◌∷◌ (t, p)) (requests-append more ys)
requests-append (anonymize c ∷ more) ys = requests-append more ys
requests-append (restore ∷ more) ys = requests-append more ys
requests-append (set_audio_mode m ∷ more) ys = requests-append more ys
requests-append (clear_deaf ∷ more) ys = requests-append more ys
requests-append (set_deaf c m ∷ more) ys = requests-append more ys
requests-append (wakeup ∷ more) ys = requests-append more ys
requests-append (speaker_hint ∷ more) ys = requests-append more ys

-- The password fits the channel: a secret goes to the ingame channel only, and not to one that
-- is known to be open; a protected one gets the secret.
pub record Suits (env : ChanEnv) (to_ingame : Bool) (target : ℕ) (password : Bytes) : Type 0 where
  pub secret :
      (password ≡ [])
      ⊎ ((to_ingame ≡ true)
          × (env.has_password target ≢ some false)
          × (env.ingame_password ≡ some password))
  pub demanded :
      to_ingame ≡ true → env.has_password target ≡ some true → env.ingame_password ≡ some password

choose_password_secret :
    (state : Option Bool) (known : Option Bytes) (password : Bytes)
    → choose_password state known ≡ some password
    → (password ≡ []) ⊎ ((state ≢ some false) × (known ≡ some password))
choose_password_secret (some false) known password h = inl (cc)
choose_password_secret (some true) known password h = inr ((λ e. cc), h)
choose_password_secret none none password h = inl (cc)
choose_password_secret none (some p) password h = inr ((λ e. cc), h)

pub password_for-Suits :
    (env : ChanEnv) (to_ingame : Bool) (target : ℕ) (password : Bytes)
    → password_for env to_ingame target ≡ some password
    → Suits env to_ingame target password
unfolding password_for
password_for-Suits env false target password h = record { secret = inl (cc); demanded = λ e. cc }
password_for-Suits env true target password h = record {
  secret = elim (choose_password_secret (env.has_password target) env.ingame_password password h) [
    | inl empty ↦ inl empty
    | inr (open_not, known) ↦ inr (refl, open_not, known)
  ];
  demanded = λ e k. subst (λ o. choose_password o env.ingame_password ≡ some password) k h;
}
