-- ===== src/Voice/Mode/Announces.antt =====
-- Switches of the voice mode and their announcements (src/core/voice/voice_modes.c).
use conan_exiles_teamspeak.Prelude.{ℕ, ◌+◌, ◌≡◌, Bool, List, [], ◌∷◌, ◌++◌, ◌==◌, if◌then◌else◌}
use conan_exiles_teamspeak.Voice.Mode.{Hooks, ModeEffect, announce, known_mode, apply}

-- Threads that switch the mode: the mode, the calls of `voice_mode_apply` in the order of their
-- exchanges, the last one first, what each of their threads has still to announce, and what has
-- been announced, the last one first.
pub record Switching : Type 0 where
  pub mode : ℕ
  pub calls : List ℕ
  pub waiting : List (List ModeEffect)
  pub announced : List ModeEffect

abbrev pub quiet : ℕ → Switching
quiet mode = record { mode = mode; calls = []; waiting = []; announced = [] }

-- Any thread exchanges the mode, or makes the next of its announcements.
pub data Step (h : Hooks) : Switching → Switching → Type 0 where
  exchange :
      (s : Switching) (mode : ℕ)
      → Step h s (record s {
        mode = (apply h s.mode mode).0;
        calls = mode ∷ s.calls;
        waiting = (apply h s.mode mode).1 ∷ s.waiting;
      })
  announce_next :
      (s : Switching) (before after : List (List ModeEffect)) (e : ModeEffect)
      (es : List ModeEffect)
      → s.waiting ≡ before ++ ((e ∷ es) ∷ after)
      → Step h s (record s { waiting = before ++ (es ∷ after); announced = e ∷ s.announced })

pub data Reach (h : Hooks) (start : Switching) : Switching → Type 0 where
  here : Reach h start start
  next : {s s' : Switching} → Reach h start s → Step h s s' → Reach h start s'

-- How many of some announcements there are.
abbrev pub count : (ModeEffect → Bool) → List ModeEffect → ℕ
count p [] = 0
count p (e ∷ es) = (if p e then 1 else 0) + count p es

abbrev pub count_all : (ModeEffect → Bool) → List (List ModeEffect) → ℕ
count_all p [] = 0
count_all p (es ∷ more) = count p es + count_all p more

-- The mode after calls, the last one first.
abbrev pub mode_after : ℕ → List ℕ → ℕ
mode_after start [] = start
mode_after start (mode ∷ earlier) = known_mode mode

-- What the calls that switch the mode have to announce.
abbrev pub due : (ModeEffect → Bool) → Hooks → ℕ → List ℕ → ℕ
due p h start [] = 0
due p h start (mode ∷ earlier) =
    (if mode_after start earlier == known_mode mode
      then 0
      else count p (announce h (known_mode mode)))
    + due p h start earlier
