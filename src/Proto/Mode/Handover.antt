-- ===== src/Proto/Mode/Handover.antt =====
-- CEMODE: the hand-over of a mode switch from any thread to the callback thread, as
-- interleavings of the atomic steps of `voice_mode_apply` (src/core/voice/voice_modes.c) and
-- `ts3_cemode_flush` (src/ts/proximity/ts3_cemode.c).
use conan_exiles_teamspeak.Prelude.{
  ℕ, ◌+◌, ◌-◌, ◌<◌, ◌≡◌, refl, Bool, true, false, arith, inl, inr, ◌⊎◌,
}

-- What the threads share and where they stand: `mode` is `g_currentMode`, `pending` the flag
-- `g_sendPending`, `announced` the mode of the last CEMODE that left. `unsignalled` counts the
-- threads between the exchange of the mode in `voice_mode_apply` and the signal of its hook.
pub data Flusher : Type 0 where
  idle claimed : Flusher
  holds : ℕ → Flusher

pub record Shared : Type 0 where
  pub mode : ℕ
  pub pending : Bool
  pub announced : ℕ
  pub unsignalled : ℕ
  pub flusher : Flusher

-- The atomic steps, in the order in which each thread makes its own: a switch stores the mode
-- and signals afterwards; a flush claims the flag, reads the mode, and sends it or re-arms.
-- Two things that drop a pending announcement are not steps: `give_up`, the end of a row of
-- failures, and `ts3_cemode_reset`, which clears the flag at the end of a connection.
pub data Step : Shared → Shared → Type 0 where
  switch : (s : Shared) (m : ℕ) → Step s (record s { mode = m; unsignalled = s.unsignalled + 1 })
  signal :
      (s : Shared)
      → 0 < s.unsignalled
      → Step s (record s { pending = true; unsignalled = s.unsignalled - 1 })
  claim :
      (s : Shared)
      → s.pending ≡ true
      → s.flusher ≡ idle
      → Step s (record s { pending = false; flusher = claimed })
  read : (s : Shared) → s.flusher ≡ claimed → Step s (record s { flusher = holds s.mode })
  sent :
      (s : Shared) (m : ℕ)
      → s.flusher ≡ holds m
      → Step s (record s { announced = m; flusher = idle })
  failed :
      (s : Shared) (m : ℕ)
      → s.flusher ≡ holds m
      → Step s (record s { pending = true; flusher = idle })

pub data Reach (s : Shared) : Shared → Type 0 where
  here : Reach s s
  next : {t u : Shared} → Reach s t → Step t u → Reach s u

-- The current mode is announced, or something is still on its way that will read it.
abbrev Covered : Shared → Flusher → Type 0
Covered s idle = (s.announced ≡ s.mode) ⊎ (s.pending ≡ true) ⊎ (0 < s.unsignalled)
Covered s claimed = Unit
Covered s (holds m) = (m ≡ s.mode) ⊎ (s.pending ≡ true) ⊎ (0 < s.unsignalled)

abbrev IsCovered : Shared → Type 0
IsCovered s = Covered s s.flusher

Step-IsCovered : {s t : Shared} → Step s t → IsCovered s → IsCovered t
Step-IsCovered (switch s m) c =
    elim s.flusher as (λ f. Covered (record s { mode = m; unsignalled = s.unsignalled + 1 }) f) [
      | idle ↦ inr (inr (omega arith))
      | claimed ↦ tt
      | holds k ↦ inr (inr (omega arith))
    ]
Step-IsCovered (signal s h) c =
    elim s.flusher
      as (λ f. Covered (record s { pending = true; unsignalled = s.unsignalled - 1 }) f) [
        | idle ↦ inr (inl refl)
        | claimed ↦ tt
        | holds k ↦ inr (inl refl)
      ]
Step-IsCovered (claim s h k) c = tt
Step-IsCovered (read s h) c = inl refl
Step-IsCovered (sent s m h) c = rw h at c
Step-IsCovered (failed s m h) c = inr (inl refl)

Reach-IsCovered : {s t : Shared} → IsCovered s → Reach s t → IsCovered t
Reach-IsCovered c here = c
Reach-IsCovered c (next r st) = Step-IsCovered st (Reach-IsCovered c r)

-- No switch of the voice mode is lost while the flush keeps retrying: from a state in which the announced mode is the current
-- one, whatever the threads do, when nothing is pending, unsignalled or being sent, the last
-- CEMODE that left carries the current mode.
pub no_mode_edge_lost :
    (s t : Shared)
    → s.flusher ≡ idle
    → s.announced ≡ s.mode
    → Reach s t
    → t.flusher ≡ idle
    → t.pending ≡ false
    → t.unsignalled ≡ 0
    → t.announced ≡ t.mode
no_mode_edge_lost s t f a r g p u =
    let start : IsCovered s = rw f (inl a) in
    let c : Covered t idle = rw g at (Reach-IsCovered start r) in ground arith
