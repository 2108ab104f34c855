-- ===== src/Queue/Worker/Once.antt =====
-- A worker that was started is joined by exactly one side.
use conan_exiles_teamspeak.Prelude.{
  ℕ, ◌≡◌, ◌≢◌, refl, Bool, true, false, Option, none, some, arith, ◌⊎◌,
}
use conan_exiles_teamspeak.Queue.Worker.{
  Starter, waiting, refused, made, published, taking_back, returned, Stopper, running, flagged,
  stopped, Slot, initial, Step, may_start, may_not_start, publish, sees_no_stop, sees_stop,
  take_back, flag, collect, Reach, here, next,
}

-- The stop flag is set exactly when the stopper has begun.
abbrev Flag : Stopper → Bool → Type 0
Flag running stop = stop ≡ false
Flag flagged stop = stop ≡ true
Flag (stopped got) stop = stop ≡ true

-- The handle is in the slot, or the stopper has it.
abbrev Held : ℕ → Stopper → Option ℕ → Type 0
Held h (stopped (some k)) handle = (k ≡ h) × (handle ≡ none)
Held h _ handle = handle ≡ some h

abbrev NoHandle : Stopper → Option ℕ → Type 0
NoHandle (stopped got) handle = (got ≡ none) × (handle ≡ none)
NoHandle _ handle = handle ≡ none

-- After `ui_worker_publish` returned: with nothing, the stopper has the handle or will find
-- it; with something, that is the handle and the stopper found nothing.
abbrev Settled : ℕ → Option ℕ → Stopper → Option ℕ → Type 0
Settled h none running handle = handle ≡ some h
Settled h none flagged handle = handle ≡ some h
Settled h none (stopped got) handle = (got ≡ some h) × (handle ≡ none)
Settled h (some k) running handle = ⊥
Settled h (some k) flagged handle = (k ≡ h) × (handle ≡ none)
Settled h (some k) (stopped got) handle = (k ≡ h) × (got ≡ none) × (handle ≡ none)

abbrev Owns : Starter → Stopper → Option ℕ → Type 0
Owns waiting p handle = NoHandle p handle
Owns refused p handle = NoHandle p handle
Owns (made h) p handle = NoHandle p handle
Owns (published h) p handle = Held h p handle
Owns (taking_back h) p handle = Held h p handle × (p ≢ running)
Owns (returned h got) p handle = Settled h got p handle

abbrev Inv : Slot → Type 0
Inv s = Flag s.stopper s.stop_requested × Owns s.starter s.stopper s.handle

Step-Inv : {s t : Slot} → Step s t → Inv s → Inv t
Step-Inv (may_start s h e n) i = ground arith
Step-Inv (may_not_start s e n) i = ground arith
Step-Inv (publish s h e) i = ground arith
Step-Inv (sees_no_stop s h e n) i = ground arith
Step-Inv (sees_stop s h e n) i = ground arith
Step-Inv (take_back s h e) i = ground arith
Step-Inv (flag s e) i = ground arith
Step-Inv (collect s e) i = ground arith

Reach-Inv : {s t : Slot} → Reach s t → Inv s → Inv t
Reach-Inv here i = i
Reach-Inv (next r st) i = Step-Inv st (Reach-Inv r i)

-- However the starter and the stopper interleave: when both have finished, a worker that was
-- made has been given back to exactly one of them, and the slot is empty; if no worker was made,
-- neither has one.
pub worker_joined_once :
    (s : Slot) (got : Option ℕ)
    → Reach initial s
    → s.stopper ≡ stopped got
    → (s.starter ≡ refused → (got ≡ none) × (s.handle ≡ none))
      × ((h : ℕ) (mine : Option ℕ)
          → s.starter ≡ returned h mine
          → (s.handle ≡ none)
            × (((mine ≡ some h) × (got ≡ none)) ⊎ ((mine ≡ none) × (got ≡ some h))))
worker_joined_once s got r e =
    let i = Reach-Inv r (refl, refl) in
    (λ a. refused_case i a, λ h mine a. returned_case h mine i a)
  where
    refused_case : Inv s → s.starter ≡ refused → (got ≡ none) × (s.handle ≡ none)
    refused_case i a = ground arith

    returned_case :
        (h : ℕ) (mine : Option ℕ)
        → Inv s
        → s.starter ≡ returned h mine
        → (s.handle ≡ none) × (((mine ≡ some h) × (got ≡ none)) ⊎ ((mine ≡ none) × (got ≡ some h)))
    returned_case h mine i a = ground arith
