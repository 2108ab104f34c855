-- ===== src/Queue/Worker.antt =====
-- The hand-over of a worker thread between the thread that starts it and the one that stops it
-- (src/ui/util/ui_worker_slot.h). Each atomic access of the slot is one step, and the two
-- threads interleave.
pub mod Once
use conan_exiles_teamspeak.Prelude.{ℕ, ◌≡◌, Bool, true, false, Option, none, some}

-- Where the starter stands: before `ui_worker_may_start`, turned away by it, with a worker that
-- it made, in `ui_worker_publish` behind the exchange, about to take the handle back, and behind
-- it with what `ui_worker_publish` returned.
pub data Starter : Type 0 where
  waiting refused : Starter
  made published taking_back : ℕ → Starter
  returned : ℕ → Option ℕ → Starter

-- Where the stopper stands in `ui_worker_request_stop`, and what that returned.
pub data Stopper : Type 0 where
  running flagged : Stopper
  stopped : Option ℕ → Stopper

-- `UiWorkerSlot` with the two threads.
pub record Slot : Type 0 where
  pub handle : Option ℕ
  pub stop_requested : Bool
  pub starter : Starter
  pub stopper : Stopper

abbrev pub initial : Slot
initial = record { handle = none; stop_requested = false; starter = waiting; stopper = running }

pub data Step : Slot → Slot → Type 0 where
  -- `ui_worker_may_start`, and the creation of worker `h`
  may_start :
      (s : Slot) (h : ℕ)
      → s.starter ≡ waiting
      → s.stop_requested ≡ false
      → Step s (record s { starter = made h })
  may_not_start :
      (s : Slot)
      → s.starter ≡ waiting
      → s.stop_requested ≡ true
      → Step s (record s { starter = refused })
  -- `ui_worker_publish`: the exchange, the load of the stop flag, and the exchange back
  publish :
      (s : Slot) (h : ℕ)
      → s.starter ≡ made h
      → Step s (record s { handle = some h; starter = published h })
  sees_no_stop :
      (s : Slot) (h : ℕ)
      → s.starter ≡ published h
      → s.stop_requested ≡ false
      → Step s (record s { starter = returned h none })
  sees_stop :
      (s : Slot) (h : ℕ)
      → s.starter ≡ published h
      → s.stop_requested ≡ true
      → Step s (record s { starter = taking_back h })
  take_back :
      (s : Slot) (h : ℕ)
      → s.starter ≡ taking_back h
      → Step s (record s { handle = none; starter = returned h s.handle })
  -- `ui_worker_request_stop`: the exchange of the flag, and that of the handle
  flag :
      (s : Slot)
      → s.stopper ≡ running
      → Step s (record s { stop_requested = true; stopper = flagged })
  collect :
      (s : Slot)
      → s.stopper ≡ flagged
      → Step s (record s { handle = none; stopper = stopped s.handle })

pub data Reach (s : Slot) : Slot → Type 0 where
  here : Reach s s
  next : {t u : Slot} → Reach s t → Step t u → Reach s u
