-- ===== src/Tests/Workers.antt =====
-- The start and stop of a worker at a concrete interleaving.
use conan_exiles_teamspeak.Prelude.{ℕ, ◌≡◌, refl, true, Option, none, some, ◌⊎◌}
use conan_exiles_teamspeak.Queue.Worker.{
  refused, returned, stopped, Slot, initial, may_start, publish, sees_no_stop, flag, collect, Reach,
  here, next,
}
use conan_exiles_teamspeak.Queue.Worker.Once.{worker_joined_once}

abbrev end : Slot
end = record {
  handle = none;
  stop_requested = true;
  starter = returned 5 none;
  stopper = stopped (some 5);
}

reach_end : Reach initial end
reach_end =
    next
      (next
        (next (next (next here (may_start _ 5 refl refl)) (publish _ 5 refl))
          (sees_no_stop _ 5 refl refl))
        (flag _ refl))
      (collect _ refl)

worker_joined_once_example :
    let s : Slot = end in
    let got : Option ℕ = some 5 in
    (s.starter ≡ refused → (got ≡ none) × (s.handle ≡ none))
    × ((h : ℕ) (mine : Option ℕ)
        → s.starter ≡ returned h mine
        → (s.handle ≡ none) × (((mine ≡ some h) × (got ≡ none)) ⊎ ((mine ≡ none) × (got ≡ some h))))
worker_joined_once_example = worker_joined_once end (some 5) reach_end refl
