-- ===== src/Queue/Ring/Refine.antt =====
-- A ring behaves as the queue of the entries that wait in it.
use conan_exiles_teamspeak.Prelude.{
  ℕ, zero, suc, ◌+◌, ◌-◌, ◌%◌, ◌≤◌, ◌<◌, ◌≡◌, ◌≢◌, refl, ◌∙◌, ap, ap₂, not, none, some, List, [],
  ◌∷◌, ◌++◌, leb, if◌then◌else◌, arith, length,
}
use native.Mathlib.Nat.{mod-add-mod, mod-eq_of_lt, mod-eq-sub-mod, add-zero}
use native.Mathlib.Decide.{dec_lt}
use conan_exiles_teamspeak.Queue.Fifo
use conan_exiles_teamspeak.Queue.Fifo.{Fifo, Op, put, get, Reply, pushed, popped}
use conan_exiles_teamspeak.Queue.Ring.{Ring, write, init, push, pop}

module _ {A : Type 0} where
  -- The `n` entries from index `h` on, going round at `capacity`.
  abbrev pub window : (ℕ → A) → ℕ → ℕ → ℕ → List A
  window slots capacity h zero = []
  window slots capacity h (suc n) = slots h ∷ window slots capacity ((h + 1) % capacity) n

  length-window : (slots : ℕ → A) (capacity h n : ℕ) → length (window slots capacity h n) ≡ n
  length-window slots capacity h zero = refl
  length-window slots capacity h (suc n) =
      ap suc (length-window slots capacity ((h + 1) % capacity) n)

  -- The waiting entries, oldest first.
  abbrev pub contents : ℕ → Ring A → List A
  contents capacity r = window r.slots capacity r.head r.count

pub record IsValid {A : Type 0} (capacity : ℕ) (r : Ring A) : Type 0 where
  pub head_in : r.head < capacity
  pub tail_is : r.tail ≡ (r.head + r.count) % capacity
  pub count_in : r.count ≤ capacity

add-mod-ne : (capacity h k : ℕ) → h < capacity → suc k < capacity → (h + suc k) % capacity ≢ h
add-mod-ne capacity h k hh hk = elim (dec_lt (h + suc k) capacity) [
  | yes p ↦ omega (arith, mod-eq_of_lt p)
  | no p ↦ omega (
    arith,
    mod-eq-sub-mod {n = h + suc k} {m = capacity} (omega arith),
    mod-eq_of_lt {n = h + suc k - capacity} {m = capacity} (omega arith),
  )
]

module _ {A : Type 0} (capacity : ℕ) where
  -- Writing just behind a window extends it by that entry.
  window-write :
      (slots : ℕ → A) (x : A) (n h i : ℕ)
      → h < capacity
      → n < capacity
      → i ≡ (h + n) % capacity
      → window (write slots i x) capacity h (suc n) ≡ window slots capacity h n ++ (x ∷ [])
  window-write slots x zero h i hh hn e = ground (arith, add-zero h, mod-eq_of_lt hh)
  window-write slots x (suc n) h i hh hn e =
      ap₂ ◌∷◌ (ground (arith, add-mod-ne capacity h n hh hn))
        (window-write slots x n ((h + 1) % capacity) i (omega arith) (omega arith) (e ∙ shift))
    where
      shift : (h + suc n) % capacity ≡ ((h + 1) % capacity + n) % capacity
      shift = rw mod-add-mod (ap (λ k. k % capacity) (omega arith))

  window_of_pos :
      (slots : ℕ → A) (h n : ℕ)
      → n ≢ 0
      → window slots capacity h n ≡ slots h ∷ window slots capacity ((h + 1) % capacity) (n - 1)
  window_of_pos slots h zero p = absurd (p refl)
  window_of_pos slots h (suc n) p = ap (λ k. window slots capacity h (suc k)) (omega arith)

  pub init-IsValid : (slots : ℕ → A) → 0 < capacity → IsValid capacity (init capacity slots)
  unfolding init
  init-IsValid slots h = omega arith

  pub push-IsValid :
      (r : Ring A) (x : A) → IsValid capacity r → IsValid capacity (push capacity r x).1
  unfolding push
  push-IsValid r x v = ground (arith, mod-add-mod (r.head + r.count) capacity 1)

  pub pop-IsValid : (r : Ring A) → IsValid capacity r → IsValid capacity (pop capacity r).1
  unfolding pop
  pop-IsValid r v = ground (arith, mod-add-mod (r.head + 1) capacity (r.count - 1))

  pub pop-empty : (r : Ring A) → r.count ≡ 0 → pop capacity r ≡ (none, r)
  unfolding pop
  pop-empty r e = ground arith

  pub pop-contents :
      (r : Ring A)
      → r.count ≢ 0
      → (x : A) × ((pop capacity r).0 ≡ some x)
        × (contents capacity r ≡ x ∷ contents capacity (pop capacity r).1)
        × ((pop capacity r).1.dropped ≡ r.dropped)
  unfolding pop
  pop-contents r h = (
    r.slots r.head,
    ground arith,
    ground (arith, window_of_pos r.slots r.head r.count h),
    ground arith,
  )

  pub length-contents : (r : Ring A) → length (contents capacity r) ≡ r.count
  length-contents r = length-window r.slots capacity r.head r.count

  pub push-view :
      (r : Ring A) (x : A)
      → IsValid capacity r
      → ((push capacity r x).0 ≡ not (leb capacity r.count))
        × (contents capacity (push capacity r x).1 ≡ (
            if leb capacity r.count then contents capacity r else contents capacity r ++ (x ∷ [])))
        × ((push capacity r x).1.dropped
            ≡ (if leb capacity r.count then r.dropped + 1 else r.dropped))
  unfolding push
  push-view r x v = ground (arith, window-write r.slots x r.count r.head r.tail)

  -- One operation on the ring, answered as `Fifo.step` answers.
  unfoldable pub ring_step : Ring A → Op A → Reply A × Ring A
  ring_step r (put x) = let (done, r') = push capacity r x in (pushed done, r')
  ring_step r get = let (out, r') = pop capacity r in (popped out, r')

  unfoldable pub ring_run : Ring A → List (Op A) → List (Reply A) × Ring A
  ring_run r [] = ([], r)
  ring_run r (op ∷ ops) =
      let (reply, r') = ring_step r op in
      let (replies, last) = ring_run r' ops in (reply ∷ replies, last)

  abbrev pub view : Ring A → Fifo A
  view r = record { waiting = contents capacity r; refused = r.dropped }

  pub ring_step-IsValid :
      (r : Ring A) (op : Op A) → IsValid capacity r → IsValid capacity (ring_step r op).1
  unfolding ring_step
  ring_step-IsValid r (put x) v = push-IsValid r x v
  ring_step-IsValid r get v = pop-IsValid r v

  pub ring_step_refines :
      (r : Ring A) (op : Op A)
      → IsValid capacity r
      → let (reply, r') = ring_step r op in (reply, view r') ≡ Fifo.step capacity (view r) op
  unfolding ring_step push pop Fifo.step
  ring_step_refines r (put x) v = ground (
    arith,
    length-window r.slots capacity r.head r.count,
    window-write r.slots x r.count r.head r.tail,
  )
  ring_step_refines r get v = ground (arith, window_of_pos r.slots r.head r.count)

  -- Any sequence of pushes and pops is answered as by the bounded queue of the entries that
  -- wait, leaves the entries and the count of drops of that queue, and keeps the ring valid.
  pub ring_run_refines :
      (ops : List (Op A)) (r : Ring A)
      → IsValid capacity r
      → let (replies, r') = ring_run r ops in
        ((replies, view r') ≡ Fifo.run capacity (view r) ops) × IsValid capacity r'
  unfolding ring_run Fifo.run
  ring_run_refines [] r v = (refl, v)
  ring_run_refines (op ∷ ops) r v =
      let later = ring_run_refines ops (ring_step r op).1 (ring_step-IsValid r op v) in
      (rw (← ring_step_refines r op v, ← later.0), later.1)
