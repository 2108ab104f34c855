-- ===== src/Queue/Ring.antt =====
-- The ring arithmetic that src/ts/adapter/ts3_cmd_ring.h and src/ui/util/ui_chat_ring.h share: an
-- array of slots with head, tail and count, and a counter of the pushes that found it full.
-- The lock of each ring makes every operation one step.
pub mod Refine
use conan_exiles_teamspeak.Prelude.{
  ℕ, ◌+◌, ◌-◌, ◌%◌, Bool, true, false, Option, none, some, leb, ◌==◌, if◌then◌else◌,
}

pub record Ring (A : Type 0) : Type 0 where
  pub slots : ℕ → A
  pub head : ℕ
  pub tail : ℕ
  pub count : ℕ
  pub dropped : ℕ

abbrev pub write : {A : Type 0} → (ℕ → A) → ℕ → A → ℕ → A
write slots i x j = if j == i then x else slots j

module _ {A : Type 0} (capacity : ℕ) where
  -- `head = tail = count = dropped = 0`; the slots keep what they held.
  unfoldable pub init : (ℕ → A) → Ring A
  init slots = record { slots = slots; head = 0; tail = 0; count = 0; dropped = 0 }

  -- A full ring drops the new entry and counts it. Each ring puts its own tests of the entry in
  -- front, and the counter, a `long` of the source, is without bound here.
  unfoldable pub push : Ring A → A → Bool × Ring A
  push r x = if leb capacity r.count then (false, record r { dropped = r.dropped + 1 }) else (
    true,
    record r {
      slots = write r.slots r.tail x;
      tail = (r.tail + 1) % capacity;
      count = r.count + 1;
    },
  )

  unfoldable pub pop : Ring A → Option A × Ring A
  pop r =
      if r.count == 0
      then (none, r)
      else (some (r.slots r.head), record r { head = (r.head + 1) % capacity; count = r.count - 1 })
