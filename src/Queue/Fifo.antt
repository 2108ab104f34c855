-- ===== src/Queue/Fifo.antt =====
-- What a bounded queue promises: first in, first out, and a count of what it turned away.
use conan_exiles_teamspeak.Prelude.{
  ℕ, ◌+◌, Bool, true, false, Option, none, some, List, [], ◌∷◌, ◌++◌, leb, if◌then◌else◌, length,
}

-- A producer's push or the consumer's pop, in the order in which the lock lets them through.
pub data Op (A : Type 0) : Type 0 where
  put : A → Op A
  get : Op A

pub data Reply (A : Type 0) : Type 0 where
  pushed : Bool → Reply A
  popped : Option A → Reply A

-- The entries that wait, oldest first, and the number of those that were turned away.
pub record Fifo (A : Type 0) : Type 0 where
  pub waiting : List A
  pub refused : ℕ

module _ {A : Type 0} (capacity : ℕ) where
  unfoldable pub step : Fifo A → Op A → Reply A × Fifo A
  step q (put x) =
      if leb capacity (length q.waiting)
      then (pushed false, record q { refused = q.refused + 1 })
      else (pushed true, record q { waiting = q.waiting ++ (x ∷ []) })
  step q get = elim q.waiting [
    | [] ↦ (popped none, q)
    | x ∷ rest ↦ (popped (some x), record q { waiting = rest })
  ]

  unfoldable pub run : Fifo A → List (Op A) → List (Reply A) × Fifo A
  run q [] = ([], q)
  run q (op ∷ ops) =
      let (reply, q') = step q op in let (replies, last) = run q' ops in (reply ∷ replies, last)
