-- ===== src/Queue/Chat/Lines.antt =====
-- The chat ring against a bounded queue of lines.
use conan_exiles_teamspeak.Prelude.{
  ℕ, zero, suc, ◌+◌, ◌-◌, ◌≡◌, refl, Bool, true, false, Option, none, some, List, [], ◌∷◌, ◌++◌,
  leb, if◌then◌else◌, arith, length, take,
}
use conan_exiles_teamspeak.CText.{Bytes}
use conan_exiles_teamspeak.Queue.Fifo.{Fifo}
use conan_exiles_teamspeak.Queue.Ring.{Ring}
use conan_exiles_teamspeak.Queue.Ring.Refine.{
  IsValid, view, push-IsValid, pop-IsValid, length-contents, push-view, pop-empty, pop-contents,
}
use native.Mathlib.Decide.{ℕ_discrete}
use conan_exiles_teamspeak.Queue.Chat.{slots, msg_max, push, pop, clear}

-- What threads do to the ring: a line of any producer, a pop into a buffer, a clear at connect.
pub data ChatOp : Type 0 where
  say : Option Bytes → ChatOp
  print : ℕ → ChatOp
  wipe : ChatOp

pub data ChatReply : Type 0 where
  stored : Bool → ChatReply
  line : Option Bytes → ChatReply
  done : ChatReply

unfoldable pub chat_run : Ring Bytes → List ChatOp → List ChatReply × Ring Bytes
chat_run r [] = ([], r)
chat_run r (say msg ∷ ops) =
    let (ok, r') = push r msg in let (out, last) = chat_run r' ops in (stored ok ∷ out, last)
chat_run r (print size ∷ ops) =
    let (text, r') = pop r size in let (out, last) = chat_run r' ops in (line text ∷ out, last)
chat_run r (wipe ∷ ops) = let (out, last) = chat_run (clear r) ops in (done ∷ out, last)

-- The same on a list of lines: at most 32 of at most 511 bytes each.
unfoldable pub line_push : Fifo Bytes → Option Bytes → Bool × Fifo Bytes
line_push q none = (false, q)
line_push q (some msg) =
    if leb slots (length q.waiting)
    then (false, record q { refused = q.refused + 1 })
    else (true, record q { waiting = q.waiting ++ (take (msg_max - 1) msg ∷ []) })

unfoldable pub line_pop : Fifo Bytes → ℕ → Option Bytes × Fifo Bytes
line_pop q zero = (none, q)
line_pop q (suc size) = elim q.waiting [
  | [] ↦ (none, q)
  | text ∷ rest ↦ (some (take size text), record q { waiting = rest })
]

unfoldable pub line_run : Fifo Bytes → List ChatOp → List ChatReply × Fifo Bytes
line_run q [] = ([], q)
line_run q (say msg ∷ ops) =
    let (ok, q') = line_push q msg in let (out, last) = line_run q' ops in (stored ok ∷ out, last)
line_run q (print size ∷ ops) =
    let (text, q') = line_pop q size in let (out, last) = line_run q' ops in (line text ∷ out, last)
line_run q (wipe ∷ ops) =
    let (out, last) = line_run (record q { waiting = [] }) ops in (done ∷ out, last)

push_refines :
    (r : Ring Bytes) (msg : Option Bytes)
    → IsValid slots r
    → ((let (ok, r') = push r msg in (ok, view slots r')) ≡ line_push (view slots r) msg)
      × IsValid slots (push r msg).1
unfolding push line_push
push_refines r none v = (refl, v)
push_refines r (some msg) v = (
  ground (arith, length-contents slots r, push-view slots r (take (msg_max - 1) msg) v),
  push-IsValid slots r (take (msg_max - 1) msg) v,
)

pop_refines :
    (r : Ring Bytes) (size : ℕ)
    → IsValid slots r
    → ((let (text, r') = pop r size in (text, view slots r')) ≡ line_pop (view slots r) size)
      × IsValid slots (pop r size).1
unfolding pop line_pop
pop_refines r zero v = (refl, v)
pop_refines r (suc size) v = elim (ℕ_discrete r.count 0) [
  | yes e ↦ ground (arith, pop-empty slots r e, v)
  | no ne ↦
      let (x, first, rest, same) = pop-contents slots r ne in
      ground (arith, first, rest, same, pop-IsValid slots r v)
]

clear_refines :
    (r : Ring Bytes)
    → IsValid slots r
    → (view slots (clear r) ≡ record { waiting = []; refused = r.dropped })
      × IsValid slots (clear r)
unfolding clear
clear_refines r v = (refl, omega arith)

-- Whatever producers, the consumer and clears do, in any order, the ring answers as a list of at
-- most 32 lines cut to 511 bytes, first in, first out, that drops and counts a line when it is
-- full; and it stays valid.
pub chat_run_refines :
    (ops : List ChatOp) (r : Ring Bytes)
    → IsValid slots r
    → let (replies, r') = chat_run r ops in
      ((replies, view slots r') ≡ line_run (view slots r) ops) × IsValid slots r'
unfolding chat_run line_run
chat_run_refines [] r v = (refl, v)
chat_run_refines (say msg ∷ ops) r v =
    let (same, valid) = push_refines r msg v in
    let later = chat_run_refines ops (push r msg).1 valid in (rw (← same, ← later.0), later.1)
chat_run_refines (print size ∷ ops) r v =
    let (same, valid) = pop_refines r size v in
    let later = chat_run_refines ops (pop r size).1 valid in (rw (← same, ← later.0), later.1)
chat_run_refines (wipe ∷ ops) r v =
    let (same, valid) = clear_refines r v in
    let later = chat_run_refines ops (clear r) valid in (rw (← same, ← later.0), later.1)
