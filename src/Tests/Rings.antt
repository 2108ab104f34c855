-- ===== src/Tests/Rings.antt =====
-- The queue and the chat ring at concrete inputs.
use conan_exiles_teamspeak.Prelude.{ℕ, ◌≡◌, none, some, List, [], ◌∷◌, arith}
use conan_exiles_teamspeak.CText.{Bytes, codes}
use conan_exiles_teamspeak.Queue.Fifo.{Fifo, Op, put, get, Reply, pushed, popped}
use conan_exiles_teamspeak.Queue.Fifo
use conan_exiles_teamspeak.Queue.Ring.{Ring, init}
use conan_exiles_teamspeak.Queue.Ring.Refine.{
  IsValid, init-IsValid, ring_run, view, ring_run_refines,
}
use conan_exiles_teamspeak.Queue.Chat.{slots}
use conan_exiles_teamspeak.Queue.Chat.Lines.{
  ChatOp, say, print, wipe, chat_run, line_run, chat_run_refines,
}

ring_run_refines_example :
    let capacity : ℕ = 2 in
    let ops : List (Op ℕ) = put 1 ∷ put 2 ∷ put 3 ∷ get ∷ get ∷ get ∷ [] in
    let r : Ring ℕ = init 2 (λ i. 0) in
    let (replies, r') = ring_run capacity r ops in
    ((replies, view capacity r') ≡ Fifo.run capacity (view capacity r) ops) × IsValid capacity r'
ring_run_refines_example =
    ring_run_refines 2 (put 1 ∷ put 2 ∷ put 3 ∷ get ∷ get ∷ get ∷ []) (init 2 (λ i. 0))
      (init-IsValid 2 (λ i. 0) (omega arith))

chat_run_refines_example :
    let ops : List ChatOp = say (some (codes "hi")) ∷ say none ∷ print 2 ∷ wipe ∷ [] in
    let r : Ring Bytes = init slots (λ i. []) in
    let (replies, r') = chat_run r ops in
    ((replies, view slots r') ≡ line_run (view slots r) ops) × IsValid slots r'
chat_run_refines_example =
    chat_run_refines (say (some (codes "hi")) ∷ say none ∷ print 2 ∷ wipe ∷ [])
      (init slots (λ i. [])) (init-IsValid slots (λ i. []) (omega arith))
