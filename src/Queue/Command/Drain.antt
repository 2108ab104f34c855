-- ===== src/Queue/Command/Drain.antt =====
-- The drain of the command queue, while other threads push.
use conan_exiles_teamspeak.Prelude.{
  ℕ, zero, suc, ◌-◌, ◌≤◌, ◌≡◌, refl, ◌∙◌, ap, sym, Bool, true, false, List, [], ◌∷◌, ◌++◌, ltb, leb,
  some, arith, length, take, drop, length-drop, append-nil, append_assoc, if_either,
}
use native.Mathlib.Decide.{ℕ_discrete}
use conan_exiles_teamspeak.Queue.Ring
use conan_exiles_teamspeak.Queue.Ring.{Ring}
use conan_exiles_teamspeak.Queue.Ring.Refine.{
  IsValid, contents, push-IsValid, push-view, pop-IsValid, pop-empty, pop-contents, length-contents,
}
use conan_exiles_teamspeak.Queue.Command.{
  Ts3Command, is_none, capacity, ring_push, push_each, drain_rounds, queue_drain, queue_nonempty,
}

-- A part of a list, in its order.
pub data Part : List Ts3Command → List Ts3Command → Type 0 where
  no_more : {all : List Ts3Command} → Part [] all
  skips :
      {x : Ts3Command} {some_of all : List Ts3Command} → Part some_of all → Part some_of (x ∷ all)
  keeps :
      {x : Ts3Command} {some_of all : List Ts3Command}
      → Part some_of all
      → Part (x ∷ some_of) (x ∷ all)

Part-behind : (front some_of all : List Ts3Command) → Part some_of all → Part some_of (front ++ all)
Part-behind [] some_of all p = p
Part-behind (x ∷ front) some_of all p = skips (Part-behind front some_of all p)

Part-append : {a b c d : List Ts3Command} → Part a b → Part c d → Part (a ++ c) (b ++ d)
Part-append {a = _} {b} {c} {d} no_more q = Part-behind b c d q
Part-append (skips p) q = skips (Part-append p q)
Part-append (keeps p) q = keeps (Part-append p q)

Part-front : {a b : List Ts3Command} (c : List Ts3Command) → Part a b → Part a (b ++ c)
Part-front c no_more = no_more
Part-front c (skips p) = skips (Part-front c p)
Part-front c (keeps p) = keeps (Part-front c p)

-- What of the pushed commands is stored: the rest were empty, or found the queue full.
Stored : Ring Ts3Command → List Ts3Command → Ring Ts3Command → Type 0
Stored r cmds r' =
    (stored : List Ts3Command) × Part stored cmds
    × (contents capacity r' ≡ contents capacity r ++ stored)
    × IsValid capacity r'

push_one :
    (r : Ring Ts3Command) (cmd : Ts3Command)
    → IsValid capacity r
    → Stored r (cmd ∷ []) (ring_push r cmd).1
unfolding ring_push Stored
push_one r cmd v =
    let Goal : Bool × Ring Ts3Command → Type 0 = λ x. Stored r (cmd ∷ []) x.1 in
    let (done, now, drops) = push-view capacity r cmd v in
    let unchanged : Stored r (cmd ∷ []) r =
      ([], no_more, sym (append-nil (contents capacity r)), v) in
    let valid = push-IsValid capacity r cmd v in
    if_either Goal (is_none cmd.kind) (λ refused. unchanged)
      (λ accepted.
        if_either
          (λ kept.
            contents capacity (Ring.push capacity r cmd).1 ≡ kept
            → Stored r (cmd ∷ []) (Ring.push capacity r cmd).1)
          (leb capacity r.count)
          (λ full e. ([], no_more, e ∙ sym (append-nil (contents capacity r)), valid))
          (λ room e. (cmd ∷ [], keeps no_more, e, valid)) now)

push_each_lem :
    (cmds : List Ts3Command) (r : Ring Ts3Command)
    → IsValid capacity r
    → Stored r cmds (push_each r cmds)
unfolding push_each Stored
push_each_lem [] r v = ([], no_more, sym (append-nil (contents capacity r)), v)
push_each_lem (cmd ∷ cmds) r v =
    let (first, p, e, v') = push_one r cmd v in
    let (later, q, e', v'') = push_each_lem cmds (ring_push r cmd).1 v' in
    (
      first ++ later,
      Part-append p q,
      e' ∙ ap (λ t. t ++ later) e ∙ append_assoc (contents capacity r) first later,
      v'',
    )

-- All that other threads push during so many rounds.
abbrev pub all_arriving : ℕ → (ℕ → List Ts3Command) → List Ts3Command
all_arriving zero arriving = []
all_arriving (suc rounds) arriving = arriving rounds ++ all_arriving rounds arriving

-- The commands of a queue and those stored meanwhile, of which `rounds` are executed.
Drained : ℕ → (ℕ → List Ts3Command) → Ring Ts3Command → List Ts3Command × Ring Ts3Command → Type 0
Drained rounds arriving r (executed, r') =
    (stored : List Ts3Command) × Part stored (all_arriving rounds arriving)
    × (executed ≡ take rounds (contents capacity r ++ stored))
    × (contents capacity r' ≡ drop rounds (contents capacity r ++ stored))
    × IsValid capacity r'

nothing_waits :
    (rounds : ℕ) (arriving : ℕ → List Ts3Command) (r : Ring Ts3Command)
    → (push_each r (arriving rounds)).count ≡ 0
    → drain_rounds (suc rounds) arriving r ≡ ([], push_each r (arriving rounds))
unfolding drain_rounds
nothing_waits rounds arriving r z =
    let out = pop-empty capacity (push_each r (arriving rounds)) z in
    rw (ap (λ x. x.0) out, drain_rounds) (ap (λ x. ([], x.1)) out)

one_command :
    (rounds : ℕ) (arriving : ℕ → List Ts3Command) (r : Ring Ts3Command) (x : Ts3Command)
    → let popped = Ring.pop capacity (push_each r (arriving rounds)) in
      popped.0 ≡ some x
      → let later = drain_rounds rounds arriving popped.1 in
        drain_rounds (suc rounds) arriving r ≡ (x ∷ later.0, later.1)
unfolding drain_rounds
one_command rounds arriving r x out = rw (out, drain_rounds) refl

no_contents : (r : Ring Ts3Command) → r.count ≡ 0 → contents capacity r ≡ []
no_contents r z = nil_of (contents capacity r) (length-contents capacity r ∙ z)
  where
    nil_of : (xs : List Ts3Command) → length xs ≡ 0 → xs ≡ []
    nil_of [] h = refl
    nil_of (x ∷ xs) h = absurd (omega (arith, h))

drain_rounds_lem :
    (rounds : ℕ) (arriving : ℕ → List Ts3Command) (r : Ring Ts3Command)
    → IsValid capacity r
    → Drained rounds arriving r (drain_rounds rounds arriving r)
unfolding Drained Stored
drain_rounds_lem zero arriving r v =
    unfold drain_rounds in ([], no_more, refl, sym (append-nil (contents capacity r)), v)
drain_rounds_lem (suc rounds) arriving r v =
    let (first, p, e, v') = push_each_lem (arriving rounds) r v in
    let pushed = push_each r (arriving rounds) in
    elim (ℕ_discrete pushed.count 0) [
      | yes z ↦
          let none_left = no_contents pushed z in
          rw (nothing_waits rounds arriving r z) (
            first,
            Part-front (all_arriving rounds arriving) p,
            ap (take (suc rounds)) (sym none_left ∙ e),
            none_left ∙ ap (drop (suc rounds)) (sym none_left ∙ e),
            v',
          )
      | no ne ↦
          let (x, out, rest, fewer) = pop-contents capacity pushed ne in
          let left_over = (Ring.pop capacity pushed).1 in
          let (later, q, done, left, v'') =
            drain_rounds_lem rounds arriving left_over (pop-IsValid capacity pushed v') in
          let whole : contents capacity r ++ (first ++ later)
              ≡ x ∷ (contents capacity left_over ++ later) =
            sym (append_assoc (contents capacity r) first later)
            ∙ ap (λ t. t ++ later) (sym e ∙ rest) in
          rw (one_command rounds arriving r x out) (
            first ++ later,
            Part-append p q,
            ap (◌∷◌ x) done ∙ ap (take (suc rounds)) (sym whole),
            left ∙ ap (drop (suc rounds)) (sym whole),
            v'',
          )
    ]

more_than : (n limit : ℕ) → ltb 0 (n - limit) ≡ ltb limit n
more_than n limit = ground arith

waiting_first :
    (xs ys : List Ts3Command) (n : ℕ) → length xs ≤ n → take (length xs) (take n (xs ++ ys)) ≡ xs
waiting_first [] ys n h = refl
waiting_first (x ∷ xs) ys zero h = elim h [ ]
waiting_first (x ∷ xs) ys (suc n) h = ap (◌∷◌ x) (waiting_first xs ys n (omega arith))

-- While other threads push, a drain on the callback thread first executes every command that
-- waited when it began, in the order in which they were pushed, and then those that were stored
-- meanwhile, 256 in all at most; the rest stay in the queue, valid and in order, and the queue is
-- left empty unless there were more than 256. On another thread it executes nothing and changes
-- nothing.
pub queue_drain_lem :
    (arriving : ℕ → List Ts3Command) (r : Ring Ts3Command)
    → IsValid capacity r
    → (let (executed, r') = queue_drain true arriving r in
        (stored : List Ts3Command) × Part stored (all_arriving 256 arriving)
        × (take (length (contents capacity r)) executed ≡ contents capacity r)
        × (executed ≡ take 256 (contents capacity r ++ stored))
        × (contents capacity r' ≡ drop 256 (contents capacity r ++ stored))
        × (queue_nonempty r' ≡ ltb 256 (length (contents capacity r ++ stored)))
        × IsValid capacity r')
      × (queue_drain false arriving r ≡ ([], r))
unfolding queue_drain queue_nonempty Drained
queue_drain_lem arriving r v =
    let (stored, p, done, left, v') = drain_rounds_lem capacity arriving r v in
    let all = contents capacity r ++ stored in
    let few : length (contents capacity r) ≤ capacity = rw length-contents v.count_in in
    let counted : (drain_rounds capacity arriving r).1.count ≡ length all - capacity =
      sym (length-contents capacity (drain_rounds capacity arriving r).1)
      ∙ ap length left
      ∙ length-drop capacity all in
    (
      (
        stored,
        p,
        ap (take (length (contents capacity r))) done
            ∙ waiting_first (contents capacity r) stored capacity few,
        done,
        left,
        rw counted (more_than (length all) capacity),
        v',
      ),
      refl,
    )
