-- ===== src/Queue/Command.antt =====
-- The typed command queue: src/ts/adapter/ts3_cmd_ring.h, and the locked queue with its drain in
-- src/ts/adapter/ts3_adapter.c.
pub mod Drain
use conan_exiles_teamspeak.Prelude.{
  ℕ, zero, suc, Bool, true, false, not, ◌&&◌, Option, none, some, List, [], ◌∷◌, ltb, ◌==◌,
  if◌then◌else◌,
}
use conan_exiles_teamspeak.CText.{Bytes}
use conan_exiles_teamspeak.Queue.Ring
use conan_exiles_teamspeak.Queue.Ring.{Ring}

-- `Ts3CmdType` and `Ts3Command`; its four floats are only carried, as bit patterns.
pub data Ts3CmdType : Type 0 where
  cmd_none log_channel_list : Ts3CmdType

pub record Ts3Command : Type 0 where
  pub kind : Ts3CmdType
  pub u64a : ℕ
  pub u64b : ℕ
  pub floats : ℕ × ℕ × ℕ × ℕ
  pub text : Bytes

abbrev pub is_none : Ts3CmdType → Bool
is_none cmd_none = true
is_none log_channel_list = false

abbrev pub capacity : ℕ
capacity = 256

-- `ts3_cmd_ring_push` with its test of the command, `ts3_cmd_ring_pop`; a command is never NULL
-- here.
unfoldable pub ring_push : Ring Ts3Command → Ts3Command → Bool × Ring Ts3Command
ring_push r cmd = if is_none cmd.kind then (false, r) else Ring.push capacity r cmd

unfoldable pub ring_pop : Ring Ts3Command → Option Ts3Command × Ring Ts3Command
ring_pop r = Ring.pop capacity r

-- `g_cmdRing` and `g_cmdDroppedLogged`
pub record CmdQueue : Type 0 where
  pub ring : Ring Ts3Command
  pub dropped_logged : ℕ

-- `ts3_cmd_queue_push`: whether the command was stored, the queue, and whether the drop is
-- logged.
unfoldable pub queue_push : CmdQueue → Ts3Command → Bool × CmdQueue × Bool
unfolding ring_push
queue_push q cmd =
    if is_none cmd.kind
    then (false, q, false)
    else let (pushed, ring) = ring_push q.ring cmd in
      if not pushed && not (ring.dropped == q.dropped_logged)
      then (pushed, record { ring = ring; dropped_logged = ring.dropped }, true)
      else (pushed, record q { ring = ring }, false)

-- Pushes of other threads, one after another.
unfoldable pub push_each : Ring Ts3Command → List Ts3Command → Ring Ts3Command
unfolding ring_push
push_each r [] = r
push_each r (cmd ∷ cmds) = push_each (ring_push r cmd).1 cmds

-- The loop of `ts3_cmd_queue_drain`, with the rounds that are left of the capacity: the commands
-- executed, in order. The lock is held for each pop only: `arriving n` is what other threads push
-- before the pop that leaves `n` rounds.
unfoldable pub drain_rounds :
    ℕ → (ℕ → List Ts3Command) → Ring Ts3Command → List Ts3Command × Ring Ts3Command
unfolding ring_pop push_each
drain_rounds zero arriving r = ([], r)
drain_rounds (suc rounds) arriving r =
    let (out, r') = ring_pop (push_each r (arriving rounds)) in
    elim out [
      | none ↦ ([], r')
      | some cmd ↦ let (later, last) = drain_rounds rounds arriving r' in (cmd ∷ later, last)
    ]

-- `ts3_cmd_queue_drain`, which does nothing off the callback thread.
unfoldable pub queue_drain :
    Bool → (ℕ → List Ts3Command) → Ring Ts3Command → List Ts3Command × Ring Ts3Command
unfolding drain_rounds
queue_drain on_callback arriving r =
    if on_callback then drain_rounds capacity arriving r else ([], r)

-- `ts3_cmd_queue_nonempty`
unfoldable pub queue_nonempty : Ring Ts3Command → Bool
queue_nonempty r = ltb 0 r.count
