-- ===== src/Queue/Chat.antt =====
-- The ring of deferred chat lines (src/ui/util/ui_chat_ring.h). A slot holds a C string; the
-- spin lock makes each operation one step.
pub mod Lines
use conan_exiles_teamspeak.Prelude.{
  ℕ, ◌-◌, Bool, false, Option, none, some, ltb, ◌==◌, if◌then◌else◌, take,
}
use conan_exiles_teamspeak.CText.{Bytes}
use conan_exiles_teamspeak.Queue.Ring
use conan_exiles_teamspeak.Queue.Ring.{Ring}

-- `UI_CHAT_RING_SLOTS` and `UI_CHAT_MSG_MAX`
abbrev pub slots : ℕ
slots = 32

abbrev pub msg_max : ℕ
msg_max = 512

-- `ui_chat_ring_push`; `none` is a NULL message.
unfoldable pub push : Ring Bytes → Option Bytes → Bool × Ring Bytes
push r none = (false, r)
push r (some msg) = Ring.push slots r (take (msg_max - 1) msg)

-- `ui_chat_ring_pop` into a buffer of `out_size` bytes; without a buffer the size is 0.
unfoldable pub pop : Ring Bytes → ℕ → Option Bytes × Ring Bytes
pop r out_size =
    if out_size == 0
    then (none, r)
    else let (line, r') = Ring.pop slots r in
      elim line [ none ↦ (none, r') | some text ↦ (some (take (out_size - 1) text), r') ]

-- `ui_chat_ring_nonempty`, `ui_chat_ring_clear`, `ui_chat_ring_dropped`; a clear keeps the
-- count of drops.
unfoldable pub nonempty : Ring Bytes → Bool
nonempty r = ltb 0 r.count

unfoldable pub clear : Ring Bytes → Ring Bytes
clear r = record r { head = 0; tail = 0; count = 0 }

unfoldable pub dropped : Ring Bytes → ℕ
dropped r = r.dropped
