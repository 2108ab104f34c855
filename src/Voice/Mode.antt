-- ===== src/Voice/Mode.antt =====
-- The current voice mode: who switches it announces it (src/core/voice/voice_modes.c).
pub mod Announces
use conan_exiles_teamspeak.Prelude.{
  ℕ, ◌+◌, Bool, not, ◌&&◌, List, [], ◌∷◌, ◌++◌, ◌==◌, if◌then◌else◌,
}

-- `VoiceMode`
abbrev pub whisper : ℕ
whisper = 0

abbrev pub normal : ℕ
normal = 1

abbrev pub shout : ℕ
shout = 2

-- Which of the actions of `VoiceModeHooks` are set.
pub record Hooks : Type 0 where
  pub notify_chat : Bool
  pub invalidate_cepos_cache : Bool
  pub signal_send_pending : Bool
  pub overlay_sync : Bool
  pub mode_changed : Bool

-- The calls of the hooks; the chat line with the name and the distance of the mode.
pub data ModeEffect : Type 0 where
  chat_line : ℕ → ModeEffect
  invalidated send_signaled overlay_synced changed : ModeEffect

abbrev pub when : Bool → ModeEffect → List ModeEffect
when b e = if b then e ∷ [] else []

-- `voice_mode_apply`, past the exchange: the line, then the hooks in order.
unfoldable pub announce : Hooks → ℕ → List ModeEffect
announce h mode =
    when h.notify_chat (chat_line mode)
    ++ (when h.invalidate_cepos_cache invalidated
        ++ (when h.signal_send_pending send_signaled
            ++ (when h.overlay_sync overlay_synced ++ when h.mode_changed changed)))

-- The mode that a call is for.
abbrev pub known_mode : ℕ → ℕ
known_mode mode = if not (mode == whisper) && not (mode == shout) then normal else mode

-- `voice_mode_apply`: the exchange of the mode, which is one step, and the calls that its thread
-- makes behind it if the mode was another one. No lock joins the two: other threads may exchange
-- the mode and make calls of their own in between.
unfoldable pub apply : Hooks → ℕ → ℕ → ℕ × List ModeEffect
apply h current mode =
    (known_mode mode, if current == known_mode mode then [] else announce h (known_mode mode))

-- `voice_mode_toggle`
unfoldable pub toggle : Hooks → ℕ → ℕ × List ModeEffect
unfolding apply
toggle h current =
    if current == whisper
    then apply h current normal
    else if current == normal
    then apply h current shout
    else apply h current whisper
