-- ===== src/Voice/Keys.antt =====
-- The hotkeys of the voice modes, polled by the key thread (src/core/voice/voice_modes.c).
pub mod Presses
pub mod Held
use conan_exiles_teamspeak.Prelude.{
  ℕ, ◌+◌, ◌%◌, ◌^◌, Bool, true, false, not, ◌&&◌, ◌||◌, Option, none, some, List, [], ◌∷◌, ltb, leb,
  ◌==◌, if◌then◌else◌, put_at,
}
use conan_exiles_teamspeak.Voice.Mode.{Hooks, ModeEffect, whisper, normal, shout, apply, toggle}

-- `VOICE_POLL_SUPPRESS_MS`
abbrev pub poll_suppress_ms : ℕ
poll_suppress_ms = 300

-- The arrays by virtual key code, and the requests of other threads.
pub record Keys : Type 0 where
  pub armed : ℕ → Bool
  pub suppress_until : ℕ → ℕ
  pub reset_requested : Bool
  pub notify_requested : ℕ → Bool

-- What one question for a key reads: the clock at its three places, and both key states.
pub record KeyRead : Type 0 where
  pub noted_at : ℕ
  pub asked_at : ℕ
  pub pressed_at : ℕ
  pub async_down : Bool
  pub sync_down : Bool

-- The TeamSpeak hotkey event has handled this press: the poll swallows it.
unfoldable pub take_note : Keys → ℕ → KeyRead → Keys
take_note k vk r =
    if k.notify_requested vk
    then record k {
      notify_requested = put_at k.notify_requested vk false;
      suppress_until = put_at k.suppress_until vk ((r.noted_at + poll_suppress_ms) % 2 ^ 64);
      armed = put_at k.armed vk false;
    }
    else k

-- The key is armed as soon as it is seen released; a press of an armed key counts.
unfoldable pub detect : Keys → ℕ → KeyRead → Bool × Keys
detect k vk r =
    let seen = if r.sync_down then k else record k { armed = put_at k.armed vk true } in
    if not r.async_down && not r.sync_down
    then (false, seen)
    else if not (seen.armed vk)
    then (false, seen)
    else (
      true,
      record seen {
        armed = put_at seen.armed vk false;
        suppress_until = put_at seen.suppress_until vk ((r.pressed_at + poll_suppress_ms) % 2 ^ 64);
      },
    )

-- `voice_key_pressed_vk`; a negative code is as 0.
unfoldable pub key_pressed_vk : Keys → ℕ → KeyRead → Bool × Keys
unfolding take_note detect
key_pressed_vk k vk r =
    let noted = take_note k vk r in
    if vk == 0 || leb 256 vk
    then (false, k)
    else if ltb r.asked_at (noted.suppress_until vk)
    then (false, noted)
    else detect noted vk r

-- The second key of a numpad digit: `VK_END`, `VK_DOWN`, `VK_NEXT`.
abbrev pub twin : ℕ → Option ℕ
twin vk =
    if vk == 97 then some 35 else if vk == 98 then some 40 else if vk == 99 then some 34 else none

-- `voice_key_pressed_configured`, with the reads of its two questions.
unfoldable pub key_pressed : Keys → ℕ → KeyRead → KeyRead → Bool × Keys
unfolding key_pressed_vk
key_pressed k vk first second =
    let (pressed, k') = key_pressed_vk k vk first in
    if vk == 0 || leb 256 vk
    then (false, k)
    else if pressed
    then (true, k')
    else elim (twin vk) [ none ↦ (false, k') | some other ↦ key_pressed_vk k' other second ]

-- `voice_mode_reset_key_tracking` and `voice_mode_notify_hotkey`
unfoldable pub reset_key_tracking : Keys → Keys
reset_key_tracking k = record k { reset_requested = true }

unfoldable pub notify_hotkey : Keys → ℕ → Keys
notify_hotkey k vk =
    if not (vk == 0) && ltb vk 256
    then record k { notify_requested = put_at k.notify_requested vk true }
    else k

-- The deferred reset.
unfoldable pub apply_reset : Keys → Keys
apply_reset k =
    if k.reset_requested
    then record k { reset_requested = false; armed = λ vk. true; suppress_until = λ vk. 0 }
    else k

-- The keys of the configuration.
pub record KeyConfig : Type 0 where
  pub whisper_key : ℕ
  pub shout_key : ℕ
  pub normal_key : ℕ
  pub enable_voice_toggle : Bool
  pub voice_toggle_key : ℕ

-- What a key does to the mode.
pub data KeyAction : Type 0 where
  to_mode : ℕ → KeyAction
  to_next : KeyAction

-- The first pressed key decides; each key has the two reads at its place.
unfoldable pub first_pressed :
    Keys → (ℕ → KeyRead) → ℕ → List (ℕ × KeyAction) → Option KeyAction × Keys
unfolding key_pressed
first_pressed k reads i [] = (none, k)
first_pressed k reads i ((vk, action) ∷ more) =
    let (pressed, k') = key_pressed k vk (reads i) (reads (i + 1)) in
    let later = first_pressed k' reads (i + 2) more in if pressed then (some action, k') else later

abbrev pub bindings : KeyConfig → List (ℕ × KeyAction)
bindings cfg =
    (cfg.whisper_key, to_mode whisper)
    ∷ (cfg.shout_key, to_mode shout)
    ∷ (cfg.normal_key, to_mode normal)
    ∷ (if cfg.enable_voice_toggle then (cfg.voice_toggle_key, to_next) ∷ [] else [])

-- `voice_mode_hotkey_poll`, with the reads of its questions in order.
unfoldable pub hotkey_poll :
    Hooks → KeyConfig → (ℕ → KeyRead) → Keys → ℕ → Keys × ℕ × List ModeEffect
unfolding first_pressed apply_reset
hotkey_poll h cfg reads k mode =
    let (action, k') = first_pressed (apply_reset k) reads 0 (bindings cfg) in
    elim action [
      | none ↦ (k', mode, [])
      | some (to_mode m) ↦ let (mode', effects) = apply h mode m in (k', mode', effects)
      | some to_next ↦ let (mode', effects) = toggle h mode in (k', mode', effects)
    ]
