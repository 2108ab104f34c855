-- ===== src/Tests/Voices.antt =====
-- The voice modes at concrete inputs.
use conan_exiles_teamspeak.Prelude.{
  ℕ, ◌+◌, ◌-◌, ◌*◌, ◌/◌, ◌≡◌, refl, true, false, none, some, [], ◌∷◌, ltb, leb, ◌==◌, arith, Spaced,
  Bool,
}
use conan_exiles_teamspeak.Floats.{Floats}
use conan_exiles_teamspeak.Voice.Mode.{
  Hooks, ModeEffect, chat_line, invalidated, send_signaled, overlay_synced, changed,
}
use conan_exiles_teamspeak.Voice.Mode.Announces.{Switching}
use conan_exiles_teamspeak.Voice.Keys.{
  Keys, KeyRead, key_pressed_vk, take_note, detect, poll_suppress_ms,
}
use conan_exiles_teamspeak.Voice.Keys.Presses.{asked, press_times, press_times-Spaced}
use conan_exiles_teamspeak.Voice.Keys.Held.{held_key_lem}
use conan_exiles_teamspeak.Voice.Zone.{HubZone, zone_resolve}
use conan_exiles_teamspeak.Voice.Zone.Inside.{IsResolved, zone_resolve-IsResolved}
use conan_exiles_teamspeak.Voice.Distance.{Modes, VoiceModeProfile, get_distance}
use conan_exiles_teamspeak.Voice.Distance.Limits.{
  IsWithin, limit_of, server_limits, get_distance-IsWithin,
}

abbrev all_hooks : Hooks
all_hooks = record {
  notify_chat = true;
  invalidate_cepos_cache = true;
  signal_send_pending = true;
  overlay_sync = true;
  mode_changed = true;
}

-- Two switches; the thread of the second is the first to announce.
abbrev switching : Switching
switching = record {
  mode = 0;
  calls = 0 ∷ 2 ∷ [];
  waiting =
      (invalidated ∷ send_signaled ∷ overlay_synced ∷ changed ∷ [])
      ∷ (chat_line 2 ∷ invalidated ∷ send_signaled ∷ overlay_synced ∷ changed ∷ [])
      ∷ [];
  announced = chat_line 0 ∷ [];
}

abbrev is_line : ModeEffect → Bool
is_line (chat_line mode) = true
is_line _ = false

abbrev read : ℕ → Bool → KeyRead
read time down = record {
  noted_at = time;
  asked_at = time;
  pressed_at = time;
  async_down = down;
  sync_down = down;
}

abbrev armed_keys : Keys
armed_keys = record {
  armed = λ vk. true;
  suppress_until = λ vk. 0;
  reset_requested = false;
  notify_requested = λ vk. false;
}

press_times-Spaced_example : Spaced poll_suppress_ms none (
    press_times 97 armed_keys
      (asked 97 (read 1000 true) ∷ asked 97 (read 1100 false) ∷ asked 97 (read 1500 true) ∷ []))
press_times-Spaced_example =
    press_times-Spaced 97
      (asked 97 (read 1000 true) ∷ asked 97 (read 1100 false) ∷ asked 97 (read 1500 true) ∷ [])
      armed_keys 0
      (
        omega arith,
        omega arith,
        omega arith,
        omega arith,
        (
          omega arith,
          omega arith,
          omega arith,
          omega arith,
          (omega arith, omega arith, omega arith, omega arith, tt),
        ),
      )

first_press : (key_pressed_vk armed_keys 97 (read 1000 true)).0 ≡ true
unfolding key_pressed_vk take_note detect
first_press = refl

held_key_lem_example :
    press_times 97 armed_keys (
      asked 97 (read 1000 true)
      ∷ asked 97 (read 1500 true)
      ∷ asked 98 (read 1510 false)
      ∷ asked 97 (read 2000 true)
      ∷ [])
    ≡ 1000 ∷ []
held_key_lem_example =
    held_key_lem 97
      (asked 97 (read 1500 true) ∷ asked 98 (read 1510 false) ∷ asked 97 (read 2000 true) ∷ [])
      armed_keys (read 1000 true) first_press
      ((λ e. refl), ((λ e. absurd (omega (arith, e))), ((λ e. refl), tt)))

abbrev numbers : Floats ℕ
numbers = record {
  less = ltb;
  at_most = leb;
  equal = λ a b. a == b;
  add = λ a b. a + b;
  subtract = λ a b. a - b;
  multiply = λ a b. a * b;
  divide = λ a b. a / b;
  fabsf = λ a. a;
  sqrtf = λ a. a;
  zero_f = 0;
  one = 1;
  hundred = 100;
  hundredth = 1;
  tiny = 0;
  fifty = 50;
}

abbrev square : HubZone ℕ
square = record {
  x1 = 1;
  z1 = 1;
  x2 = 1;
  z2 = 9;
  x3 = 9;
  z3 = 9;
  x4 = 9;
  z4 = 1;
  ground_y = 0;
  top_y = 0;
  whisper_dist = 2;
  normal_dist = 30;
  shout_dist = 40;
  soundproof = false;
  reverb = false;
}

zone_resolve-IsResolved_example :
    IsResolved numbers
      (square ∷ [])
      5
      5
      5
      (1 ∷ 100 ∷ 1 ∷ [])
      (zone_resolve numbers (square ∷ []) 5 5 5)
zone_resolve-IsResolved_example = zone_resolve-IsResolved numbers (square ∷ []) 5 5 5

abbrev modes : ℕ → ℕ → ℕ → Modes ℕ
modes a b c = record { whispered = a; spoken = b; shouted = c }

abbrev profile : VoiceModeProfile ℕ
profile = record {
  zones = square ∷ [];
  hub = record { lowest = modes 1 5 10; highest = modes 3 20 60 };
  race = some (record { lowest = modes 2 6 12; highest = modes 4 25 50 });
}

get_distance-IsWithin_example :
    IsWithin numbers
      (limit_of numbers (server_limits numbers profile).lowest 1)
      (limit_of numbers (server_limits numbers profile).highest 1)
      (get_distance numbers (modes 2 10 40) (some profile) (some (5, 5, 5)) 1)
get_distance-IsWithin_example =
    get_distance-IsWithin numbers (modes 2 10 40) profile (some (5, 5, 5)) 1 (λ x. ground arith)
