-- ===== src/Voice/Keys/Presses.antt =====
-- When a hotkey counts as pressed (src/core/voice/voice_modes.c).
use conan_exiles_teamspeak.Prelude.{
  ℕ, ◌+◌, ◌%◌, ◌^◌, ◌≤◌, ◌<◌, ◌≡◌, refl, ap, Bool, true, false, not, ◌&&◌, ◌||◌, none, some, List,
  [], ◌∷◌, ltb, leb, ◌==◌, if◌then◌else◌, arith, Bool-cases, inl, inr, ◌⊎◌, Spaced, ==_iff, put_at,
  if_either,
}
use conan_exiles_teamspeak.Voice.Keys.{
  Keys, KeyRead, poll_suppress_ms, take_note, detect, key_pressed_vk, notify_hotkey,
}

-- What happens to the keys between two resets: a question for a key, or the hotkey event of
-- TeamSpeak for one.
pub data KeyEvent : Type 0 where
  asked : ℕ → KeyRead → KeyEvent
  notified : ℕ → KeyEvent

-- The times at which `vk` counts as pressed.
unfoldable pub press_times : ℕ → Keys → List KeyEvent → List ℕ
press_times vk k [] = []
press_times vk k (notified other ∷ events) = press_times vk (notify_hotkey k other) events
press_times vk k (asked other r ∷ events) =
    let (pressed, k') = key_pressed_vk k other r in
    let later = press_times vk k' events in
    if pressed && other == vk then r.pressed_at ∷ later else later

-- The clock does not run backwards, and the sums stay a uint64.
abbrev pub KeyClock : ℕ → List KeyEvent → Type 0
KeyClock last [] = Unit
KeyClock last (notified other ∷ events) = KeyClock last events
KeyClock last (asked other r ∷ events) =
    (last ≤ r.noted_at)
    × (r.noted_at ≤ r.asked_at)
    × (r.asked_at ≤ r.pressed_at)
    × (r.pressed_at + poll_suppress_ms < 2 ^ 64)
    × KeyClock r.pressed_at events

pub notify_keeps :
    (k : Keys) (vk other : ℕ)
    → ((notify_hotkey k other).suppress_until vk ≡ k.suppress_until vk)
      × ((notify_hotkey k other).armed vk ≡ k.armed vk)
unfolding notify_hotkey
notify_keeps k vk other =
    if_either
      (λ (x : Keys). (x.suppress_until vk ≡ k.suppress_until vk) × (x.armed vk ≡ k.armed vk))
      (not (other == 0) && ltb other 256) (λ valid. (refl, refl)) (λ invalid. (refl, refl))

-- One question keeps the last press behind the wait, and a new press comes after the wait.
Waits : ℕ → ℕ → KeyRead → ℕ → Bool × Keys → Type 0
Waits vk other r last (pressed, k') =
    (((pressed && other == vk) ≡ true)
      × (last + poll_suppress_ms ≤ r.pressed_at)
      × (r.pressed_at + poll_suppress_ms ≤ k'.suppress_until vk))
    ⊎ (((pressed && other == vk) ≡ false) × (last + poll_suppress_ms ≤ k'.suppress_until vk))

take_note_lem :
    (vk other : ℕ) (k : Keys) (r : KeyRead) (last : ℕ)
    → last ≤ r.noted_at
    → r.noted_at + poll_suppress_ms < 2 ^ 64
    → last + poll_suppress_ms ≤ k.suppress_until vk
    → last + poll_suppress_ms ≤ (take_note k other r).suppress_until vk
unfolding take_note
take_note_lem vk other k r last h bound waits =
    if_either (λ (x : Keys). last + poll_suppress_ms ≤ x.suppress_until vk)
      (k.notify_requested other)
      (λ noted.
        if_either (λ n. last + poll_suppress_ms ≤ n) (vk == other) (λ same. ground arith)
          (λ different. waits))
      (λ none. waits)

put_same : (f : ℕ → ℕ) (i j v : ℕ) → (i == j) ≡ true → put_at f i v j ≡ v
put_same f i j v h = ground arith

put_other : (f : ℕ → ℕ) (i j v : ℕ) → (i == j) ≡ false → put_at f i v j ≡ f j
put_other f i j v h = ground arith

detect_lem :
    (vk other : ℕ) (k : Keys) (r : KeyRead) (last : ℕ)
    → r.asked_at ≤ r.pressed_at
    → r.pressed_at + poll_suppress_ms < 2 ^ 64
    → k.suppress_until other ≤ r.asked_at
    → last + poll_suppress_ms ≤ k.suppress_until vk
    → Waits vk other r last (detect k other r)
unfolding detect Waits
detect_lem vk other k r last h bound reached waits =
    let seen = if r.sync_down then k else record k { armed = put_at k.armed other true } in
    let kept : seen.suppress_until vk ≡ k.suppress_until vk =
      if_either (λ (x : Keys). x.suppress_until vk ≡ k.suppress_until vk) r.sync_down (λ down. refl)
        (λ up. refl) in
    let wait = (r.pressed_at + poll_suppress_ms) % 2 ^ 64 in
    let quiet : (b : Bool) → Waits vk other r last (false, seen) = λ b. inr (refl, omega arith) in
    if_either (Waits vk other r last) (not r.async_down && not r.sync_down) (λ up. quiet true)
      (λ down.
        if_either (Waits vk other r last) (not (seen.armed other)) (λ unarmed. quiet true)
          (λ armed. elim (Bool-cases (other == vk)) [
            | inl same ↦
                let there = ap k.suppress_until ((==_iff other vk).0 same) in
                let written = put_same seen.suppress_until other vk wait same in
                inl (same, omega arith, omega arith)
            | inr different ↦
                let left = put_other seen.suppress_until other vk wait different in
                inr (different, omega arith)
          ]))

key_pressed_vk_lem :
    (vk other : ℕ) (k : Keys) (r : KeyRead) (last : ℕ)
    → last ≤ r.noted_at
    → r.noted_at ≤ r.asked_at
    → r.asked_at ≤ r.pressed_at
    → r.pressed_at + poll_suppress_ms < 2 ^ 64
    → last + poll_suppress_ms ≤ k.suppress_until vk
    → Waits vk other r last (key_pressed_vk k other r)
unfolding key_pressed_vk Waits
key_pressed_vk_lem vk other k r last h₁ h₂ h₃ bound waits =
    let noted = take_note k other r in
    let still = take_note_lem vk other k r last h₁ (omega arith) waits in
    if_either (Waits vk other r last) (other == 0 || leb 256 other) (λ invalid. inr (refl, waits))
      (λ valid.
        if_either (Waits vk other r last) (ltb r.asked_at (noted.suppress_until other))
          (λ early. inr (refl, still))
          (λ late. detect_lem vk other noted r last h₃ bound (ground arith) still))

after_press :
    (vk other : ℕ) (r : KeyRead) (last : ℕ) (x : Bool × Keys)
    → Waits vk other r last x
    → (x.0 && other == vk) ≡ true
    → (last + poll_suppress_ms ≤ r.pressed_at)
      × (r.pressed_at + poll_suppress_ms ≤ x.1.suppress_until vk)
unfolding Waits
after_press vk other r last x (inl (e, a, b)) h = (a, b)
after_press vk other r last x (inr (e, a)) h = ground arith

after_none :
    (vk other : ℕ) (r : KeyRead) (last : ℕ) (x : Bool × Keys)
    → Waits vk other r last x
    → (x.0 && other == vk) ≡ false
    → last + poll_suppress_ms ≤ x.1.suppress_until vk
unfolding Waits
after_none vk other r last x (inl (e, a, b)) h = ground arith
after_none vk other r last x (inr (e, a)) h = a

-- A press leaves its wait, whatever was before.
leaves_wait :
    (vk other : ℕ) (k : Keys) (r : KeyRead)
    → r.pressed_at + poll_suppress_ms < 2 ^ 64
    → ((key_pressed_vk k other r).0 && other == vk) ≡ true
    → r.pressed_at + poll_suppress_ms ≤ (key_pressed_vk k other r).1.suppress_until vk
unfolding key_pressed_vk detect
leaves_wait vk other k r bound =
    let Goal : Bool × Keys → Type 0 =
      λ x. (x.0 && other == vk) ≡ true → r.pressed_at + poll_suppress_ms ≤ x.1.suppress_until vk in
    let noted = take_note k other r in
    let seen =
      if r.sync_down then noted else record noted { armed = put_at noted.armed other true } in
    let wait = (r.pressed_at + poll_suppress_ms) % 2 ^ 64 in
    if_either Goal (other == 0 || leb 256 other) (λ invalid h. ground arith)
      (λ valid.
        if_either Goal (ltb r.asked_at (noted.suppress_until other)) (λ early h. ground arith)
          (λ late.
            if_either Goal (not r.async_down && not r.sync_down) (λ up h. ground arith)
              (λ down.
                if_either Goal (not (seen.armed other)) (λ unarmed h. ground arith)
                  (λ armed same.
                    let written = put_same seen.suppress_until other vk wait same in omega arith))))

-- After a press of the key that has left its wait.
presses_after :
    (vk : ℕ) (events : List KeyEvent) (k : Keys) (last clock : ℕ)
    → last ≤ clock
    → last + poll_suppress_ms ≤ k.suppress_until vk
    → KeyClock clock events
    → Spaced poll_suppress_ms (some last) (press_times vk k events)
unfolding press_times
presses_after vk [] k last clock h waits c = tt
presses_after vk (notified other ∷ events) k last clock h waits c =
    let (same, armed) = notify_keeps k vk other in
    presses_after vk events (notify_hotkey k other) last clock h (omega arith) c
presses_after vk (asked other r ∷ events) k last clock h waits (c₁, c₂, c₃, bound, c) =
    let asked_now = key_pressed_vk k other r in
    let w = key_pressed_vk_lem vk other k r last (omega arith) c₂ c₃ bound waits in
    if_either (Spaced poll_suppress_ms (some last)) (asked_now.0 && other == vk)
      (λ pressed.
        let (waited, waits') = after_press vk other r last asked_now w pressed in
        (
          waited,
          presses_after vk events asked_now.1 r.pressed_at r.pressed_at (omega arith) waits' c,
        ))
      (λ unpressed.
        presses_after vk events asked_now.1 last r.pressed_at (omega arith)
          (after_none vk other r last asked_now w unpressed) c)

-- In a run without a reset, on a clock that does not run backwards, a key counts as pressed at
-- most once in 300 ms, whatever other keys are asked for, however often other threads report
-- hotkeys, and whatever the two key states say.
pub press_times-Spaced :
    (vk : ℕ) (events : List KeyEvent) (k : Keys) (clock : ℕ)
    → KeyClock clock events
    → Spaced poll_suppress_ms none (press_times vk k events)
unfolding press_times
press_times-Spaced vk [] k clock c = tt
press_times-Spaced vk (notified other ∷ events) k clock c =
    press_times-Spaced vk events (notify_hotkey k other) clock c
press_times-Spaced vk (asked other r ∷ events) k clock (c₁, c₂, c₃, bound, c) =
    let asked_now = key_pressed_vk k other r in
    if_either (Spaced poll_suppress_ms none) (asked_now.0 && other == vk)
      (λ pressed.
        presses_after vk events asked_now.1 r.pressed_at r.pressed_at (omega arith)
          (leaves_wait vk other k r bound pressed) c)
      (λ unpressed. press_times-Spaced vk events asked_now.1 r.pressed_at c)
