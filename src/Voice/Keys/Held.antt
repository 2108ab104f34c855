-- ===== src/Voice/Keys/Held.antt =====
-- A key that is held down (src/core/voice/voice_modes.c).
use conan_exiles_teamspeak.Prelude.{
  ℕ, ◌≡◌, ◌≢◌, refl, ◌∙◌, ap, sym, Bool, true, false, not, ◌&&◌, ◌||◌, List, [], ◌∷◌, ltb, leb,
  ◌==◌, if◌then◌else◌, arith, ==_iff, put_at, if_either,
}
use conan_exiles_teamspeak.Voice.Keys.{
  Keys, KeyRead, take_note, detect, key_pressed_vk, notify_hotkey,
}
use conan_exiles_teamspeak.Voice.Keys.Presses.{KeyEvent, asked, notified, press_times, notify_keeps}

-- A write elsewhere, or of what is there.
armed_other :
    (f : ℕ → Bool) (i j : ℕ) (v : Bool) → (i ≡ j → v ≡ false) → f j ≡ false → put_at f i v j ≡ false
armed_other f i j v h off =
    if_either (λ b. b ≡ false) (j == i) (λ same. h (sym ((==_iff j i).0 same))) (λ other. off)

held_detect :
    (vk other : ℕ) (k : Keys) (r : KeyRead)
    → k.armed vk ≡ false
    → (other ≡ vk → r.sync_down ≡ true)
    → let x = detect k other r in (x.1.armed vk ≡ false) × ((x.0 && other == vk) ≡ false)
unfolding detect
held_detect vk other k r off down =
    let Goal : Bool × Keys → Type 0 =
      λ x. (x.1.armed vk ≡ false) × ((x.0 && other == vk) ≡ false) in
    let seen = if r.sync_down then k else record k { armed = put_at k.armed other true } in
    let still : seen.armed vk ≡ false =
      if_either (λ (x : Keys). x.armed vk ≡ false) r.sync_down (λ d. off)
        (λ up. armed_other k.armed other vk true (λ same. ground (arith, down same)) off) in
    if_either Goal (not r.async_down && not r.sync_down) (λ up. (still, refl))
      (λ pressed.
        if_either Goal (not (seen.armed other)) (λ unarmed. (still, refl))
          (λ armed.
            let different : other ≢ vk = λ same. ground (arith, ap seen.armed same) in
            (armed_other seen.armed other vk false (λ same. refl) still, ground arith)))

held_question :
    (vk other : ℕ) (k : Keys) (r : KeyRead)
    → k.armed vk ≡ false
    → (other ≡ vk → r.sync_down ≡ true)
    → let x = key_pressed_vk k other r in (x.1.armed vk ≡ false) × ((x.0 && other == vk) ≡ false)
unfolding key_pressed_vk take_note
held_question vk other k r off down =
    let Goal : Bool × Keys → Type 0 =
      λ x. (x.1.armed vk ≡ false) × ((x.0 && other == vk) ≡ false) in
    let noted = take_note k other r in
    let still : noted.armed vk ≡ false =
      if_either (λ (x : Keys). x.armed vk ≡ false) (k.notify_requested other)
        (λ noted_now. ground arith) (λ none. off) in
    if_either Goal (other == 0 || leb 256 other) (λ invalid. (off, refl))
      (λ valid.
        if_either Goal (ltb r.asked_at (noted.suppress_until other)) (λ early. (still, refl))
          (λ late. held_detect vk other noted r still down))

-- A run in which every question for `vk` finds the key down.
abbrev pub Held : ℕ → List KeyEvent → Type 0
Held vk [] = Unit
Held vk (notified other ∷ events) = Held vk events
Held vk (asked other r ∷ events) = (other ≡ vk → r.sync_down ≡ true) × Held vk events

write_here : (f : ℕ → Bool) (i : ℕ) → put_at f i false i ≡ false
write_here f i = if_either (λ b. b ≡ false) (i == i) (λ same. refl) (λ other. absurd (ground arith))

press_unarms :
    (vk : ℕ) (k : Keys) (r : KeyRead)
    → (key_pressed_vk k vk r).0 ≡ true
    → (key_pressed_vk k vk r).1.armed vk ≡ false
unfolding key_pressed_vk detect
press_unarms vk k r =
    let Goal : Bool × Keys → Type 0 = λ x. x.0 ≡ true → x.1.armed vk ≡ false in
    let noted = take_note k vk r in
    let seen = if r.sync_down then noted else record noted { armed = put_at noted.armed vk true } in
    if_either Goal (vk == 0 || leb 256 vk) (λ e p. absurd (ground arith))
      (λ valid.
        if_either Goal (ltb r.asked_at (noted.suppress_until vk)) (λ e p. absurd (ground arith))
          (λ late.
            if_either Goal (not r.async_down && not r.sync_down) (λ e p. absurd (ground arith))
              (λ down.
                if_either Goal (not (seen.armed vk)) (λ e p. absurd (ground arith))
                  (λ armed p. write_here seen.armed vk))))

unarmed_stays :
    (vk : ℕ) (events : List KeyEvent) (k : Keys)
    → k.armed vk ≡ false
    → Held vk events
    → press_times vk k events ≡ []
unfolding press_times
unarmed_stays vk [] k off held = refl
unarmed_stays vk (notified other ∷ events) k off held =
    unarmed_stays vk events (notify_hotkey k other) ((notify_keeps k vk other).1 ∙ off) held
unarmed_stays vk (asked other r ∷ events) k off (down, held) =
    let asked_now = key_pressed_vk k other r in
    let (stays, quiet) = held_question vk other k r off down in
    rw quiet (unarmed_stays vk events asked_now.1 stays held)

-- A press of a key counts once while the key is held down: when a question for it counts, the
-- run that begins there has that press and no other, whatever time passes and whatever other
-- keys are asked for. The hotkey event may be noted in between; a reset of the key tracking,
-- which arms every key, is not part of the run.
pub held_key_lem :
    (vk : ℕ) (events : List KeyEvent) (k : Keys) (r : KeyRead)
    → (key_pressed_vk k vk r).0 ≡ true
    → Held vk events
    → press_times vk k (asked vk r ∷ events) ≡ r.pressed_at ∷ []
unfolding press_times
held_key_lem vk events k r pressed held =
    let later =
      unarmed_stays vk events (key_pressed_vk k vk r).1 (press_unarms vk k r pressed) held in
    rw (pressed, (==_iff vk vk).1 refl, later) refl
