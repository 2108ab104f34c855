-- ===== src/Http/Throttle/Counts.antt =====
-- What the throttle writes, and how the wait grows (src/core/http/http_request.h).
use conan_exiles_teamspeak.Prelude.{
  ℕ, zero, suc, ◌+◌, ◌*◌, ◌^◌, ◌≤◌, ◌<◌, ◌≡◌, ◌∙◌, ap, true, ◌&&◌, Option, none, some, List, [],
  ◌∷◌, ltb, if◌then◌else◌, tick_sub, min, arith, Bool-cases, inl, inr, length, Spaced, Clocked,
}
use conan_exiles_teamspeak.Http.Throttle.{
  HttpThrottle, throttle_pass, backoff_first_ms, backoff_max_ms, backoff_loop, backoff_ms,
}

-- The lines tried at the given times: when one went out, and how many were swallowed in all.
pub record Log : Type 0 where
  pub written : List ℕ
  pub reported : ℕ
  pub left : ℕ

unfoldable pub run : HttpThrottle → ℕ → List ℕ → Log
run t interval_ms [] = record { written = []; reported = 0; left = t.suppressed }
run t interval_ms (now ∷ later) =
    let (hit, t') = throttle_pass t now interval_ms in
    let log = run t' interval_ms later in
    elim hit [
      | none ↦ log
      | some swallowed ↦ record log {
        written = now ∷ log.written;
        reported = swallowed + log.reported;
      }
    ]

-- Each line tried is written, or counted by the next line written, or waits to be counted: none
-- is lost as long as fewer than a million are swallowed in a row.
pub throttle_counts :
    (t : HttpThrottle) (interval_ms : ℕ) (tries : List ℕ)
    → t.suppressed + length tries < 1000000
    → let log = run t interval_ms tries in
      length log.written + log.reported + log.left ≡ t.suppressed + length tries
unfolding run throttle_pass
throttle_counts t interval_ms [] h = omega arith
throttle_counts t interval_ms (now ∷ later) h =
    let swallowed : HttpThrottle = record t { suppressed = t.suppressed + 1 } in
    let fresh : HttpThrottle = record { armed = true; last = now; suppressed = 0 } in
    elim (Bool-cases (t.armed && ltb (tick_sub now t.last) interval_ms)) [
      | inl e ↦
          let full : ltb t.suppressed 1000000 ≡ true = ground arith in
          ground (arith, throttle_counts swallowed interval_ms later (omega arith))
      | inr e ↦ ground (arith, throttle_counts fresh interval_ms later (omega arith))
    ]

abbrev pub last_line : HttpThrottle → Option ℕ
last_line t = if t.armed then some t.last else none

pass-log :
    (t : HttpThrottle) (interval_ms now last : ℕ) (ts : List ℕ)
    → (t.armed ≡ true → t.last ≤ last)
    → last ≤ now
    → now < 2 ^ 64
    → let (hit, t') = throttle_pass t now interval_ms in
      Spaced interval_ms (last_line t') ts
      → Spaced interval_ms (last_line t) (elim hit [ none ↦ ts | some n ↦ now ∷ ts ])
unfolding throttle_pass
pass-log t interval_ms now last ts h k big s = ground arith

pass-bound :
    (t : HttpThrottle) (interval_ms now last : ℕ)
    → (t.armed ≡ true → t.last ≤ last)
    → last ≤ now
    → (throttle_pass t now interval_ms).1.armed ≡ true
    → (throttle_pass t now interval_ms).1.last ≤ now
unfolding throttle_pass
pass-bound t interval_ms now last h k e = ground arith

run-written :
    (t : HttpThrottle) (interval_ms now : ℕ) (later : List ℕ)
    → (run t interval_ms (now ∷ later)).written ≡ elim (throttle_pass t now interval_ms).0 [
      | none ↦ (run (throttle_pass t now interval_ms).1 interval_ms later).written
      | some n ↦ now ∷ (run (throttle_pass t now interval_ms).1 interval_ms later).written
    ]
unfolding run
run-written t interval_ms now later = ground arith

-- The lines written lie at least the interval apart, and the first one after the line before,
-- when the clock never runs backwards.
pub throttle-Spaced :
    (t : HttpThrottle) (interval_ms last : ℕ) (tries : List ℕ)
    → (t.armed ≡ true → t.last ≤ last)
    → Clocked last tries
    → Spaced interval_ms (last_line t) (run t interval_ms tries).written
unfolding run
throttle-Spaced t interval_ms last [] h c = tt
throttle-Spaced t interval_ms last (now ∷ later) h c =
    let t' = (throttle_pass t now interval_ms).1 in
    rw (run-written t interval_ms now later) (
      pass-log t interval_ms now last (run t' interval_ms later).written h c.0 c.1
        (throttle-Spaced t' interval_ms now later (pass-bound t interval_ms now last h c.0) c.2))

pow_pos : (n : ℕ) → 0 < 2 ^ n
pow_pos zero = omega arith
pow_pos (suc n) = omega (arith, pow_pos n)

le_mul : (a k : ℕ) → 0 < k → a ≤ a * k
le_mul a zero h = absurd (omega arith)
le_mul a (suc k) h = grind arith

loop-power :
    (left ms : ℕ) → min backoff_max_ms (backoff_loop left ms) ≡ min backoff_max_ms (ms * 2 ^ left)
unfolding backoff_loop
loop-power zero ms = omega arith
loop-power (suc left) ms = elim (Bool-cases (ltb ms backoff_max_ms)) [
  | inl e ↦ rw e (loop-power left (ms * 2) ∙ ap (min backoff_max_ms) (grind arith))
  | inr e ↦ rw e (
      let grown : ms ≤ ms * 2 ^ suc left = le_mul ms (2 ^ suc left) (pow_pos (suc left)) in
      ground arith)
]

-- The wait doubles from a quarter of a second with each failure, up to five seconds.
pub backoff_ms_lem :
    (streak : ℕ) → backoff_ms (suc streak) ≡ min backoff_max_ms (backoff_first_ms * 2 ^ streak)
unfolding backoff_ms
backoff_ms_lem streak = ground (arith, loop-power streak backoff_first_ms)
