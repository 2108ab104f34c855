-- ===== src/Channel/Backoff/Schedule.antt =====
-- The schedule: 5, 10, 30, then 60 seconds for failures in a row to one target.
use conan_exiles_teamspeak.Prelude.{
  ℕ, zero, suc, ◌+◌, ◌%◌, ◌^◌, ◌≤◌, ◌<◌, ◌≡◌, ◌≢◌, refl, ◌∙◌, ap, sym, false, List, [], ◌∷◌, ltb,
  ◌==◌, if◌then◌else◌, min, arith, length,
}
use conan_exiles_teamspeak.Channel.Backoff.{
  ChanMoveBackoff, delay_ms, on_failure, blocks, backoff_max_ms,
}
use native.Mathlib.Decide.{dec_lt}

-- Failures of moves to one target, at the given times.
pub fail_all : ChanMoveBackoff → ℕ → List ℕ → ChanMoveBackoff
fail_all b target [] = b
fail_all b target (t ∷ ts) = fail_all (on_failure b target t).0 target ts

on_failure-count :
    (b : ChanMoveBackoff) (target t n : ℕ)
    → b.target ≡ target
    → b.fail_count ≡ min n 1000
    → let b' = (on_failure b target t).0 in
      (b'.target ≡ target) × (b'.fail_count ≡ min (n + 1) 1000)
unfolding on_failure
on_failure-count b target t n h k = ground arith

fail_all-count :
    (ts : List ℕ) (b : ChanMoveBackoff) (target n : ℕ)
    → b.target ≡ target
    → b.fail_count ≡ min n 1000
    → let b' = fail_all b target ts in
      (b'.target ≡ target) × (b'.fail_count ≡ min (n + length ts) 1000)
unfolding fail_all
fail_all-count [] b target n h k = omega arith
fail_all-count (t ∷ ts) b target n h k =
    let (h', k') = on_failure-count b target t n h k in
    omega (arith, fail_all-count ts (on_failure b target t).0 target (n + 1) h' k')

first_failure :
    (b : ChanMoveBackoff) (target t : ℕ)
    → b.target ≢ target
    → let b' = (on_failure b target t).0 in (b'.target ≡ target) × (b'.fail_count ≡ 1)
unfolding on_failure
first_failure b target t h = ground arith

delay_ms-flat : (n : ℕ) → 4 ≤ n → delay_ms n ≡ backoff_max_ms
unfolding delay_ms
delay_ms-flat zero h = absurd (omega arith)
delay_ms-flat (suc zero) h = absurd (omega arith)
delay_ms-flat (suc (suc zero)) h = absurd (omega arith)
delay_ms-flat (suc (suc (suc zero))) h = absurd (omega arith)
delay_ms-flat (suc (suc (suc (suc n)))) h = refl

delay_ms-le : (n : ℕ) → delay_ms n ≤ backoff_max_ms
unfolding delay_ms
delay_ms-le zero = omega arith
delay_ms-le (suc zero) = omega arith
delay_ms-le (suc (suc zero)) = omega arith
delay_ms-le (suc (suc (suc zero))) = omega arith
delay_ms-le (suc (suc (suc (suc n)))) = omega arith

-- The count is saturated where the schedule is flat.
delay_ms-cap : (n : ℕ) → delay_ms (min n 1000) ≡ delay_ms n
delay_ms-cap n = elim (dec_lt n 1000) [
  | yes p ↦ ap delay_ms (omega arith)
  | no p ↦ delay_ms-flat (min n 1000) (omega arith) ∙ sym (delay_ms-flat n (omega arith))
]

one_more :
    (earlier : List ℕ) (b : ChanMoveBackoff) (target last : ℕ)
    → b.target ≢ target
    → (on_failure (fail_all b target earlier) target last).0.fail_count
      ≡ min (length earlier + 1) 1000
unfolding fail_all
one_more [] b target last h = omega (arith, first_failure b target last h)
one_more (t ∷ ts) b target last h =
    let (h1, k1) = first_failure b target t h in
    let (h2, k2) = fail_all-count ts (on_failure b target t).0 target 1 h1 k1 in
    omega (
      arith,
      on_failure-count (fail_all (on_failure b target t).0 target ts) target last (1 + length ts) h2
          k2,
    )

on_failure-lem :
    (b : ChanMoveBackoff) (target last : ℕ)
    → let (b', delay) = on_failure b target last in
      (b'.target ≡ target)
      × (delay ≡ delay_ms b'.fail_count)
      × (b'.retry_at_ms ≡ (last + delay) % 2 ^ 64)
unfolding on_failure
on_failure-lem b target last = (refl, refl, refl)

-- The wait after the `k`-th failure in a row, in milliseconds.
abbrev pub wait_ms : ℕ → ℕ
wait_ms k = if k == 1 then 5000 else if k == 2 then 10000 else if k == 3 then 30000 else 60000

delay_ms-wait : (k : ℕ) → 1 ≤ k → delay_ms k ≡ wait_ms k
unfolding delay_ms
delay_ms-wait zero h = absurd (omega arith)
delay_ms-wait (suc zero) h = refl
delay_ms-wait (suc (suc zero)) h = refl
delay_ms-wait (suc (suc (suc zero))) h = refl
delay_ms-wait (suc (suc (suc (suc n)))) h = ground arith

-- The `k`-th failure in a row to one target waits 5 s, 10 s, 30 s for k = 1, 2, 3 and 60 s from
-- then on, however many there are: until that time exactly this target is blocked.
pub backoff_schedule :
    (b : ChanMoveBackoff) (target : ℕ) (earlier : List ℕ) (last now : ℕ)
    → b.target ≢ target
    → target ≢ 0
    → last + 60000 < 2 ^ 64
    → let (b', delay) = on_failure (fail_all b target earlier) target last in
      (delay ≡ wait_ms (length earlier + 1))
      × (blocks b' target now ≡ ltb now (last + wait_ms (length earlier + 1)))
      × ((other : ℕ) → other ≢ target → blocks b' other now ≡ false)
unfolding blocks
backoff_schedule b target earlier last now h z fit =
    let s = fail_all b target earlier in
    let b' = (on_failure s target last).0 in
    let (same, waits, at) = on_failure-lem s target last in
    let k = length earlier + 1 in
    let count = one_more earlier b target last h in
    let listed = delay_ms-wait k (omega arith) in
    let delay : (on_failure s target last).1 ≡ wait_ms k =
      waits ∙ ap delay_ms count ∙ delay_ms-cap k ∙ listed in
    let until : b'.retry_at_ms ≡ last + wait_ms k =
      omega (arith, at, delay, listed, delay_ms-le k) in
    let nonzero : b'.fail_count ≢ 0 = omega (arith, count) in
    (delay, ground (arith, same, until, nonzero), λ other ne. ground (arith, same))
