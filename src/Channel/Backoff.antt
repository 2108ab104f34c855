-- ===== src/Channel/Backoff.antt =====
-- The retry schedule of rejected channel moves (src/ts/channel/chan_move_backoff.h).
pub mod Schedule
use conan_exiles_teamspeak.Prelude.{
  ℕ, zero, suc, ◌+◌, ◌%◌, ◌^◌, Bool, not, ◌&&◌, ltb, leb, ◌==◌, if◌then◌else◌,
}

-- The waits of the schedule.
abbrev pub backoff_max_ms : ℕ
backoff_max_ms = 60000

abbrev pub backoff_loop_max_ms : ℕ
backoff_loop_max_ms = 10000

-- `ChanMoveBackoff`
pub record ChanMoveBackoff : Type 0 where
  pub target : ℕ
  pub fail_count : ℕ
  pub retry_at_ms : ℕ

-- `chan_backoff_delay_ms`
unfoldable pub delay_ms : ℕ → ℕ
delay_ms zero = 0
delay_ms (suc zero) = 5000
delay_ms (suc (suc zero)) = 10000
delay_ms (suc (suc (suc zero))) = 30000
delay_ms (suc (suc (suc (suc n)))) = backoff_max_ms

-- `chan_backoff_reset`
unfoldable pub backoff_reset : ChanMoveBackoff
backoff_reset = record { target = 0; fail_count = 0; retry_at_ms = 0 }

-- `chan_backoff_on_failure`: the new state and the wait; the sum is one of uint64.
unfoldable pub on_failure : ChanMoveBackoff → ℕ → ℕ → ChanMoveBackoff × ℕ
on_failure b target now =
    let before = if b.target == target then b.fail_count else 0 in
    let count = if ltb before 1000 then before + 1 else before in
    let delay = delay_ms count in
    (record { target = target; fail_count = count; retry_at_ms = (now + delay) % 2 ^ 64 }, delay)

-- `chan_backoff_blocks`
unfoldable pub blocks : ChanMoveBackoff → ℕ → ℕ → Bool
blocks b target now =
    not (b.fail_count == 0) && b.target == target && not (target == 0) && ltb now b.retry_at_ms

-- `chan_backoff_keeps_loop`
unfoldable pub keeps_loop : ChanMoveBackoff → Bool
keeps_loop b = leb (delay_ms b.fail_count) backoff_loop_max_ms
