-- ===== src/Http/Throttle.antt =====
-- The log throttle and the wait between rebinds (src/core/http/http_request.h).
pub mod Counts
use conan_exiles_teamspeak.Prelude.{
  ℕ, zero, suc, ◌+◌, ◌-◌, ◌*◌, Bool, true, ◌&&◌, ◌||◌, Option, none, some, ltb, ◌==◌, if◌then◌else◌,
  tick_sub,
}

-- `HttpThrottle`
pub record HttpThrottle : Type 0 where
  pub armed : Bool
  pub last : ℕ
  pub suppressed : ℕ

-- `http_throttle_pass`: `none` if the line is swallowed, else the number swallowed before it.
unfoldable pub throttle_pass : HttpThrottle → ℕ → ℕ → Option ℕ × HttpThrottle
throttle_pass t now interval_ms =
    if t.armed && ltb (tick_sub now t.last) interval_ms
    then (
      none,
      record t { suppressed = if ltb t.suppressed 1000000 then t.suppressed + 1 else t.suppressed },
    )
    else (some t.suppressed, record { armed = true; last = now; suppressed = 0 })

-- `http_wsa_error_is_transient`
unfoldable pub error_is_transient : ℕ → Bool
error_is_transient err = err == 10054 || err == 10053 || err == 10004 || err == 10035

-- `HTTP_BACKOFF_FIRST_MS`, `HTTP_BACKOFF_MAX_MS`
abbrev pub backoff_first_ms : ℕ
backoff_first_ms = 250

abbrev pub backoff_max_ms : ℕ
backoff_max_ms = 5000

-- The loop of `http_backoff_ms` with `left` rounds to go.
unfoldable pub backoff_loop : ℕ → ℕ → ℕ
backoff_loop zero ms = ms
backoff_loop (suc left) ms =
    let rest = backoff_loop left (ms * 2) in if ltb ms backoff_max_ms then rest else ms

-- `http_backoff_ms`; a streak below 1 counts as 1.
unfoldable pub backoff_ms : ℕ → ℕ
unfolding backoff_loop
backoff_ms streak =
    let ms = backoff_loop (streak - 1) backoff_first_ms in
    if ltb backoff_max_ms ms then backoff_max_ms else ms
