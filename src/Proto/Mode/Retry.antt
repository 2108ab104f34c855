-- ===== src/Proto/Mode/Retry.antt =====
-- CEMODE: a send that keeps failing is tried again a few times, and then given up.
use conan_exiles_teamspeak.Prelude.{
  ℕ, ◌+◌, ◌≤◌, ◌≡◌, refl, ◌∙◌, ap, true, false, not, ◌&&◌, List, [], ◌∷◌, leb, if◌then◌else◌,
  tick_sub, arith, Bool-cases, inl, inr, ◌⊎◌, length,
}
use conan_exiles_teamspeak.Proto.{Env}
use conan_exiles_teamspeak.Proto.Mode.{
  Cemode, flush, send_retry_max, send_min_ms, mode_max, distance_max_dm,
}
use conan_exiles_teamspeak.Proto.Mode.Codec.{wire_format-fits}

-- A flush on the callback thread whose send fails, not held up by the rate limit.
pub record Fails (env : Env) (last_send_ms : ℕ) : Type 0 where
  pub runs : env.on_callback && env.connected && not env.shutting_down ≡ true
  pub due : (last_send_ms ≡ 0) ⊎ (send_min_ms ≤ tick_sub env.now last_send_ms)
  pub failing : env.can_send ≡ false

abbrev pub AllFail : ℕ → List Env → Type 0
AllFail last [] = Unit
AllFail last (e ∷ es) = Fails e last × AllFail last es

pub flush_all : List Env → ℕ → ℕ → Cemode → Cemode
flush_all [] mode dm s = s
flush_all (e ∷ es) mode dm s = flush_all es mode dm (flush e mode dm s).0

flush-idle :
    (env : Env) (mode dm : ℕ) (s : Cemode) → s.send_pending ≡ false → flush env mode dm s ≡ (s, [])
unfolding flush
flush-idle env mode dm s h = ground arith

flush-Fails :
    (env : Env) (mode dm : ℕ) (s : Cemode)
    → mode ≤ mode_max
    → dm ≤ distance_max_dm
    → Fails env s.last_send_ms
    → s.send_pending ≡ true
    → (flush env mode dm s).0 ≡ (
        if leb (s.send_failures + 1) send_retry_max
        then record s { send_failures = s.send_failures + 1 }
        else record s { send_failures = 0; send_pending = false })
unfolding flush
flush-Fails env mode dm s h k f p = ground (arith, wire_format-fits mode dm)

flush_all-cons :
    (e : Env) (es : List Env) (mode dm : ℕ) (s : Cemode)
    → flush_all (e ∷ es) mode dm s ≡ flush_all es mode dm (flush e mode dm s).0
unfolding flush_all
flush_all-cons e es mode dm s = refl

flush_all-nil : (mode dm : ℕ) (s : Cemode) → flush_all [] mode dm s ≡ s
unfolding flush_all
flush_all-nil mode dm s = refl

flush_all-idle :
    (es : List Env) (mode dm : ℕ) (s : Cemode) → s.send_pending ≡ false → flush_all es mode dm s ≡ s
flush_all-idle [] mode dm s h = flush_all-nil mode dm s
flush_all-idle (e ∷ es) mode dm s h =
    rw (flush_all-cons, flush-idle e mode dm s h) (flush_all-idle es mode dm s h)

-- A row of failing sends ends: from `failures` counted before, `6 - failures` more flushes stop
-- the retries, so the callback thread does not spin; before that the edge stays pending.
pub retries_end :
    (es : List Env) (mode dm : ℕ) (s : Cemode)
    → mode ≤ mode_max
    → dm ≤ distance_max_dm
    → s.send_pending ≡ true
    → s.send_failures ≤ send_retry_max
    → AllFail s.last_send_ms es
    → (flush_all es mode dm s).send_pending ≡ leb (s.send_failures + length es) send_retry_max
retries_end [] mode dm s h k p b f = rw flush_all-nil (ground arith)
retries_end (e ∷ es) mode dm s h k p b f =
    elim (Bool-cases (leb (s.send_failures + 1) send_retry_max)) [
      | inl again ↦
          rw (flush_all-cons, flush-Fails e mode dm s h k f.0 p, again)
            (retries_end es mode dm (record s { send_failures = s.send_failures + 1 }) h k p
                (ground arith) f.1
              ∙ ap (λ (n : ℕ). leb n send_retry_max) (omega arith))
      | inr stop ↦
          rw (flush_all-cons, flush-Fails e mode dm s h k f.0 p, stop)
            (rw
              (flush_all-idle es mode dm (record s { send_failures = 0; send_pending = false })
                refl)
              (ground arith))
    ]
