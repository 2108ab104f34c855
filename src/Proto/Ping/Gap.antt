-- ===== src/Proto/Ping/Gap.antt =====
-- CEPING: the sequence gap.
use conan_exiles_teamspeak.Prelude.{ℕ, ◌+◌, ◌-◌, ◌%◌, ◌<◌, ◌≡◌, leb, if◌then◌else◌, arith}
use conan_exiles_teamspeak.Proto.Ping.{seq_modulus, forward_max, seq_gap}

-- From any sequence number, a step of `k` forward on the circle of 2^32 numbers counts `k - 1`
-- lost heartbeats for `1 <= k <= 0x7FFFFFFF`; a duplicate and a step backwards count none.
pub seq_gap_lem :
    (prev k : ℕ)
    → prev < seq_modulus
    → k < seq_modulus
    → seq_gap prev ((prev + k) % seq_modulus) ≡ (if leb k forward_max then k - 1 else 0)
unfolding seq_gap
seq_gap_lem prev k p h = ground arith
