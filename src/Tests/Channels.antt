-- ===== src/Tests/Channels.antt =====
-- Channel moves at concrete inputs.
use conan_exiles_teamspeak.Prelude.{
  ℕ, ◌+◌, ◌≡◌, ◌≢◌, refl, true, false, List, [], ◌∷◌, ltb, arith, ◌⊎◌, ◌↔◌, length,
}
use conan_exiles_teamspeak.CText.{Bytes, codes, str_same}
use conan_exiles_teamspeak.Channel.Backoff.{ChanMoveBackoff, backoff_reset, on_failure, blocks}
use conan_exiles_teamspeak.Channel.Backoff.Schedule.{fail_all, wait_ms, backoff_schedule}
use conan_exiles_teamspeak.Channel.Names.{has_ignore_keyword}
use conan_exiles_teamspeak.Channel.Names.Keywords.{Holds, has_ignore_keyword_iff}
use conan_exiles_teamspeak.Queue.ReturnCode.{Ts3RcTracker, track_add, track_take, track_clear}
use conan_exiles_teamspeak.Queue.ReturnCode.Answers.{
  Traffic, sent, answered, run_all, IsValid, track_keeps_eight,
}

track_clear-IsValid : IsValid track_clear
unfolding track_clear
track_clear-IsValid = record { eight = refl; next_in = omega arith }

rc1-other : str_same (codes "rc1") (codes "rc2") ≡ false
unfolding str_same
rc1-other = refl

backoff_schedule_example :
    let b : ChanMoveBackoff = backoff_reset in
    let target : ℕ = 7 in
    let earlier : List ℕ = 100 ∷ 6000 ∷ [] in
    let last : ℕ = 20000 in
    let now : ℕ = 30000 in
    let (b', delay) = on_failure (fail_all b target earlier) target last in
    (delay ≡ wait_ms (length earlier + 1))
    × (blocks b' target now ≡ ltb now (last + wait_ms (length earlier + 1)))
    × ((other : ℕ) → other ≢ target → blocks b' other now ≡ false)
unfolding backoff_reset
backoff_schedule_example =
    backoff_schedule backoff_reset 7 (100 ∷ 6000 ∷ []) 20000 30000 (omega arith) (omega arith)
      (omega arith)

has_ignore_keyword_iff_example :
    let name : Bytes = codes "PvP Plot 7" in
    (has_ignore_keyword name ≡ true) ↔ (
      Holds (codes "event") false 0 name
      ⊎ Holds (codes "support") false 0 name
      ⊎ Holds (codes "plot") true 0 name)
has_ignore_keyword_iff_example = has_ignore_keyword_iff (codes "PvP Plot 7")

track_keeps_eight_example :
    let t : Ts3RcTracker = track_clear in
    let code : Bytes = codes "rc1" in
    let traffic : List Traffic =
      sent (codes "rc2") ∷ answered (codes "rc2") ∷ sent (codes "rc3") ∷ [] in
    (track_take (run_all (track_add t code).1 traffic) code).0 ≡ true
track_keeps_eight_example =
    track_keeps_eight track_clear (codes "rc1")
      (sent (codes "rc2") ∷ answered (codes "rc2") ∷ sent (codes "rc3") ∷ []) track_clear-IsValid
      (omega arith, omega arith) (rc1-other, tt) (omega arith)
