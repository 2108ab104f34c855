-- ===== src/Proto/Ping/Loss.antt =====
-- CEPING: loss events are counted and reported.
use conan_exiles_teamspeak.Prelude.{
  ℕ, ◌+◌, ◌≤◌, ◌<◌, ◌≡◌, refl, List, [], ◌∷◌, ◌==◌, if◌then◌else◌, arith, length,
}
use conan_exiles_teamspeak.Proto.Ping.{ulong_max, CepingTrack, CepingObserved, track_observe}

-- The messages of one peer: a sequence number and the time of its arrival.
abbrev pub Message : Type 0
Message = ℕ × ℕ

pub observations : CepingTrack → List Message → List CepingObserved
observations t [] = []
observations t ((seq, now) ∷ ms) =
    let (t', seen) = track_observe t seq now in seen ∷ observations t' ms

pub final_track : CepingTrack → List Message → CepingTrack
final_track t [] = t
final_track t ((seq, now) ∷ ms) = final_track (track_observe t seq now).0 ms

-- The loss events among some observations.
abbrev pub events : List CepingObserved → ℕ
events [] = 0
events (o ∷ os) = (if o.missed == 0 then 0 else 1) + events os

-- The loss events that the log lines tell of: each line its own, and those folded into it.
abbrev pub reported : List CepingObserved → ℕ
reported [] = 0
reported (o ∷ os) = (if o.log then 1 + o.suppressed else 0) + reported os

observe-counts :
    (t : CepingTrack) (seq now : ℕ)
    → t.suppressed < ulong_max
    → let (t', o) = track_observe t seq now in
      ((if o.missed == 0 then 0 else 1) + t.suppressed
        ≡ (if o.log then 1 + o.suppressed else 0) + t'.suppressed)
      × (t'.suppressed ≤ t.suppressed + 1)
unfolding track_observe
observe-counts t seq now h = ground arith

-- No loss event gets lost: over any messages of a peer, the events seen are those that the log
-- lines report and those that still wait in `suppressed`, while that counter does not saturate.
pub events-eq-reported :
    (ms : List Message) (t : CepingTrack)
    → t.suppressed + length ms ≤ ulong_max
    → events (observations t ms) + t.suppressed
      ≡ reported (observations t ms) + (final_track t ms).suppressed
unfolding observations final_track
events-eq-reported [] t h = refl
events-eq-reported ((seq, now) ∷ ms) t h =
    let s = observe-counts t seq now (omega arith) in
    omega (arith, s.0, s.1, events-eq-reported ms (track_observe t seq now).0 (omega (arith, s.1)))
