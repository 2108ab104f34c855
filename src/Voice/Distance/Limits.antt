-- ===== src/Voice/Distance/Limits.antt =====
-- The distance of a mode and the limits of the server (src/core/voice/voice_modes.c).
use conan_exiles_teamspeak.Prelude.{
  ℕ, zero, suc, ◌≡◌, refl, sym, none, true, false, ◌&&◌, Option, some, if◌then◌else◌, arith,
  if_either,
}
use conan_exiles_teamspeak.Floats.{Floats}
use conan_exiles_teamspeak.Voice.Distance.{
  Modes, per_mode, ModeLimits, VoiceModeProfile, limits, clamp, zone_distance, get_distance,
}

module _ {F : Type 0} (fl : Floats F) where
  -- A limit is set if it is above 0.
  abbrev pub IsWithin : F → F → F → Type 0
  IsWithin lowest highest distance =
      (fl.less fl.zero_f highest ≡ true → fl.less highest distance ≡ false)
      × (fl.less fl.zero_f lowest ≡ true
          → (fl.less fl.zero_f highest && fl.less highest lowest) ≡ false
          → fl.less distance lowest ≡ false)

  -- Of three values, the one of a mode: 0 whispers, 2 shouts, any other speaks.
  abbrev pub limit_of : Modes F → ℕ → F
  limit_of m zero = m.whispered
  limit_of m (suc zero) = m.spoken
  limit_of m (suc (suc zero)) = m.shouted
  limit_of m (suc (suc (suc n))) = m.spoken

  -- The limits that count for a player: those of the race, and without one those of the server.
  abbrev pub server_limits : VoiceModeProfile F → ModeLimits F
  server_limits p = elim p.race [ none ↦ p.hub | some race ↦ race ]

  per_mode_lem : (m : Modes F) (mode : ℕ) → per_mode m mode ≡ limit_of m mode
  per_mode_lem m zero = refl
  per_mode_lem m (suc zero) = refl
  per_mode_lem m (suc (suc zero)) = refl
  per_mode_lem m (suc (suc (suc n))) = ground arith

  clamp-IsWithin :
      (lowest highest distance : F)
      → ((x : F) → fl.less x x ≡ false)
      → IsWithin lowest highest (clamp fl lowest highest distance)
  unfolding clamp
  clamp-IsWithin lowest highest distance irreflexive =
      let raised =
        if fl.less fl.zero_f lowest && fl.less distance lowest then lowest else distance in
      let Goal = IsWithin lowest highest in
      if_either Goal (fl.less fl.zero_f highest && fl.less highest raised)
        (λ above. ((λ set. irreflexive highest), (λ low fits. ground arith)))
        (λ below. ((λ set. ground arith), (λ low fits. raised_lem low)))
    where
      raised_lem :
          fl.less fl.zero_f lowest ≡ true
          → fl.less
              (if fl.less fl.zero_f lowest && fl.less distance lowest then lowest else distance)
              lowest
            ≡ false
      raised_lem low =
          if_either (λ d. fl.less d lowest ≡ false)
            (fl.less fl.zero_f lowest && fl.less distance lowest) (λ under. irreflexive lowest)
            (λ over. ground arith)

  -- With a server profile applied, the distance of a mode is not above the upper limit for it,
  -- nor below the lower one unless that is above the upper one; the limits are those of the own
  -- race if there is one, and neither the configuration nor a zone escapes them. A limit counts
  -- if it is above 0. Of the comparison it is only used that no number is less than itself.
  pub get_distance-IsWithin :
      (configured : Modes F) (p : VoiceModeProfile F) (position : Option (F × F × F)) (mode : ℕ)
      → ((x : F) → fl.less x x ≡ false)
      → IsWithin
          (limit_of (server_limits p).lowest mode)
          (limit_of (server_limits p).highest mode)
          (get_distance fl configured (some p) position mode)
  unfolding get_distance
  get_distance-IsWithin configured p position mode irreflexive =
      let reach = zone_distance fl p.zones position mode (per_mode configured mode) in
      let low = per_mode (limits fl p).lowest mode in
      let high = per_mode (limits fl p).highest mode in
      rw
        (
          sym (per_mode_lem (server_limits p).lowest mode),
          sym (per_mode_lem (server_limits p).highest mode),
        )
        (clamp-IsWithin low high reach irreflexive)
