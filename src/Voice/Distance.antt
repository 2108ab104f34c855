-- ===== src/Voice/Distance.antt =====
-- The distance of a voice mode (src/core/voice/voice_modes.c).
pub mod Limits
use conan_exiles_teamspeak.Prelude.{
  ℕ, ◌&&◌, Option, none, some, List, [], ◌∷◌, ◌==◌, if◌then◌else◌, get_elem?,
}
use conan_exiles_teamspeak.Voice.Mode.{whisper, shout}
use conan_exiles_teamspeak.Floats.{Floats}
use conan_exiles_teamspeak.Voice.Zone.{HubZone, zone_resolve}

-- One value for each mode; `per_mode` is the switch over the mode, with the normal mode for any
-- other.
pub record Modes (F : Type 0) : Type 0 where
  pub whispered : F
  pub spoken : F
  pub shouted : F

abbrev pub per_mode : {F : Type 0} → Modes F → ℕ → F
per_mode m mode =
    if mode == whisper then m.whispered else if mode == shout then m.shouted else m.spoken

-- The limits of a server profile, and those of a race.
pub record ModeLimits (F : Type 0) : Type 0 where
  pub lowest : Modes F
  pub highest : Modes F

-- `VoiceModeProfile`, as far as the distance goes; no race if the player belongs to none.
pub record VoiceModeProfile (F : Type 0) : Type 0 where
  pub zones : List (HubZone F)
  pub hub : ModeLimits F
  pub race : Option (ModeLimits F)

module _ {F : Type 0} (fl : Floats F) where
  -- The zone's distance, if it has one.
  unfoldable pub zone_distance : List (HubZone F) → Option (F × F × F) → ℕ → F → F
  zone_distance [] position mode distance = distance
  zone_distance (zone ∷ zones) none mode distance = distance
  zone_distance (zone ∷ zones) (some (x, y, z)) mode distance =
      elim (zone_resolve fl (zone ∷ zones) x y z) [
        | none ↦ distance
        | some i ↦ elim (get_elem? (zone ∷ zones) i) [
          | none ↦ distance
          | some here ↦
              let modes : Modes F = record {
                whispered = here.whisper_dist;
                spoken = here.normal_dist;
                shouted = here.shout_dist;
              } in
              let zone_dist = per_mode modes mode in
              if fl.less fl.zero_f zone_dist then zone_dist else distance
        ]
      ]

  -- The clamp, the lower limit first; a limit of 0 is none.
  unfoldable pub clamp : F → F → F → F
  clamp min_v max_v distance =
      let raised = if fl.less fl.zero_f min_v && fl.less distance min_v then min_v else distance in
      if fl.less fl.zero_f max_v && fl.less max_v raised then max_v else raised

  abbrev pub limits : VoiceModeProfile F → ModeLimits F
  limits p = elim p.race [ none ↦ p.hub | some race ↦ race ]

  -- `voice_mode_get_distance`, by the configured distances, the profile if one is applied, and
  -- the own position in meters if it is known.
  unfoldable pub get_distance : Modes F → Option (VoiceModeProfile F) → Option (F × F × F) → ℕ → F
  unfolding clamp zone_distance
  get_distance configured none position mode = per_mode configured mode
  get_distance configured (some p) position mode =
      clamp (per_mode (limits p).lowest mode) (per_mode (limits p).highest mode)
        (zone_distance p.zones position mode (per_mode configured mode))
