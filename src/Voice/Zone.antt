-- ===== src/Voice/Zone.antt =====
-- The zone a position lies in (src/core/proximity/zone_resolve.c).
pub mod Inside
use conan_exiles_teamspeak.Prelude.{
  ℕ, ◌+◌, ◌%◌, Bool, true, false, not, ◌&&◌, ◌||◌, Option, none, some, List, [], ◌∷◌, ◌==◌,
  if◌then◌else◌, get_elem?,
}
use conan_exiles_teamspeak.Floats.{Floats}

-- `HubZone`, less its `name`, `audioMinDistance` and `audioMaxVolume`, which the zone search does
-- not read.
pub record HubZone (F : Type 0) : Type 0 where
  pub x1 : F
  pub z1 : F
  pub x2 : F
  pub z2 : F
  pub x3 : F
  pub z3 : F
  pub x4 : F
  pub z4 : F
  pub ground_y : F
  pub top_y : F
  pub whisper_dist : F
  pub normal_dist : F
  pub shout_dist : F
  pub soundproof : Bool
  pub reverb : Bool

module _ {F : Type 0} (fl : Floats F) where
  -- Whether the ray from the point crosses the edge from `(xi, zi)` to `(xj, zj)`.
  unfoldable pub crosses : F → F → F → F → F → F → Bool
  crosses px pz xi zi xj zj =
      let dz = fl.subtract zj zi in
      let intersect_x =
        fl.add xi (fl.divide (fl.multiply (fl.subtract pz zi) (fl.subtract xj xi)) dz) in
      ((fl.at_most zi pz && fl.less pz zj) || (fl.at_most zj pz && fl.less pz zi))
      && fl.less fl.tiny (fl.fabsf dz)
      && fl.less px intersect_x

  abbrev one_if : Bool → ℕ
  one_if b = if b then 1 else 0

  -- `zone_point_in_quad`
  unfoldable pub point_in_quad : HubZone F → F → F → Bool
  unfolding crosses
  point_in_quad z px pz =
      let crossings =
        one_if (crosses px pz z.x1 z.z1 z.x2 z.z2)
        + one_if (crosses px pz z.x2 z.z2 z.x3 z.z3)
        + one_if (crosses px pz z.x3 z.z3 z.x4 z.z4)
        + one_if (crosses px pz z.x4 z.z4 z.x1 z.z1) in
      crossings % 2 == 1

  -- `zone_contains_point`
  unfoldable pub contains_point : HubZone F → F → F → F → Bool → Bool
  unfolding point_in_quad
  contains_point z px py pz xz_floor =
      let height = if xz_floor then py else pz in
      let horiz_b = if xz_floor then pz else py in
      let h_min = if fl.less z.ground_y z.top_y then z.ground_y else z.top_y in
      let h_max = if fl.less z.top_y z.ground_y then z.ground_y else z.top_y in
      let bounded = not (fl.equal z.ground_y fl.zero_f) || not (fl.equal z.top_y fl.zero_f) in
      let outside =
        fl.less height (fl.subtract h_min fl.one) || fl.less (fl.add h_max fl.one) height in
      if bounded && outside then false else point_in_quad z px horiz_b

  -- A zone that has a name only.
  unfoldable pub no_corners : HubZone F → Bool
  no_corners z =
      fl.equal z.x1 fl.zero_f
      && fl.equal z.x2 fl.zero_f
      && fl.equal z.x3 fl.zero_f
      && fl.equal z.x4 fl.zero_f
      && fl.equal z.z1 fl.zero_f
      && fl.equal z.z2 fl.zero_f
      && fl.equal z.z3 fl.zero_f
      && fl.equal z.z4 fl.zero_f

  -- The loop of `zone_resolve_at_scale` from the i-th zone on.
  unfoldable pub resolve_from : ℕ → List (HubZone F) → F → F → F → Option ℕ
  unfolding contains_point no_corners
  resolve_from i [] x y z = none
  resolve_from i (zone ∷ zones) x y z =
      let later = resolve_from (i + 1) zones x y z in
      if no_corners zone
      then later
      else if contains_point zone x y z true || contains_point zone x y z false
      then some i
      else later

  -- `zone_resolve_at_scale`
  unfoldable pub resolve_at_scale : List (HubZone F) → F → F → F → F → Option ℕ
  unfolding resolve_from
  resolve_at_scale zones x y z scale =
      resolve_from 0 zones (fl.multiply x scale) (fl.multiply y scale) (fl.multiply z scale)

  -- The first answer of the scales.
  unfoldable pub resolve_scales : List (HubZone F) → F → F → F → List F → Option ℕ
  unfolding resolve_at_scale
  resolve_scales zones x y z [] = none
  resolve_scales zones x y z (scale ∷ scales) =
      let later = resolve_scales zones x y z scales in
      elim (resolve_at_scale zones x y z scale) [ none ↦ later | some i ↦ some i ]

  -- `zone_resolve`: meters, centimeters, and hundredths; none for -1.
  unfoldable pub zone_resolve : List (HubZone F) → F → F → F → Option ℕ
  unfolding resolve_scales
  zone_resolve zones x y z = resolve_scales zones x y z (fl.one ∷ fl.hundred ∷ fl.hundredth ∷ [])

module _ {F : Type 0} where
  -- `zone_soundproof_muted`, with none for a negative index
  unfoldable pub soundproof_muted : List (HubZone F) → Option ℕ → Option ℕ → Bool
  soundproof_muted zones local none = false
  soundproof_muted zones local (some remote) = elim (get_elem? zones remote) [
    | none ↦ false
    | some zone ↦ zone.soundproof && not (elim local [ none ↦ false | some here ↦ here == remote ])
  ]

  abbrev has_reverb : List (HubZone F) → Option ℕ → Bool
  has_reverb zones none = false
  has_reverb zones (some i) = elim (get_elem? zones i) [ none ↦ false | some zone ↦ zone.reverb ]

  -- `zone_reverb_active`
  unfoldable pub reverb_active : List (HubZone F) → Option ℕ → Option ℕ → Bool
  reverb_active zones local remote = has_reverb zones local || has_reverb zones remote
