-- ===== src/Voice/Zone/Inside.antt =====
-- A resolved zone and the position (src/core/proximity/zone_resolve.c).
use conan_exiles_teamspeak.Prelude.{
  ℕ, suc, ◌+◌, ◌≡◌, refl, Bool, true, false, not, ◌&&◌, ◌||◌, Option, none, some, List, [], ◌∷◌,
  arith, get_elem?, take, if_either,
}
use mathlib.Core.Path.{subst}
use conan_exiles_teamspeak.Floats.{Floats}
use conan_exiles_teamspeak.Voice.Zone.{
  HubZone, contains_point, no_corners, resolve_from, resolve_at_scale, resolve_scales, zone_resolve,
}

module _ {F : Type 0} (fl : Floats F) where
  -- The position at a scale lies in the zone, in either layout of its corners.
  abbrev pub lies_in : HubZone F → F → F → F → F → Bool
  lies_in zone x y z scale =
      let at = λ (floor : Bool).
        contains_point fl zone (fl.multiply x scale) (fl.multiply y scale) (fl.multiply z scale)
          floor in
      not (no_corners fl zone) && (at true || at false)

  -- The position lies in none of the zones at the scale.
  abbrev pub Outside : List (HubZone F) → F → F → F → F → Type 0
  Outside [] x y z scale = Unit
  Outside (zone ∷ zones) x y z scale =
      (lies_in zone x y z scale ≡ false) × Outside zones x y z scale

  abbrev pub OutsideAll : List (HubZone F) → F → F → F → List F → Type 0
  OutsideAll zones x y z [] = Unit
  OutsideAll zones x y z (scale ∷ scales) =
      Outside zones x y z scale × OutsideAll zones x y z scales

  -- The zone at a place contains the position at the scale, the ones before it do not.
  abbrev pub FirstAt : List (HubZone F) → ℕ → F → F → F → F → Type 0
  FirstAt zones i x y z scale =
      (zone : HubZone F) × (get_elem? zones i ≡ some zone)
      × (lies_in zone x y z scale ≡ true)
      × Outside (take i zones) x y z scale

  -- The answer of the loop from the i-th zone on.
  IsFound : ℕ → List (HubZone F) → F → F → F → F → Option ℕ → Type 0
  IsFound i zones x y z scale none = Outside zones x y z scale
  IsFound i zones x y z scale (some j) = (k : ℕ) × (j ≡ i + k) × FirstAt zones k x y z scale

  IsFound-later :
      (i : ℕ) (zone : HubZone F) (zones : List (HubZone F)) (x y z scale : F) (o : Option ℕ)
      → lies_in zone x y z scale ≡ false
      → IsFound (i + 1) zones x y z scale o
      → IsFound i (zone ∷ zones) x y z scale o
  unfolding IsFound
  IsFound-later i zone zones x y z scale none out h = (out, h)
  IsFound-later i zone zones x y z scale (some j) out (k, e, (there, at, inside, before)) =
      (suc k, omega arith, (there, at, inside, (out, before)))

  resolve_from_lem :
      (i : ℕ) (zones : List (HubZone F)) (x y z scale : F)
      → IsFound i zones x y z scale (
          resolve_from fl i zones (fl.multiply x scale) (fl.multiply y scale) (fl.multiply z scale))
  unfolding IsFound resolve_from
  resolve_from_lem i [] x y z scale = tt
  resolve_from_lem i (zone ∷ zones) x y z scale =
      let Goal = IsFound i (zone ∷ zones) x y z scale in
      let rest = resolve_from_lem (i + 1) zones x y z scale in
      let later =
        resolve_from fl (i + 1) zones (fl.multiply x scale) (fl.multiply y scale)
          (fl.multiply z scale) in
      let at = λ (floor : Bool).
        contains_point fl zone (fl.multiply x scale) (fl.multiply y scale) (fl.multiply z scale)
          floor in
      if_either Goal (no_corners fl zone)
        (λ named. IsFound-later i zone zones x y z scale later (ground arith) rest)
        (λ cornered.
          if_either Goal (at true || at false)
            (λ inside. (0, omega arith, (zone, refl, ground arith, tt)))
            (λ out. IsFound-later i zone zones x y z scale later (ground arith) rest))

  -- What `zone_resolve` promises: with no answer the position lies in no zone at any of the
  -- scales; the answer is a zone that contains it at one of them, and the first one there.
  abbrev pub IsResolved : List (HubZone F) → F → F → F → List F → Option ℕ → Type 0
  IsResolved zones x y z scales none = OutsideAll zones x y z scales
  IsResolved zones x y z scales (some i) =
      (n : ℕ) × (scale : F) × (get_elem? scales n ≡ some scale)
      × FirstAt zones i x y z scale
      × OutsideAll zones x y z (take n scales)

  resolve_scales-IsResolved :
      (zones : List (HubZone F)) (x y z : F) (scales : List F)
      → IsResolved zones x y z scales (resolve_scales fl zones x y z scales)
  unfolding resolve_scales resolve_at_scale IsFound
  resolve_scales-IsResolved zones x y z [] = tt
  resolve_scales-IsResolved zones x y z (scale ∷ scales) =
      go (resolve_at_scale fl zones x y z scale) (resolve_from_lem 0 zones x y z scale)
        (resolve_scales fl zones x y z scales) (resolve_scales-IsResolved zones x y z scales)
    where
      go :
          (o : Option ℕ)
          → IsFound 0 zones x y z scale o
          → (later : Option ℕ) → IsResolved zones x y z scales later
          → IsResolved zones x y z (scale ∷ scales) (elim o [ none ↦ later | some i ↦ some i ])
      go none out none more = (out, more)
      go none out (some i) (n, s, e, first, before) = (suc n, s, e, first, (out, before))
      go (some j) (k, e, first) later more =
          (0, scale, refl, subst (λ m. FirstAt zones m x y z scale) (omega (arith, e)) first, tt)

  -- `zone_resolve` tries the position in meters, then in centimeters, then in hundredths of
  -- meters. Its answer is the first zone that contains the position at the first scale at which
  -- one does, in either layout of the corners, and never a zone without corners; it answers -1
  -- only if no zone contains the position at any scale. This holds of any arithmetic.
  pub zone_resolve-IsResolved :
      (zones : List (HubZone F)) (x y z : F)
      → IsResolved zones x y z
          (fl.one ∷ fl.hundred ∷ fl.hundredth ∷ [])
          (zone_resolve fl zones x y z)
  unfolding zone_resolve
  zone_resolve-IsResolved zones x y z =
      resolve_scales-IsResolved zones x y z (fl.one ∷ fl.hundred ∷ fl.hundredth ∷ [])
