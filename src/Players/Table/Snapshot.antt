-- ===== src/Players/Table/Snapshot.antt =====
-- Copies of the table, and players that leave (src/core/proximity/player_table.c).
use conan_exiles_teamspeak.Prelude.{
  ℕ, zero, suc, ◌≡◌, ◌≢◌, refl, none, List, [], ◌∷◌, if◌then◌else◌, arith, Bool-cases, inl, inr,
  take,
}
use mathlib.Core.Path.{subst}
use conan_exiles_teamspeak.Players.Table.{
  PlayerEntry, PlayerTable, entry_is_fresh, holds, remove_loop, remove, snapshot_loop, snapshot,
}
use conan_exiles_teamspeak.Players.Table.Slots.{NoHolder}
use conan_exiles_teamspeak.Players.Table.Lookup.{
  lookup, Unique, IsValid, held_parts, NoHolder-lookup,
}

module _ {F : Type 0} where
  -- The fresh entries in slot order.
  pub fresh : ℕ → List (PlayerEntry F) → List (PlayerEntry F)
  fresh now [] = []
  fresh now (e ∷ es) = if entry_is_fresh e now then e ∷ fresh now es else fresh now es

  snapshot_loop-fresh :
      (now room : ℕ) (es : List (PlayerEntry F))
      → ((snapshot_loop now room es).0 ≡ take room (fresh now es))
        × (fresh now (snapshot_loop now room es).1 ≡ fresh now es)
  unfolding snapshot_loop fresh entry_is_fresh
  snapshot_loop-fresh now zero [] = (refl, refl)
  snapshot_loop-fresh now (suc room) [] = (refl, refl)
  snapshot_loop-fresh now zero (e ∷ es) = (refl, refl)
  snapshot_loop-fresh now (suc room) (e ∷ es) =
      let same = snapshot_loop-fresh now (suc room) es in
      let less = snapshot_loop-fresh now room es in ground arith

  -- A snapshot is the fresh entries in slot order, cut to the caller's buffer, and the entries it
  -- expires on the way are no fresh ones.
  pub snapshot_lem :
      (t : PlayerTable F) (now max_entries : ℕ)
      → let (out, t') = snapshot t now max_entries in
        (out ≡ take max_entries (fresh now t.players))
        × (fresh now t'.players ≡ fresh now t.players)
  unfolding snapshot
  snapshot_lem t now max_entries = snapshot_loop-fresh now max_entries t.players

  removed :
      (client : ℕ) (es : List (PlayerEntry F))
      → Unique es
      → lookup client (remove_loop client es) ≡ none
  unfolding lookup remove_loop holds
  removed client [] u = refl
  removed client (e ∷ es) u = elim (Bool-cases (holds client e)) [
    | inl held ↦
        let (valid, id) = held_parts client e held in
        let gone = subst (λ c. NoHolder c es) id (u.0 valid) in
        ground (arith, NoHolder-lookup client es gone)
    | inr other ↦ ground (arith, removed client es u.1)
  ]

  others_stay :
      (client other : ℕ) (es : List (PlayerEntry F))
      → other ≢ client
      → lookup other (remove_loop client es) ≡ lookup other es
  unfolding lookup remove_loop holds
  others_stay client other [] o = refl
  others_stay client other (e ∷ es) o = ground (arith, others_stay client other es o)

  -- In a well-formed table a removed player is no longer known, and the others are as before.
  pub remove_lem :
      (t : PlayerTable F) (client : ℕ)
      → IsValid t
      → (lookup client (remove t client).players ≡ none)
        × ((other : ℕ)
            → other ≢ client
            → lookup other (remove t client).players ≡ lookup other t.players)
  unfolding remove
  remove_lem t client v =
      (removed client t.players v.unique, λ other o. others_stay client other t.players o)
