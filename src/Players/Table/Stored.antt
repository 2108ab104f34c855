-- ===== src/Players/Table/Stored.antt =====
-- What a put leaves in the table (src/core/proximity/player_table.c).
use conan_exiles_teamspeak.Prelude.{
  ℕ, ◌+◌, ◌-◌, ◌^◌, ◌≤◌, ◌<◌, ◌≡◌, ◌≢◌, refl, ◌∙◌, sym, true, false, some, List, [], ◌∷◌, ◌==◌,
  arith, Bool-cases, inl, inr, length, set, take, length-set,
}
use conan_exiles_teamspeak.CText.{Bytes}
use conan_exiles_teamspeak.Players.Table.{
  PlayerEntry, PlayerTable, stale_ms, entry_is_fresh, holds, overwrite, put, get_loop, get, loser,
}
use conan_exiles_teamspeak.Players.Table.Lookup.{
  lookup, IsValid, lookup-set_self, lookup-set_other, Alone-First, Ticks-set, Unique-set, Slot,
  put_slot-Slot,
}

module _ {F : Type 0} where
  get_loop-lookup :
      (client now : ℕ) (es : List (PlayerEntry F)) (e : PlayerEntry F)
      → lookup client es ≡ some e
      → entry_is_fresh e now ≡ true
      → (get_loop client now es).0 ≡ some e
  unfolding get_loop lookup
  get_loop-lookup client now [] e h f = cc
  get_loop-lookup client now (d ∷ es) e h f = elim (Bool-cases (holds client d)) [
    | inl held ↦
        let same : some d ≡ some e = rw held at h in
        let d_is : d ≡ e = cc in
        let fresh : entry_is_fresh d now ≡ true = rw d_is f in ground (arith, d_is)
    | inr other ↦
        let later : lookup client es ≡ some e = rw other at h in
        ground (arith, get_loop-lookup client now es e later f)
  ]

  -- The table a put makes of a well-formed one.
  pub put_table :
      (t : PlayerTable F) (now client : ℕ) (name : Bytes) (x y z voice : F)
      → client ≢ 0
      → (s : Slot client now t.players)
      → ((put t now client name x y z voice).stored ≡ true)
        × ((put t now client name x y z voice).evicted ≡ loser s.entry client)
        × ((put t now client name x y z voice).table.players
            ≡ set t.players s.slot (overwrite s.entry client now name x y z voice))
  unfolding put
  put_table t now client name x y z voice c s =
      let chosen = s.chosen in let at = s.at in ground (arith)

  overwrite-holds :
      (e : PlayerEntry F) (client now : ℕ) (name : Bytes) (x y z voice : F)
      → holds client (overwrite e client now name x y z voice) ≡ true
  unfolding holds overwrite
  overwrite-holds e client now name x y z voice = ground arith

  overwrite-other :
      (e : PlayerEntry F) (client other now : ℕ) (name : Bytes) (x y z voice : F)
      → other ≢ client
      → holds other (overwrite e client now name x y z voice) ≡ false
  unfolding holds overwrite
  overwrite-other e client other now name x y z voice h = ground arith

  overwrite-fresh :
      (e : PlayerEntry F) (client now later : ℕ) (name : Bytes) (x y z voice : F)
      → now ≤ later
      → later ≤ now + stale_ms
      → later < 2 ^ 64
      → entry_is_fresh (overwrite e client now name x y z voice) later ≡ true
  unfolding entry_is_fresh overwrite
  overwrite-fresh e client now later name x y z voice h h' big = ground arith

  overwrite-name :
      (e : PlayerEntry F) (client now : ℕ) (name : Bytes) (x y z voice : F)
      → 0 < length name
      → (overwrite e client now name x y z voice).name ≡ take 16 name
  unfolding overwrite
  overwrite-name e client now name x y z voice h = ground arith

  loser-other :
      (e : PlayerEntry F) (client other : ℕ)
      → other ≢ client
      → other ≢ loser e client
      → holds other e ≡ false
  unfolding holds loser
  loser-other e client other h h' = ground arith

  get-lookup :
      (t : PlayerTable F) (now client : ℕ) (e : PlayerEntry F)
      → client ≢ 0
      → lookup client t.players ≡ some e
      → entry_is_fresh e now ≡ true
      → (get t now client).0 ≡ some e
  unfolding get
  get-lookup t now client e c h f = ground (arith, get_loop-lookup client now t.players e h f)

  -- A put of a client id other than 0 in a well-formed table stores the player: until two minutes have passed, a get
  -- yields the coordinates and the distance just put, and the name, cut after 16 bytes, if one
  -- was given.
  pub put-get :
      (t : PlayerTable F) (now later client : ℕ) (name : Bytes) (x y z voice : F)
      → IsValid t
      → client ≢ 0
      → now ≤ later
      → later ≤ now + stale_ms
      → later < 2 ^ 64
      → let r = put t now client name x y z voice in
        (r.stored ≡ true)
        × ((e : PlayerEntry F) × ((get r.table later client).0 ≡ some e)
            × (e.client_id ≡ client)
            × (e.x ≡ x)
            × (e.y ≡ y)
            × (e.z ≡ z)
            × (e.voice_distance ≡ voice)
            × (0 < length name → e.name ≡ take 16 name))
  unfolding overwrite
  put-get t now later client name x y z voice v c le stale big =
      let s = put_slot-Slot client now t v in
      let (stored, lost, players) = put_table t now client name x y z voice c s in
      let new = overwrite s.entry client now name x y z voice in
      let found : lookup client (put t now client name x y z voice).table.players ≡ some new =
        rw players (
          lookup-set_self client s.slot t.players s.entry new
            (Alone-First client s.slot t.players s.alone) s.at
            (overwrite-holds s.entry client now name x y z voice)) in
      (
        stored,
        (
          new,
          get-lookup (put t now client name x y z voice).table later client new c found
              (overwrite-fresh s.entry client now later name x y z voice le stale big),
          refl,
          refl,
          refl,
          refl,
          refl,
          overwrite-name s.entry client now name x y z voice,
        ),
      )

  -- A put of a client id other than 0 in a well-formed table changes nothing for the other players
  -- but the one it reports as evicted.
  pub put_keeps_others :
      (t : PlayerTable F) (now client other : ℕ) (name : Bytes) (x y z voice : F)
      → IsValid t
      → client ≢ 0
      → other ≢ client
      → other ≢ (put t now client name x y z voice).evicted
      → lookup other (put t now client name x y z voice).table.players ≡ lookup other t.players
  put_keeps_others t now client other name x y z voice v c o ev =
      let s = put_slot-Slot client now t v in
      let (stored, lost, players) = put_table t now client name x y z voice c s in
      rw players (
        lookup-set_other other s.slot t.players s.entry
          (overwrite s.entry client now name x y z voice) s.at
          (loser-other s.entry client other o (λ h. ev (h ∙ sym lost)))
          (overwrite-other s.entry client other now name x y z voice o))

  put-zero :
      (t : PlayerTable F) (now client : ℕ) (name : Bytes) (x y z voice : F)
      → client ≡ 0
      → (put t now client name x y z voice).table ≡ t
  unfolding put
  put-zero t now client name x y z voice c = ground arith

  -- A put, at a tick below the largest one of 64 bits, keeps the table well formed: 512 slots, at
  -- most one for each player, and all times below that tick.
  pub put-IsValid :
      (t : PlayerTable F) (now client : ℕ) (name : Bytes) (x y z voice : F)
      → IsValid t
      → now < 2 ^ 64 - 1
      → IsValid (put t now client name x y z voice).table
  unfolding overwrite
  put-IsValid t now client name x y z voice v big = elim (Bool-cases (client == 0)) [
    | inl zero_id ↦ rw (put-zero t now client name x y z voice (ground arith)) v
    | inr nonzero ↦
        let s = put_slot-Slot client now t v in
        let c : client ≢ 0 = λ e. ground arith in
        let (stored, lost, players) = put_table t now client name x y z voice c s in
        let new = overwrite s.entry client now name x y z voice in
        record {
          size = rw players (length-set t.players s.slot new ∙ v.size);
          unique = rw players (Unique-set client s.slot t.players new v.unique s.alone refl);
          ticks = rw players (Ticks-set s.slot t.players new v.ticks big);
        }
  ]
