-- ===== src/Players/Table/Lookup.antt =====
-- The table as a map from clients to entries (src/core/proximity/player_table.c).
use conan_exiles_teamspeak.Prelude.{
  ℕ, zero, suc, ◌-◌, ◌^◌, ◌<◌, ◌≡◌, refl, sym, true, false, Option, none, some, List, [], ◌∷◌,
  if◌then◌else◌, arith, inl, inr, ◌⊎◌, length, get_elem?, set,
}
use mathlib.Core.Path.{subst}
use conan_exiles_teamspeak.Players.Table.{
  PlayerEntry, PlayerTable, max_players, entry_is_fresh, holds, put_slot,
}
use conan_exiles_teamspeak.Players.Table.Slots.{
  NoHolder, First, AllFresh, OldestAt, Ticks, find_slot-none, oldest_slot-OldestAt,
}

module _ {F : Type 0} where
  -- The entry of a client: that of the first slot that holds it.
  unfoldable pub lookup : ℕ → List (PlayerEntry F) → Option (PlayerEntry F)
  lookup client [] = none
  lookup client (e ∷ es) = let later = lookup client es in if holds client e then some e else later

  -- Each client has one slot at most.
  abbrev pub Unique : List (PlayerEntry F) → Type 0
  Unique [] = Unit
  Unique (e ∷ es) = (e.valid ≡ true → NoHolder e.client_id es) × Unique es

  pub record IsValid (t : PlayerTable F) : Type 0 where
    pub size : length t.players ≡ max_players
    pub unique : Unique t.players
    pub ticks : Ticks t.players

  pub NoHolder-lookup :
      (client : ℕ) (es : List (PlayerEntry F)) → NoHolder client es → lookup client es ≡ none
  unfolding lookup
  NoHolder-lookup client [] n = refl
  NoHolder-lookup client (e ∷ es) n = ground (arith, NoHolder-lookup client es n.1)

  holds_self : (e : PlayerEntry F) → e.valid ≡ true → holds e.client_id e ≡ true
  unfolding holds
  holds_self e v = ground arith

  -- A write at a slot in front of which the client has none.
  pub lookup-set_self :
      (client k : ℕ) (es : List (PlayerEntry F)) (e new : PlayerEntry F)
      → First client k es
      → get_elem? es k ≡ some e
      → holds client new ≡ true
      → lookup client (set es k new) ≡ some new
  unfolding lookup
  lookup-set_self client k [] e new f at h = cc
  lookup-set_self client zero (d ∷ es) e new f at h = ground arith
  lookup-set_self client (suc k) (d ∷ es) e new f at h =
      ground (arith, lookup-set_self client k es e new f.1 at h)

  pub lookup-set_other :
      (client k : ℕ) (es : List (PlayerEntry F)) (e new : PlayerEntry F)
      → get_elem? es k ≡ some e
      → holds client e ≡ false
      → holds client new ≡ false
      → lookup client (set es k new) ≡ lookup client es
  unfolding lookup
  lookup-set_other client k [] e new at h h' = cc
  lookup-set_other client zero (d ∷ es) e new at h h' =
      let same : d ≡ e = cc in let none_here : holds client d ≡ false = rw same h in ground arith
  lookup-set_other client (suc k) (d ∷ es) e new at h h' =
      ground (arith, lookup-set_other client k es e new at h h')

  NoHolder-set :
      (client k : ℕ) (es : List (PlayerEntry F)) (new : PlayerEntry F)
      → NoHolder client es
      → holds client new ≡ false
      → NoHolder client (set es k new)
  NoHolder-set client k [] new n h = tt
  NoHolder-set client zero (d ∷ es) new n h = (h, n.1)
  NoHolder-set client (suc k) (d ∷ es) new n h = (n.0, NoHolder-set client k es new n.1 h)

  pub Ticks-set :
      (k : ℕ) (es : List (PlayerEntry F)) (new : PlayerEntry F)
      → Ticks es
      → new.last_update < 2 ^ 64 - 1
      → Ticks (set es k new)
  Ticks-set k [] new t h = tt
  Ticks-set zero (d ∷ es) new t h = (h, t.1)
  Ticks-set (suc k) (d ∷ es) new t h = (t.0, Ticks-set k es new t.1 h)

  -- No slot but the k-th holds the client.
  abbrev pub Alone : ℕ → ℕ → List (PlayerEntry F) → Type 0
  Alone client k [] = Unit
  Alone client zero (e ∷ es) = NoHolder client es
  Alone client (suc k) (e ∷ es) = (holds client e ≡ false) × Alone client k es

  NoHolder-Alone :
      (client k : ℕ) (es : List (PlayerEntry F)) → NoHolder client es → Alone client k es
  NoHolder-Alone client k [] n = tt
  NoHolder-Alone client zero (e ∷ es) n = n.1
  NoHolder-Alone client (suc k) (e ∷ es) n = (n.0, NoHolder-Alone client k es n.1)

  pub held_parts :
      (client : ℕ) (e : PlayerEntry F)
      → holds client e ≡ true
      → (e.valid ≡ true) × (e.client_id ≡ client)
  unfolding holds
  held_parts client e h = ground arith

  held_other :
      (client : ℕ) (d new : PlayerEntry F)
      → holds client d ≡ false
      → d.valid ≡ true
      → new.client_id ≡ client
      → holds d.client_id new ≡ false
  unfolding holds
  held_other client d new h v c = ground arith

  held-Alone :
      (client k : ℕ) (es : List (PlayerEntry F)) (e : PlayerEntry F)
      → Unique es
      → First client k es
      → get_elem? es k ≡ some e
      → holds client e ≡ true
      → Alone client k es
  held-Alone client k [] e u f at h = tt
  held-Alone client zero (d ∷ es) e u f at h =
      let same : d ≡ e = cc in
      let (valid, id) = held_parts client d (rw same h) in subst (λ c. NoHolder c es) id (u.0 valid)
  held-Alone client (suc k) (d ∷ es) e u f at h = (f.0, held-Alone client k es e u.1 f.1 at h)

  pub Alone-First :
      (client k : ℕ) (es : List (PlayerEntry F)) → Alone client k es → First client k es
  Alone-First client k [] a = tt
  Alone-First client zero (e ∷ es) a = tt
  Alone-First client (suc k) (e ∷ es) a = (a.0, Alone-First client k es a.1)

  pub Unique-set :
      (client k : ℕ) (es : List (PlayerEntry F)) (new : PlayerEntry F)
      → Unique es
      → Alone client k es
      → new.client_id ≡ client
      → Unique (set es k new)
  Unique-set client k [] new u a c = tt
  Unique-set client zero (e ∷ es) new u a c = (λ v. subst (λ i. NoHolder i es) (sym c) a, u.1)
  Unique-set client (suc k) (e ∷ es) new u a c = (
    λ v. NoHolder-set e.client_id k es new (u.0 v) (held_other client e new a.0 v c),
    Unique-set client k es new u.1 a.1 c,
  )

  -- The slot that a put writes: no other slot holds the client.
  pub record Slot (client now : ℕ) (es : List (PlayerEntry F)) : Type 0 where
    pub slot : ℕ
    pub entry : PlayerEntry F
    pub chosen : put_slot client now es ≡ some slot
    pub at : get_elem? es slot ≡ some entry
    pub alone : Alone client slot es
    pub why :
        (holds client entry ≡ true)
        ⊎ (NoHolder client es × (entry_is_fresh entry now ≡ false))
        ⊎ (NoHolder client es × AllFresh now es × OldestAt es slot)

  pub put_slot-Slot : (client now : ℕ) (t : PlayerTable F) → IsValid t → Slot client now t.players
  unfolding put_slot
  put_slot-Slot client now t v = elim (find_slot-none client now 0 t.players) [
    | inl (k, r, at) ↦ record {
      slot = k;
      entry = at.entry;
      chosen = ground arith;
      at = at.at;
      alone = held-Alone client k t.players at.entry v.unique at.first at.at at.held;
      why = inl at.held;
    }
    | inr (n, inl (k, r, at)) ↦ record {
      slot = k;
      entry = at.entry;
      chosen = ground arith;
      at = at.at;
      alone = NoHolder-Alone client k t.players n;
      why = inr (inl (n, at.expired));
    }
    | inr (n, inr (r, all)) ↦
        let (k, r', at) = oldest_slot-OldestAt now t.players all v.ticks (omega (arith, v.size)) in
        record {
          slot = k;
          entry = at.entry;
          chosen = ground arith;
          at = at.at;
          alone = NoHolder-Alone client k t.players n;
          why = inr (inr (n, all, at));
        }
  ]
