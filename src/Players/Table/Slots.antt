-- ===== src/Players/Table/Slots.antt =====
-- Which slot the table's loops choose (src/core/proximity/player_table.c).
use conan_exiles_teamspeak.Prelude.{
  ℕ, zero, suc, ◌+◌, ◌-◌, ◌^◌, ◌≤◌, ◌<◌, ◌≡◌, refl, true, false, none, some, List, [], ◌∷◌, ltb,
  arith, Bool-cases, inl, inr, ◌⊎◌, length, get_elem?,
}
use conan_exiles_teamspeak.Players.Table.{
  PlayerEntry, entry_is_fresh, holds, find_slot, oldest_slot,
}

module _ {F : Type 0} where
  -- No slot holds the client.
  abbrev pub NoHolder : ℕ → List (PlayerEntry F) → Type 0
  NoHolder client [] = Unit
  NoHolder client (e ∷ es) = (holds client e ≡ false) × NoHolder client es

  -- No slot in front of the k-th holds the client.
  abbrev pub First : ℕ → ℕ → List (PlayerEntry F) → Type 0
  First client k [] = Unit
  First client zero (e ∷ es) = Unit
  First client (suc k) (e ∷ es) = (holds client e ≡ false) × First client k es

  abbrev pub AllFresh : ℕ → List (PlayerEntry F) → Type 0
  AllFresh now [] = Unit
  AllFresh now (e ∷ es) = (entry_is_fresh e now ≡ true) × AllFresh now es

  -- The slot that holds the client.
  pub record HeldAt (client : ℕ) (es : List (PlayerEntry F)) (k : ℕ) : Type 0 where
    pub entry : PlayerEntry F
    pub at : get_elem? es k ≡ some entry
    pub held : holds client entry ≡ true
    pub first : First client k es

  -- A slot that holds no fresh entry.
  pub record FreeAt (now : ℕ) (es : List (PlayerEntry F)) (k : ℕ) : Type 0 where
    pub entry : PlayerEntry F
    pub at : get_elem? es k ≡ some entry
    pub expired : entry_is_fresh entry now ≡ false

  pub NoHolder-First :
      (client k : ℕ) (es : List (PlayerEntry F)) → NoHolder client es → First client k es
  NoHolder-First client k [] n = tt
  NoHolder-First client zero (e ∷ es) n = tt
  NoHolder-First client (suc k) (e ∷ es) n = (n.0, NoHolder-First client k es n.1)

  HeldAt-cons :
      {client k : ℕ} {es : List (PlayerEntry F)} (e : PlayerEntry F)
      → holds client e ≡ false
      → HeldAt client es k
      → HeldAt client (e ∷ es) (suc k)
  HeldAt-cons e n h = record { entry = h.entry; at = h.at; held = h.held; first = (n, h.first) }

  HeldAt-here :
      {client : ℕ} (es : List (PlayerEntry F)) (e : PlayerEntry F)
      → holds client e ≡ true
      → HeldAt client (e ∷ es) 0
  HeldAt-here es e h = record { entry = e; at = refl; held = h; first = tt }

  -- The search once a reusable slot is known.
  find_slot-some :
      (client now i j : ℕ) (es : List (PlayerEntry F))
      → ((k : ℕ) × (find_slot client now i (some j) es ≡ some (i + k)) × HeldAt client es k)
        ⊎ (NoHolder client es × (find_slot client now i (some j) es ≡ some j))
  unfolding find_slot
  find_slot-some client now i j [] = inr (tt, refl)
  find_slot-some client now i j (e ∷ es) = elim (Bool-cases (holds client e)) [
    | inl h ↦ inl (0, ground arith, HeldAt-here es e h)
    | inr h ↦ elim (find_slot-some client now (i + 1) j es) [
      | inl (k, r, at) ↦ inl (suc k, ground arith, HeldAt-cons e h at)
      | inr (n, r) ↦ inr ((h, n), ground arith)
    ]
  ]

  fresh_valid : (e : PlayerEntry F) (now : ℕ) → entry_is_fresh e now ≡ true → e.valid ≡ true
  unfolding entry_is_fresh
  fresh_valid e now h = ground arith

  pub find_slot-none :
      (client now i : ℕ) (es : List (PlayerEntry F))
      → ((k : ℕ) × (find_slot client now i none es ≡ some (i + k)) × HeldAt client es k)
        ⊎ (NoHolder client es
            × (((k : ℕ) × (find_slot client now i none es ≡ some (i + k)) × FreeAt now es k)
                ⊎ ((find_slot client now i none es ≡ none) × AllFresh now es)))
  unfolding find_slot
  find_slot-none client now i [] = inr (tt, inr (refl, tt))
  find_slot-none client now i (e ∷ es) = elim (Bool-cases (holds client e)) [
    | inl h ↦ inl (0, ground arith, HeldAt-here es e h)
    | inr h ↦ elim (Bool-cases (entry_is_fresh e now)) [
      | inl f ↦ elim (find_slot-none client now (i + 1) es) [
        | inl (k, r, at) ↦ inl (suc k, ground (arith, fresh_valid e now f), HeldAt-cons e h at)
        | inr (n, inl (k, r, at)) ↦ inr (
          (h, n),
          inl (
            suc k,
            ground (arith, fresh_valid e now f),
            record { entry = at.entry; at = at.at; expired = at.expired },
          ),
        )
        | inr (n, inr (r, all)) ↦ inr ((h, n), inr (ground (arith, fresh_valid e now f), (f, all)))
      ]
      | inr f ↦ elim (find_slot-some client now (i + 1) i es) [
        | inl (k, r, at) ↦ inl (suc k, ground arith, HeldAt-cons e h at)
        | inr (n, r) ↦
            inr ((h, n), inl (0, ground arith, record { entry = e; at = refl; expired = f }))
      ]
    ]
  ]

  -- Every entry was updated no earlier than the given time.
  abbrev pub NoneBefore : ℕ → List (PlayerEntry F) → Type 0
  NoneBefore time [] = Unit
  NoneBefore time (e ∷ es) = (time ≤ e.last_update) × NoneBefore time es

  -- The least recently updated slot.
  pub record OldestAt (es : List (PlayerEntry F)) (k : ℕ) : Type 0 where
    pub entry : PlayerEntry F
    pub at : get_elem? es k ≡ some entry
    pub oldest : NoneBefore entry.last_update es

  NoneBefore-le : (a b : ℕ) (es : List (PlayerEntry F)) → a ≤ b → NoneBefore b es → NoneBefore a es
  NoneBefore-le a b [] h n = tt
  NoneBefore-le a b (e ∷ es) h n = (omega (arith, n.0), NoneBefore-le a b es h n.1)

  oldest_slot-some :
      (now i j oldest_ms : ℕ) (es : List (PlayerEntry F))
      → AllFresh now es
      → ((oldest_slot i (some j) oldest_ms es ≡ some j) × NoneBefore oldest_ms es)
        ⊎ ((k : ℕ) × (entry : PlayerEntry F) × (oldest_slot i (some j) oldest_ms es ≡ some (i + k))
            × (get_elem? es k ≡ some entry)
            × (entry.last_update < oldest_ms)
            × NoneBefore entry.last_update es)
  unfolding oldest_slot
  oldest_slot-some now i j oldest_ms [] f = inl (refl, tt)
  oldest_slot-some now i j oldest_ms (e ∷ es) f = elim (Bool-cases (ltb e.last_update oldest_ms)) [
    | inl lt ↦ elim (oldest_slot-some now (i + 1) i e.last_update es f.1) [
      | inl (r, n) ↦
          inr (0, e, ground (arith, fresh_valid e now f.0), refl, ground arith, (omega arith, n))
      | inr (k, entry, r, at, below, n) ↦
          inr (
            suc k,
            entry,
            ground (arith, fresh_valid e now f.0),
            at,
            ground arith,
            (omega arith, n),
          )
    ]
    | inr ge ↦ elim (oldest_slot-some now (i + 1) j oldest_ms es f.1) [
      | inl (r, n) ↦ inl (ground (arith, fresh_valid e now f.0), (ground arith, n))
      | inr (k, entry, r, at, below, n) ↦
          inr (suc k, entry, ground (arith, fresh_valid e now f.0), at, below, (ground arith, n))
    ]
  ]

  -- Times fit the 64 bits of the tick count, and the largest one does not occur.
  abbrev pub Ticks : List (PlayerEntry F) → Type 0
  Ticks [] = Unit
  Ticks (e ∷ es) = (e.last_update < 2 ^ 64 - 1) × Ticks es

  -- Among fresh entries the second loop finds the oldest one.
  pub oldest_slot-OldestAt :
      (now : ℕ) (es : List (PlayerEntry F))
      → AllFresh now es
      → Ticks es
      → 0 < length es
      → (k : ℕ) × (oldest_slot 0 none (2 ^ 64 - 1) es ≡ some k) × OldestAt es k
  unfolding oldest_slot
  oldest_slot-OldestAt now [] f t h = elim h [ ]
  oldest_slot-OldestAt now (e ∷ es) f t h = elim (oldest_slot-some now 1 0 e.last_update es f.1) [
    | inl (r, n) ↦ (
      0,
      ground (arith, fresh_valid e now f.0),
      record { entry = e; at = refl; oldest = (omega arith, n) },
    )
    | inr (k, entry, r, at, below, n) ↦ (
      suc k,
      ground (arith, fresh_valid e now f.0),
      record { entry = entry; at = at; oldest = (omega arith, n) },
    )
  ]
