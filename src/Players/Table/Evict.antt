-- ===== src/Players/Table/Evict.antt =====
-- Which player gives way when the table is full (src/core/proximity/player_table.c).
use conan_exiles_teamspeak.Prelude.{
  ℕ, ◌≡◌, ◌≢◌, ◌∙◌, sym, Bool, true, false, none, some, arith, inl, inr, ◌⊎◌, get_elem?,
}
use mathlib.Core.Path.{subst}
use conan_exiles_teamspeak.CText.{Bytes}
use conan_exiles_teamspeak.Players.Table.{
  PlayerEntry, PlayerTable, entry_is_fresh, holds, put, loser,
}
use conan_exiles_teamspeak.Players.Table.Slots.{AllFresh, NoneBefore}
use conan_exiles_teamspeak.Players.Table.Lookup.{lookup, IsValid, put_slot-Slot, NoHolder-lookup}
use conan_exiles_teamspeak.Players.Table.Stored.{put_table}

true_is_false : {b : Bool} → b ≡ true → b ≡ false → ⊥
true_is_false h h' = cc

module _ {F : Type 0} where
  -- The entry of the evicted player: expired, or the oldest of a table full of fresh entries.
  pub record Evicted (t : PlayerTable F) (now dropped : ℕ) : Type 0 where
    pub slot : ℕ
    pub entry : PlayerEntry F
    pub at : get_elem? t.players slot ≡ some entry
    pub owner : (entry.valid ≡ true) × (entry.client_id ≡ dropped)
    pub why :
        (entry_is_fresh entry now ≡ false)
        ⊎ (AllFresh now t.players × NoneBefore entry.last_update t.players)

  loser-valid :
      (e : PlayerEntry F) (client : ℕ)
      → loser e client ≢ 0
      → (e.valid ≡ true) × (e.client_id ≡ loser e client) × (holds client e ≡ false)
  unfolding loser holds
  loser-valid e client h = ground arith

  some_same : {a b : PlayerEntry F} → some a ≡ some b → a ≡ b
  some_same h = cc

  -- In a well-formed table, a put of a client id other than 0 evicts a player only if its entry had expired, or if every slot holds a fresh entry and
  -- none is older; and only for a player that was not in the table.
  pub put_evicts_oldest :
      (t : PlayerTable F) (now client : ℕ) (name : Bytes) (x y z voice : F)
      → IsValid t
      → client ≢ 0
      → (put t now client name x y z voice).evicted ≢ 0
      → (lookup client t.players ≡ none) × Evicted t now (put t now client name x y z voice).evicted
  put_evicts_oldest t now client name x y z voice v c ev =
      let s = put_slot-Slot client now t v in
      let (stored, lost, players) = put_table t now client name x y z voice c s in
      let (valid, id, other) = loser-valid s.entry client (λ h. ev (lost ∙ h)) in
      let owner : (s.entry.valid ≡ true)
          × (s.entry.client_id ≡ (put t now client name x y z voice).evicted) =
        (valid, id ∙ sym lost) in
      elim s.why [
        | inl held ↦ absurd (true_is_false held other)
        | inr (inl (n, expired)) ↦ (
          NoHolder-lookup client t.players n,
          record { slot = s.slot; entry = s.entry; at = s.at; owner = owner; why = inl expired },
        )
        | inr (inr (n, all, oldest)) ↦
            let same : oldest.entry ≡ s.entry = some_same (sym oldest.at ∙ s.at) in
            (
              NoHolder-lookup client t.players n,
              record {
                slot = s.slot;
                entry = s.entry;
                at = s.at;
                owner = owner;
                why = inr (all, subst (λ e. NoneBefore e.last_update t.players) same oldest.oldest);
              },
            )
      ]
