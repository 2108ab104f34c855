-- ===== src/Players/Table/Late.antt =====
-- A clock read before the lock is taken (src/core/proximity/player_table.c).
use conan_exiles_teamspeak.Prelude.{
  ℕ, ◌+◌, ◌^◌, ◌<◌, ◌≡◌, false, none, some, List, [], ◌∷◌, arith, Bool-cases, inl, inr,
}
use conan_exiles_teamspeak.Players.Table.{
  PlayerEntry, PlayerTable, entry_is_fresh, holds, get_loop, get,
}
use conan_exiles_teamspeak.Players.Table.Lookup.{lookup}

module _ {F : Type 0} where
  get_loop-late :
      (client now : ℕ) (es : List (PlayerEntry F)) (e : PlayerEntry F)
      → lookup client es ≡ some e
      → entry_is_fresh e now ≡ false
      → (get_loop client now es).0 ≡ none
  unfolding get_loop lookup
  get_loop-late client now [] e h f = cc
  get_loop-late client now (d ∷ es) e h f = elim (Bool-cases (holds client d)) [
    | inl held ↦
        let same : some d ≡ some e = rw held at h in
        let d_is : d ≡ e = cc in
        let fresh : entry_is_fresh d now ≡ false = rw d_is f in ground (arith, d_is)
    | inr other ↦
        let later : lookup client es ≡ some e = rw other at h in
        ground (arith, get_loop-late client now es e later f)
  ]

  late_expired :
      (e : PlayerEntry F) (now : ℕ)
      → now < e.last_update
      → e.last_update < now + 1000
      → e.last_update < 2 ^ 64
      → entry_is_fresh e now ≡ false
  unfolding entry_is_fresh
  late_expired e now h h' big = ground arith

  -- A get whose clock was read less than a second before another thread's put finds nothing,
  -- although the player's entry was just written: the unsigned age wraps around.
  pub late_get_misses :
      (t : PlayerTable F) (now client : ℕ) (e : PlayerEntry F)
      → lookup client t.players ≡ some e
      → now < e.last_update
      → e.last_update < now + 1000
      → e.last_update < 2 ^ 64
      → (get t now client).0 ≡ none
  unfolding get
  late_get_misses t now client e h early near big =
      ground (arith, get_loop-late client now t.players e h (late_expired e now early near big))
