-- ===== src/Tests/Players.antt =====
-- The player table at concrete inputs.
use conan_exiles_teamspeak.Prelude.{
  ℕ, zero, suc, ◌<◌, ◌≡◌, refl, true, false, none, some, [], ◌∷◌, arith, length, take, replicate,
  length-replicate,
}
use conan_exiles_teamspeak.CText.{Bytes, codes}
use conan_exiles_teamspeak.Players.Table.{max_players, PlayerEntry, PlayerTable, holds, put, get}
use conan_exiles_teamspeak.Players.Table.Slots.{NoHolder, Ticks}
use conan_exiles_teamspeak.Players.Table.Lookup.{lookup, Unique, IsValid}
use conan_exiles_teamspeak.Players.Table.Stored.{put-get}
use conan_exiles_teamspeak.Players.Table.Evict.{put_evicts_oldest, Evicted}
use conan_exiles_teamspeak.Players.Table.Late.{late_get_misses}

abbrev blank : PlayerEntry ℕ
blank = record {
  client_id = 0;
  name = [];
  x = 0;
  y = 0;
  z = 0;
  voice_distance = 0;
  last_update = 0;
  valid = false;
}

blank-Unique : (n : ℕ) → Unique (replicate n blank)
blank-Unique zero = tt
blank-Unique (suc n) = (λ v. cc, blank-Unique n)

blank-Ticks : (n : ℕ) → Ticks (replicate n blank)
blank-Ticks zero = tt
blank-Ticks (suc n) = (omega arith, blank-Ticks n)

abbrev no_players : PlayerTable ℕ
no_players = record { players = replicate max_players blank; evictions = 0 }

abbrev old_entry : PlayerEntry ℕ
old_entry = record blank { client_id = 9; last_update = 10; valid = true }

abbrev one_player : PlayerTable ℕ
one_player = record { players = old_entry ∷ replicate 511 blank; evictions = 0 }

blank-NoHolder : (client n : ℕ) → NoHolder client (replicate n blank)
unfolding holds
blank-NoHolder client zero = tt
blank-NoHolder client (suc n) = (refl, blank-NoHolder client n)

one_player-IsValid : IsValid one_player
one_player-IsValid = record {
  size = omega (arith, length-replicate 511 blank);
  unique = (λ v. blank-NoHolder 9 511, blank-Unique 511);
  ticks = (omega arith, blank-Ticks 511);
}

old_evicted : (put one_player 200000 5 (codes "Ann") 1 2 3 20).evicted ≡ 9
unfolding put
old_evicted = refl

no_players-IsValid : IsValid no_players
no_players-IsValid = record {
  size = length-replicate max_players blank;
  unique = blank-Unique max_players;
  ticks = blank-Ticks max_players;
}

put-get_example :
    let t : PlayerTable ℕ = no_players in
    let now : ℕ = 1000 in
    let later : ℕ = 2000 in
    let client : ℕ = 5 in
    let name : Bytes = codes "Ann" in
    let x : ℕ = 1 in
    let y : ℕ = 2 in
    let z : ℕ = 3 in
    let voice : ℕ = 20 in
    let r = put t now client name x y z voice in
    (r.stored ≡ true)
    × ((e : PlayerEntry ℕ) × ((get r.table later client).0 ≡ some e)
        × (e.client_id ≡ client)
        × (e.x ≡ x)
        × (e.y ≡ y)
        × (e.z ≡ z)
        × (e.voice_distance ≡ voice)
        × (0 < length name → e.name ≡ take 16 name))
put-get_example =
    put-get no_players 1000 2000 5 (codes "Ann") 1 2 3 20 no_players-IsValid (omega arith)
      (omega arith) (omega arith) (omega arith)

put_evicts_oldest_example :
    let t : PlayerTable ℕ = one_player in
    let now : ℕ = 200000 in
    let client : ℕ = 5 in
    let name : Bytes = codes "Ann" in
    let x : ℕ = 1 in
    let y : ℕ = 2 in
    let z : ℕ = 3 in
    let voice : ℕ = 20 in
    (lookup client t.players ≡ none) × Evicted t now (put t now client name x y z voice).evicted
put_evicts_oldest_example =
    put_evicts_oldest one_player 200000 5 (codes "Ann") 1 2 3 20 one_player-IsValid (omega arith)
      (omega (arith, old_evicted))

late_get_misses_example :
    let t : PlayerTable ℕ = one_player in
    let now : ℕ = 5 in
    let client : ℕ = 9 in let e : PlayerEntry ℕ = old_entry in (get t now client).0 ≡ none
unfolding lookup holds
late_get_misses_example =
    late_get_misses one_player 5 9 old_entry refl (omega arith) (omega arith) (omega arith)
