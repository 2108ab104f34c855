-- ===== src/Players/Table.antt =====
-- The table of remote players (src/core/proximity/player_table.c). Coordinates are floats the
-- table only copies: any type `F` stands for them, with the all-zero bits `zero_bits`.
--
-- Each function holds the table's lock from its first access to its last, so each is one step;
-- `now` is the tick count read before the lock is taken.
pub mod Slots
pub mod Lookup
pub mod Stored
pub mod Evict
pub mod Snapshot
pub mod Late
use conan_exiles_teamspeak.Prelude.{
  ℕ, zero, suc, ◌+◌, ◌-◌, ◌%◌, ◌^◌, Bool, true, false, not, ◌&&◌, ◌||◌, Option, none, some, List,
  [], ◌∷◌, ltb, leb, ◌==◌, if◌then◌else◌, tick_sub, length, get_elem?, set, take,
}
use conan_exiles_teamspeak.Prelude.{replicate}
use conan_exiles_teamspeak.CText.{Bytes}

-- `PLAYER_TABLE_MAX_PLAYERS`, `PLAYER_TABLE_STALE_MS`, `PLAYER_NAME_LEN`
abbrev pub max_players : ℕ
max_players = 512

abbrev pub stale_ms : ℕ
stale_ms = 120000

abbrev pub name_len : ℕ
name_len = 17

-- `PlayerEntry`
pub record PlayerEntry (F : Type 0) : Type 0 where
  pub client_id : ℕ
  pub name : Bytes
  pub x : F
  pub y : F
  pub z : F
  pub voice_distance : F
  pub last_update : ℕ
  pub valid : Bool

-- `g_players` and `g_evictionCount`
pub record PlayerTable (F : Type 0) : Type 0 where
  pub players : List (PlayerEntry F)
  pub evictions : ℕ

-- What a caller of `player_table_put` gets: the answer, the evicted client (0 for none) and the
-- line logged, with the number of the eviction and the dropped client.
pub record PutResult (F : Type 0) : Type 0 where
  pub table : PlayerTable F
  pub stored : Bool
  pub evicted : ℕ
  pub logged : Option (ℕ × ℕ)

-- The counter is a `long` of 32 bits, printed by the line; here its bits are read without sign.
unfoldable pub eviction_line : ℕ → ℕ → Option (ℕ × ℕ)
eviction_line number dropped =
    if number == 1 || number % 16 == 0 then some (number, dropped) else none

module _ {F : Type 0} where
  -- `entry_is_fresh`
  unfoldable pub entry_is_fresh : PlayerEntry F → ℕ → Bool
  entry_is_fresh e now = e.valid && leb (tick_sub now e.last_update) stale_ms

  -- The test of the loops for the slot of a client.
  unfoldable pub holds : ℕ → PlayerEntry F → Bool
  holds client e = e.valid && e.client_id == client

  -- `freeSlot` after a slot: the first one that may be reused.
  unfoldable pub next_free : ℕ → ℕ → Option ℕ → PlayerEntry F → Option ℕ
  unfolding entry_is_fresh
  next_free now i none e = if not e.valid || not (entry_is_fresh e now) then some i else none
  next_free now i (some k) e = some k

  -- The first loop of `player_table_put`: the client's slot, or else the first reusable one.
  unfoldable pub find_slot : ℕ → ℕ → ℕ → Option ℕ → List (PlayerEntry F) → Option ℕ
  unfolding next_free holds
  find_slot client now i free_slot [] = free_slot
  find_slot client now i free_slot (e ∷ es) =
      let later = find_slot client now (i + 1) (next_free now i free_slot e) es in
      if holds client e then some i else later

  -- The second loop: the slot with the oldest update, or one that is not valid.
  unfoldable pub oldest_slot : ℕ → Option ℕ → ℕ → List (PlayerEntry F) → Option ℕ
  oldest_slot i oldest oldest_ms [] = oldest
  oldest_slot i oldest oldest_ms (e ∷ es) =
      let later =
        if ltb e.last_update oldest_ms
        then oldest_slot (i + 1) (some i) e.last_update es
        else oldest_slot (i + 1) oldest oldest_ms es in
      if not e.valid then some i else later

  -- The slot that `player_table_put` writes.
  unfoldable pub put_slot : ℕ → ℕ → List (PlayerEntry F) → Option ℕ
  unfolding find_slot oldest_slot
  put_slot client now es = elim (find_slot client now 0 none es) [
    | some k ↦ some k
    | none ↦ oldest_slot 0 none (2 ^ 64 - 1) es
  ]

  -- The entry written over `e`; a NULL name counts as the empty one.
  unfoldable pub overwrite : PlayerEntry F → ℕ → ℕ → Bytes → F → F → F → F → PlayerEntry F
  unfolding entry_is_fresh
  overwrite e client now name x y z voice_distance =
      let slot_reused = not e.valid || not (e.client_id == client) || not (entry_is_fresh e now) in
      record {
        client_id = client;
        name =
            if not (length name == 0)
            then take (name_len - 1) name
            else if slot_reused
            then []
            else e.name;
        x = x;
        y = y;
        z = z;
        voice_distance = voice_distance;
        last_update = now;
        valid = true;
      }

  -- The entry at a slot and the client it loses to `client`, 0 for none.
  unfoldable pub loser : PlayerEntry F → ℕ → ℕ
  loser e client = if e.valid && not (e.client_id == client) then e.client_id else 0

  -- `player_table_put` with a place for the evicted client, as its only caller passes one.
  unfoldable pub put : PlayerTable F → ℕ → ℕ → Bytes → F → F → F → F → PutResult F
  unfolding put_slot overwrite loser eviction_line
  put t now client name x y z voice_distance =
      if client == 0
      then record { table = t; stored = false; evicted = 0; logged = none }
      else elim (put_slot client now t.players) [
        | none ↦ record { table = t; stored = false; evicted = 0; logged = none }
        | some slot ↦ elim (get_elem? t.players slot) [
          | none ↦ record { table = t; stored = false; evicted = 0; logged = none }
          | some e ↦
              let lost = e.valid && not (e.client_id == client) in
              let count = if lost then (t.evictions + 1) % 2 ^ 32 else t.evictions in
              record {
                table = record {
                  players = set t.players slot (overwrite e client now name x y z voice_distance);
                  evictions = count;
                };
                stored = true;
                evicted = loser e client;
                logged = if lost then eviction_line count e.client_id else none;
              }
        ]
      ]

  -- The loop of `player_table_get`.
  unfoldable pub get_loop :
      ℕ → ℕ → List (PlayerEntry F) → Option (PlayerEntry F) × List (PlayerEntry F)
  unfolding entry_is_fresh holds
  get_loop client now [] = (none, [])
  get_loop client now (e ∷ es) =
      let (found, rest) = get_loop client now es in
      if holds client e
      then (if entry_is_fresh e now
          then (some e, e ∷ es)
          else (none, record e { valid = false } ∷ es))
      else (found, e ∷ rest)

  -- `player_table_get`
  unfoldable pub get : PlayerTable F → ℕ → ℕ → Option (PlayerEntry F) × PlayerTable F
  unfolding get_loop
  get t now client =
      if client == 0
      then (none, t)
      else let (found, players) = get_loop client now t.players in
        (found, record t { players = players })

  -- The loop of `player_table_snapshot` with room for `room` entries.
  unfoldable pub snapshot_loop :
      ℕ → ℕ → List (PlayerEntry F) → List (PlayerEntry F) × List (PlayerEntry F)
  unfolding entry_is_fresh
  snapshot_loop now room [] = ([], [])
  snapshot_loop now zero (e ∷ es) = ([], e ∷ es)
  snapshot_loop now (suc room) (e ∷ es) =
      let (out, rest) = snapshot_loop now (suc room) es in
      let (out', rest') = snapshot_loop now room es in
      if not e.valid
      then (out, e ∷ rest)
      else if not (entry_is_fresh e now)
      then (out, record e { valid = false } ∷ rest)
      else (e ∷ out', e ∷ rest')

  -- `player_table_snapshot`; a count that is not positive is 0 here.
  unfoldable pub snapshot : PlayerTable F → ℕ → ℕ → List (PlayerEntry F) × PlayerTable F
  unfolding snapshot_loop
  snapshot t now max_entries =
      let (out, players) = snapshot_loop now max_entries t.players in
      (out, record t { players = players })

  unfoldable pub remove_loop : ℕ → List (PlayerEntry F) → List (PlayerEntry F)
  unfolding holds
  remove_loop client [] = []
  remove_loop client (e ∷ es) =
      let rest = remove_loop client es in
      if holds client e then record e { valid = false } ∷ es else e ∷ rest

  -- `player_table_remove`
  unfoldable pub remove : PlayerTable F → ℕ → PlayerTable F
  unfolding remove_loop
  remove t client = record t { players = remove_loop client t.players }

  -- `player_table_clear`; the count of evictions goes on.
  unfoldable pub clear : PlayerTable F → F → PlayerTable F
  clear t zero_bits = record t {
    players = replicate max_players (record {
      client_id = 0;
      name = [];
      x = zero_bits;
      y = zero_bits;
      z = zero_bits;
      voice_distance = zero_bits;
      last_update = 0;
      valid = false;
    });
  }
