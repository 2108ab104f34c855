-- ===== src/Players/Talk.antt =====
-- Who is talking, and the nearest talkers for the game mod (src/core/proximity/talk_state.c).
pub mod Cuts
pub mod Nearest
use conan_exiles_teamspeak.Prelude.{
  ℕ, zero, suc, ◌+◌, ◌-◌, Bool, true, false, not, ◌&&◌, ◌||◌, Option, none, some, List, [], ◌∷◌,
  ◌++◌, ltb, leb, ◌==◌, if◌then◌else◌, length, get_elem?, get_or, take, drop, put_at,
}
use conan_exiles_teamspeak.CText.{Bytes, codes}
use conan_exiles_teamspeak.Floats.{Floats}
use conan_exiles_teamspeak.Players.Table.{PlayerEntry, PlayerTable, snapshot, max_players}

-- `TALK_STATE_MAX_CLIENT_ID`, `TALK_MAX_TALKERS`
abbrev pub max_client_id : ℕ
max_client_id = 4096

abbrev pub max_talkers : ℕ
max_talkers = 16

-- `g_talk` and `g_localTalk`; each access is one atomic step.
pub record TalkState : Type 0 where
  pub talk : ℕ → Bool
  pub local_talk : Bool

-- `talk_state_set`
unfoldable pub set_talk : TalkState → ℕ → Bool → Bool → TalkState
set_talk t client talking is_local =
    let t' = if is_local then record t { local_talk = talking } else t in
    if not (client == 0) && ltb client max_client_id
    then record t' { talk = put_at t'.talk client talking }
    else t'

-- `talk_state_is_talking`
unfoldable pub is_talking : TalkState → ℕ → Bool
is_talking t client = if client == 0 || leb max_client_id client then false else t.talk client

-- `talk_state_clear_client`
unfoldable pub clear_client : TalkState → ℕ → TalkState
clear_client t client =
    if not (client == 0) && ltb client max_client_id
    then record t { talk = put_at t.talk client false }
    else t

-- `talk_state_clear`
unfoldable pub clear : TalkState → TalkState
clear t = record t {
  talk = λ client. if ltb client max_client_id then false else t.talk client;
  local_talk = false;
}

module _ {F : Type 0} (fl : Floats F) where
  -- `prox_distance`
  unfoldable pub prox_distance : F × F × F → F × F × F → F
  prox_distance (x1, y1, z1) (x2, y2, z2) =
      let dx = fl.subtract x2 x1 in
      let dy = fl.subtract y2 y1 in
      let dz = fl.subtract z2 z1 in
      fl.sqrtf (fl.add (fl.add (fl.multiply dx dx) (fl.multiply dy dy)) (fl.multiply dz dz))

  -- `pick` and `pickDist`: the picked players with their distances, `picked` of them.
  abbrev pub Picks : Type 0
  Picks = List (PlayerEntry F × F)

  -- The loop for the slot, from the last pick down.
  unfoldable pub slot_back : Picks → F → ℕ → ℕ
  slot_back picks d zero = 0
  slot_back picks d (suc k) =
      let lower = slot_back picks d k in
      elim (get_elem? picks k) [
        | none ↦ suc k
        | some (e, dist) ↦ if fl.less d dist then lower else suc k
      ]

  -- A pick at its slot: the later ones move up by one, and the last one is dropped if all the
  -- places are taken.
  unfoldable pub pick_at : Picks → PlayerEntry F → F → Picks
  unfolding slot_back
  pick_at picks e d =
      let slot = slot_back picks d (length picks) in
      let last = if ltb (length picks) max_talkers then length picks else max_talkers - 1 in
      if leb max_talkers slot
      then picks
      else take slot picks ++ ((e, d) ∷ drop slot (take last picks))

  -- The loop over the snapshot.
  unfoldable pub pick_loop : TalkState → F × F × F → Picks → List (PlayerEntry F) → Picks
  unfolding pick_at
  pick_loop t local picks [] = picks
  pick_loop t local picks (e ∷ es) =
      let d = prox_distance local (e.x, e.y, e.z) in
      let counts = is_talking t e.client_id && fl.at_most d fl.fifty in
      pick_loop t local (if counts then pick_at picks e d else picks) es

  -- The talkers' text; `centimeters` stands for `%ld` of `lroundf(v * 100.0f)`.
  unfoldable pub talkers_text : (F → Bytes) → Bool → Picks → Bytes
  talkers_text centimeters more [] = []
  talkers_text centimeters more ((e, d) ∷ picks) =
      (if more then codes ";" else [])
      ++ (centimeters e.x
          ++ (codes ","
              ++ (centimeters e.z
                  ++ (codes "," ++ (centimeters e.y ++ talkers_text centimeters true picks)))))

  -- `talk_state_append_json`: the new text, or none for the answer 0, and the table that the
  -- snapshot leaves. The loop that prints stops when the buffer of 704 bytes is full; then the
  -- length is beyond it, as that of the whole text is.
  unfoldable pub append_json :
      (F → Bytes)
      → TalkState
      → PlayerTable F
      → ℕ
      → Bytes
      → ℕ
      → F × F × F
      → Option Bytes × PlayerTable F
  unfolding pick_loop talkers_text
  append_json centimeters t table now out out_size local =
      let len = length out in
      let (entries, table') = snapshot table now max_players in
      let picks = pick_loop t local [] entries in
      let text =
        codes ",\"talk\":"
        ++ (codes (if t.local_talk then "1" else "0")
            ++ (codes ",\"talkers\":\"" ++ talkers_text centimeters false picks)) in
      let tail = text ++ codes "\"}" in
      if ltb out_size 32 || ltb len 2 || not (get_or out (len - 1) 0 == 125)
      then (none, table)
      else if ltb 704 (length text + 3) || ltb out_size (len - 1 + length tail + 1)
      then (none, table')
      else (some (take (len - 1) out ++ tail), table')
