-- ===== src/Channel/Find/First.antt =====
-- The search against the first channels of a name (src/ts/channel/channel_manage.c).
use conan_exiles_teamspeak.Prelude.{
  ℕ, ◌≡◌, ◌≢◌, refl, ◌∙◌, ap₂, Bool, true, false, not, ◌&&◌, Option, none, some, List, [], ◌∷◌, leb,
  ◌==◌, if◌then◌else◌, arith, Bool-cases, inl, inr, length, take,
}
use conan_exiles_teamspeak.CText.{Bytes, codes}
use conan_exiles_teamspeak.Channel.State.{Chan, ChanEnv, max_channels}
use conan_exiles_teamspeak.Channel.Find.{same_text, named, scan, find_hub_and_ingame}

-- A channel list of the SDK holds no zero: the zero ends it.
abbrev pub Ids : List ℕ → Type 0
Ids [] = Unit
Ids (c ∷ cs) = (c ≢ 0) × Ids cs

-- The first channel of a list with a name, 0 if there is none.
abbrev pub first_named : (ℕ → Option Bytes) → Bytes → List ℕ → ℕ
first_named channel_name expected [] = 0
first_named channel_name expected (c ∷ cs) =
    if named channel_name c expected then c else first_named channel_name expected cs

-- What the search should set an id to: the first channel so named; the old id if nothing is
-- listed, or if the list is cut off and has none.
abbrev pub found_or_kept : ChanEnv → Bytes → ℕ → ℕ
found_or_kept env expected kept =
    let listed = take max_channels env.channels in
    let first = first_named env.channel_name expected listed in
    if length listed == 0
    then kept
    else if leb max_channels (length listed) && first == 0
    then kept
    else first

-- No name is that of both channels.
hub_or_ingame :
    (name : Bytes) → same_text name (codes "hub") ≡ true → same_text name (codes "ingame") ≡ false
unfolding same_text
hub_or_ingame [] h = refl
hub_or_ingame (a ∷ as') h = ground arith

named_once :
    (channel_name : ℕ → Option Bytes) (c : ℕ)
    → named channel_name c (codes "hub") ≡ true
    → named channel_name c (codes "ingame") ≡ false
unfolding named
named_once channel_name c h = go (channel_name c) h
  where
    go :
        (o : Option Bytes)
        → elim o [ none ↦ false | some name ↦ same_text name (codes "hub") ] ≡ true
        → elim o [ none ↦ false | some name ↦ same_text name (codes "ingame") ] ≡ false
    go none h' = refl
    go (some name) h' = hub_or_ingame name h'

-- One round of the loop, for one of the two ids: `taken` is its test.
round_lem :
    (id c later : ℕ) (taken is_named : Bool)
    → c ≢ 0
    → taken ≡ (id == 0 && is_named)
    → (if (if taken then c else id) == 0 then later else if taken then c else id)
      ≡ (if id == 0 then (if is_named then c else later) else id)
round_lem id c later taken is_named c≢0 h = ground arith

-- The test for the ingame channel does not need that for the hub.
ingame_test_lem :
    (channel_name : ℕ → Option Bytes) (hub ingame c : ℕ)
    → (not (hub == 0 && named channel_name c (codes "hub"))
        && ingame == 0
        && named channel_name c (codes "ingame"))
      ≡ (ingame == 0 && named channel_name c (codes "ingame"))
ingame_test_lem channel_name hub ingame c = elim (Bool-cases (named channel_name c (codes "hub"))) [
  | inl e ↦ let other = named_once channel_name c e in rw (e, other) (ground arith)
  | inr e ↦ rw e (ground arith)
]

-- The loop keeps what it has found, and finds the first else.
scan_lem :
    (channel_name : ℕ → Option Bytes) (hub ingame : ℕ) (cs : List ℕ)
    → Ids cs
    → scan channel_name hub ingame cs ≡ (
      if hub == 0 then first_named channel_name (codes "hub") cs else hub,
      if ingame == 0 then first_named channel_name (codes "ingame") cs else ingame,
    )
unfolding scan
scan_lem channel_name hub ingame [] ids = ap₂ (λ a b. (a, b)) (ground arith) (ground arith)
scan_lem channel_name hub ingame (c ∷ cs) (c≢0, ids) =
    let is_hub = hub == 0 && named channel_name c (codes "hub") in
    let is_ingame = not is_hub && ingame == 0 && named channel_name c (codes "ingame") in
    scan_lem channel_name (if is_hub then c else hub) (if is_ingame then c else ingame) cs ids
    ∙ ap₂ (λ a b. (a, b))
        (round_lem hub c (first_named channel_name (codes "hub") cs) is_hub
          (named channel_name c (codes "hub")) c≢0 refl)
        (round_lem ingame c (first_named channel_name (codes "ingame") cs) is_ingame
          (named channel_name c (codes "ingame")) c≢0 (ingame_test_lem channel_name hub ingame c))

-- On the callback thread of a live connection `chan_find_hub_and_ingame` sets each of the two
-- ids to the first channel of the list so named, whatever the order of the two; an id stays as
-- it was if the list is empty, or is cut off at its maximum and has no channel of the name. The
-- answer is whether both are known. A list of the SDK holds no zero.
pub find_hub_and_ingame_lem :
    (env : ChanEnv) (s : Chan)
    → env.on_callback ≡ true
    → env.connected ≡ true
    → Ids (take max_channels env.channels)
    → let hub = found_or_kept env (codes "hub") s.hub in
      let ingame = found_or_kept env (codes "ingame") s.ingame in
      find_hub_and_ingame env s
      ≡ (not (hub == 0) && not (ingame == 0), record s { hub = hub; ingame = ingame })
unfolding find_hub_and_ingame
find_hub_and_ingame_lem env s callback connected ids =
    let listed = take max_channels env.channels in
    elim (Bool-cases (length listed == 0)) [
      | inl e ↦ rw (callback, connected, e) refl
      | inr e ↦ rw (callback, connected, e, scan_lem env.channel_name 0 0 listed ids) refl
    ]
