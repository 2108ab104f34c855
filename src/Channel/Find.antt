-- ===== src/Channel/Find.antt =====
-- Which channels are the hub and the ingame channel (src/ts/channel/channel_manage.c).
pub mod First
use conan_exiles_teamspeak.Prelude.{
  ℕ, Bool, true, false, not, ◌&&◌, ◌||◌, Option, none, some, List, [], ◌∷◌, ltb, leb, ◌==◌,
  if◌then◌else◌, tick_sub, length, take,
}
use conan_exiles_teamspeak.CText.{Bytes, codes}
use conan_exiles_teamspeak.Channel.Names.{lower}
use conan_exiles_teamspeak.Channel.State.{Chan, ChanEnv, max_channels, ingame_dwell_ms}

-- `_stricmp(a, b) == 0`
unfoldable pub same_text : Bytes → Bytes → Bool
same_text [] [] = true
same_text (a ∷ as') (b ∷ bs) = lower a == lower b && same_text as' bs
same_text _ _ = false

-- The name of a channel, as far as it can be read, is the expected one.
unfoldable pub named : (ℕ → Option Bytes) → ℕ → Bytes → Bool
unfolding same_text
named channel_name channel expected = elim (channel_name channel) [
  | none ↦ false
  | some name ↦ same_text name expected
]

-- The loop over the channel list, with `hub` and `ingame` found so far.
unfoldable pub scan : (ℕ → Option Bytes) → ℕ → ℕ → List ℕ → ℕ × ℕ
unfolding named
scan channel_name hub ingame [] = (hub, ingame)
scan channel_name hub ingame (c ∷ cs) =
    let is_hub = hub == 0 && named channel_name c (codes "hub") in
    let is_ingame = not is_hub && ingame == 0 && named channel_name c (codes "ingame") in
    scan channel_name (if is_hub then c else hub) (if is_ingame then c else ingame) cs

-- `chan_find_hub_and_ingame`
unfoldable pub find_hub_and_ingame : ChanEnv → Chan → Bool × Chan
unfolding scan
find_hub_and_ingame env s =
    let both = λ (hub ingame : ℕ). not (hub == 0) && not (ingame == 0) in
    let listed = take max_channels env.channels in
    if not env.on_callback || not env.connected
    then (false, s)
    else if length listed == 0
    then (both s.hub s.ingame, s)
    else let (hub, ingame) = scan env.channel_name 0 0 listed in
      let cut = leb max_channels (length listed) in
      let hub' = if cut && hub == 0 then s.hub else hub in
      let ingame' = if cut && ingame == 0 then s.ingame else ingame in
      (both hub' ingame', record s { hub = hub'; ingame = ingame' })

-- `chan_channel_name_is`
unfoldable pub channel_name_is : ChanEnv → ℕ → Bytes → Bool
unfolding named
channel_name_is env channel expected = not (channel == 0) && named env.channel_name channel expected

-- `chan_is_hub_channel`
unfoldable pub is_hub_channel : ChanEnv → Chan → ℕ → Bool
is_hub_channel env s channel =
    if not (s.hub == 0) then channel == s.hub else channel_name_is env channel (codes "hub")

-- `chan_is_ingame_channel`
unfoldable pub is_ingame_channel : ChanEnv → Chan → ℕ → Bool
is_ingame_channel env s channel =
    if not (s.ingame == 0)
    then channel == s.ingame
    else channel_name_is env channel (codes "ingame")

-- `chan_is_root_channel`
unfoldable pub is_root_channel : ChanEnv → ℕ → Bool
is_root_channel env channel = channel_name_is env channel (codes "root")

-- `chan_should_be_ingame`
unfoldable pub should_be_ingame : ChanEnv → Chan → Bool
should_be_ingame env s =
    env.coordinates_valid
    || (not (s.ingame_arrival == 0) && ltb (tick_sub env.later s.ingame_arrival) ingame_dwell_ms)
