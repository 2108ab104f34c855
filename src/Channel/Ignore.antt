-- ===== src/Channel/Ignore.antt =====
-- The channels that suspend automatic moves, with their cache
-- (src/ts/channel/channel_manage.c).
pub mod Fresh
use conan_exiles_teamspeak.Prelude.{
  ℕ, ◌+◌, ◌-◌, ◌^◌, Bool, false, ◌||◌, none, some, List, [], ◌∷◌, ltb, ◌==◌, if◌then◌else◌,
  tick_sub, set,
}
use conan_exiles_teamspeak.Channel.Names.{has_ignore_keyword}
use conan_exiles_teamspeak.Channel.State.{Chan, ChanEnv, IgnoreEntry, ignore_cache_ttl_ms}
use conan_exiles_teamspeak.Channel.Find.{is_hub_channel, is_ingame_channel, is_root_channel}

-- What the loop over the cache ends with: an answer, or the slot to write.
pub data CacheSearch : Type 0 where
  hit : Bool → CacheSearch
  slot : ℕ → CacheSearch

-- The loop from the i-th entry on, with the oldest slot so far.
unfoldable pub search_cache : ℕ → ℕ → ℕ → ℕ → ℕ → List IgnoreEntry → CacheSearch
search_cache channel now i best oldest [] = slot best
search_cache channel now i best oldest (e ∷ es) =
    let older = ltb e.cached_at oldest in
    let later =
      search_cache channel now (i + 1) (if older then i else best)
        (if older then e.cached_at else oldest) es in
    if e.channel == channel
    then (if ltb (tick_sub now e.cached_at) ignore_cache_ttl_ms then hit e.ignored else slot i)
    else later

-- What the name of the channel says now.
unfoldable pub name_ignored : ChanEnv → ℕ → Bool
name_ignored env channel = elim (env.channel_name channel) [
  | none ↦ false
  | some name ↦ has_ignore_keyword name
]

-- The answer, and the cache with it.
unfoldable pub refresh : ChanEnv → Chan → ℕ → CacheSearch → Bool × Chan
refresh env s channel (hit ignored) = (ignored, s)
refresh env s channel (slot i) =
    let entry : IgnoreEntry = record {
      channel = channel;
      ignored = name_ignored env channel;
      cached_at = env.later;
    } in
    (name_ignored env channel, record s { ignore_cache = set s.ignore_cache i entry })

-- `chan_is_ignored_channel`
unfoldable pub is_ignored_channel : ChanEnv → Chan → ℕ → Bool × Chan
unfolding refresh
is_ignored_channel env s channel =
    if channel == 0
      || is_hub_channel env s channel
      || is_ingame_channel env s channel
      || is_root_channel env channel
    then (false, s)
    else refresh env s channel (search_cache channel env.later 0 0 (2 ^ 64 - 1) s.ignore_cache)
