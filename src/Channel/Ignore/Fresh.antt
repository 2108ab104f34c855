-- ===== src/Channel/Ignore/Fresh.antt =====
-- How old an answer of the ignore cache can be (src/ts/channel/channel_manage.c).
use conan_exiles_teamspeak.Prelude.{
  ℕ, zero, suc, ◌+◌, ◌-◌, ◌^◌, ◌<◌, ◌≡◌, ◌≢◌, ◌∙◌, ap, Bool, true, false, ◌||◌, List, [], ◌∷◌, ltb,
  ◌==◌, if◌then◌else◌, tick_sub, arith, inl, inr, ◌⊎◌, set, ==_iff, if_either,
}
use conan_exiles_teamspeak.Channel.State.{Chan, ChanEnv, IgnoreEntry, ignore_cache_ttl_ms}
use conan_exiles_teamspeak.Channel.Find.{is_hub_channel, is_ingame_channel, is_root_channel}
use conan_exiles_teamspeak.Channel.Ignore.{
  CacheSearch, hit, slot, search_cache, name_ignored, refresh, is_ignored_channel,
}

-- `said t c`: whether the name of channel `c` had an ignore keyword at time `t`. An entry in use
-- holds what the name said when the entry was written.
abbrev pub Honest : (ℕ → ℕ → Bool) → IgnoreEntry → Type 0
Honest said e = (e.channel ≡ 0) ⊎ (e.ignored ≡ said e.cached_at e.channel)

abbrev pub AllHonest : (ℕ → ℕ → Bool) → List IgnoreEntry → Type 0
AllHonest said [] = Unit
AllHonest said (e ∷ es) = Honest said e × AllHonest said es

-- An answer that was right less than 30 seconds ago.
abbrev pub Recent : (ℕ → ℕ → Bool) → ℕ → ℕ → Bool → Type 0
Recent said channel now answer =
    (at : ℕ) × (answer ≡ said at channel) × (tick_sub now at < ignore_cache_ttl_ms)

set-AllHonest :
    (said : ℕ → ℕ → Bool) (es : List IgnoreEntry) (i : ℕ) (e : IgnoreEntry)
    → Honest said e
    → AllHonest said es
    → AllHonest said (set es i e)
set-AllHonest said [] i e h hs = hs
set-AllHonest said (x ∷ es) zero e h (k, ks) = (h, ks)
set-AllHonest said (x ∷ es) (suc i) e h (k, ks) = (k, set-AllHonest said es i e h ks)

-- What the search may end with: a recent answer, or a slot.
RightSearch : (ℕ → ℕ → Bool) → ℕ → ℕ → CacheSearch → Type 0
RightSearch said channel now (hit answer) = Recent said channel now answer
RightSearch said channel now (slot i) = Unit

search_cache_lem :
    (said : ℕ → ℕ → Bool) (channel now i best oldest : ℕ) (es : List IgnoreEntry)
    → channel ≢ 0
    → AllHonest said es
    → RightSearch said channel now (search_cache channel now i best oldest es)
unfolding search_cache RightSearch
search_cache_lem said channel now i best oldest [] used hs = tt
search_cache_lem said channel now i best oldest (e ∷ es) used (h, hs) =
    let older = ltb e.cached_at oldest in
    let Right = RightSearch said channel now in
    if_either Right (e.channel == channel)
      (λ same.
        if_either Right (ltb (tick_sub now e.cached_at) ignore_cache_ttl_ms)
          (λ fresh. (e.cached_at, right_entry same h, ground arith)) (λ stale. tt))
      (λ other.
        search_cache_lem said channel now (i + 1) (if older then i else best)
          (if older then e.cached_at else oldest) es used hs)
  where
    right_entry :
        (e.channel == channel) ≡ true → Honest said e → e.ignored ≡ said e.cached_at channel
    right_entry same (inl unused) = ground arith
    right_entry same (inr right) = right ∙ ap (said e.cached_at) ((==_iff e.channel channel).0 same)

refresh_lem :
    (said : ℕ → ℕ → Bool) (env : ChanEnv) (s : Chan) (channel : ℕ) (found : CacheSearch)
    → AllHonest said s.ignore_cache
    → name_ignored env channel ≡ said env.later channel
    → RightSearch said channel env.later found
    → let (answer, s') = refresh env s channel found in
      Recent said channel env.later answer × AllHonest said s'.ignore_cache
unfolding refresh RightSearch
refresh_lem said env s channel (hit answer) hs now right = (right, hs)
refresh_lem said env s channel (slot i) hs now right = (
  (env.later, now, ground arith),
  set-AllHonest said s.ignore_cache i
      record { channel = channel; ignored = name_ignored env channel; cached_at = env.later }
      (inr now) hs,
)

-- For a channel other than the hub, the ingame and the root channel, `chan_is_ignored_channel`
-- answers what the channel's name said less than 30 seconds before the call, when each cache
-- entry in use holds what its name said when it was written, and the name can be read as it is;
-- and the cache stays so.
pub is_ignored_channel_lem :
    (said : ℕ → ℕ → Bool) (env : ChanEnv) (s : Chan) (channel : ℕ)
    → channel ≢ 0
    → is_hub_channel env s channel ≡ false
    → is_ingame_channel env s channel ≡ false
    → is_root_channel env channel ≡ false
    → name_ignored env channel ≡ said env.later channel
    → AllHonest said s.ignore_cache
    → let (answer, s') = is_ignored_channel env s channel in
      Recent said channel env.later answer × AllHonest said s'.ignore_cache
unfolding is_ignored_channel
is_ignored_channel_lem said env s channel used no_hub no_ingame no_root now hs =
    let found = search_cache channel env.later 0 0 (2 ^ 64 - 1) s.ignore_cache in
    let Goal : Bool × Chan → Type 0 =
      λ r. Recent said channel env.later r.0 × AllHonest said r.1.ignore_cache in
    if_either Goal
      (channel == 0
        || is_hub_channel env s channel
        || is_ingame_channel env s channel
        || is_root_channel env channel)
      (λ known. ground arith)
      (λ unknown.
        refresh_lem said env s channel found hs now
          (search_cache_lem said channel env.later 0 0 (2 ^ 64 - 1) s.ignore_cache used hs))
