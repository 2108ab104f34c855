-- ===== src/Channel/State.antt =====
-- The state of the channel manager, what one of its calls is told, and what it makes others do
-- (src/ts/channel/channel_manage.c). All of it runs on the callback thread, but for the three
-- flags that other threads raise.
use conan_exiles_teamspeak.Prelude.{ℕ, Bool, false, Option, List, [], ◌∷◌}
use conan_exiles_teamspeak.CText.{Bytes}
use conan_exiles_teamspeak.Prelude.{replicate}
use conan_exiles_teamspeak.Channel.Backoff.{ChanMoveBackoff, backoff_reset}

-- `CHAN_TICK_MIN_MS`, `CHAN_FIND_RETRY_MS`, `CHAN_MOVE_COOLDOWN_MS`, `CHAN_MOVE_INFLIGHT_MAX_MS`,
-- `CHAN_INGAME_DWELL_MS`, `CHAN_MAX_CHANNELS`, `CHAN_IGNORE_CACHE_SIZE`, `CHAN_IGNORE_CACHE_TTL_MS`
abbrev pub tick_min_ms : ℕ
tick_min_ms = 500

abbrev pub find_retry_ms : ℕ
find_retry_ms = 5000

abbrev pub move_cooldown_ms : ℕ
move_cooldown_ms = 2000

abbrev pub move_inflight_max_ms : ℕ
move_inflight_max_ms = 5000

abbrev pub ingame_dwell_ms : ℕ
ingame_dwell_ms = 30000

abbrev pub max_channels : ℕ
max_channels = 1024

abbrev pub ignore_cache_size : ℕ
ignore_cache_size = 16

abbrev pub ignore_cache_ttl_ms : ℕ
ignore_cache_ttl_ms = 30000

-- An entry of `g_ignoreCache`
pub record IgnoreEntry : Type 0 where
  pub channel : ℕ
  pub ignored : Bool
  pub cached_at : ℕ

abbrev pub empty_entry : IgnoreEntry
empty_entry = record { channel = 0; ignored = false; cached_at = 0 }

-- The static variables of channel_manage.c; the stamps of its log lines are left out.
pub record Chan : Type 0 where
  pub hub : ℕ
  pub ingame : ℕ
  pub last_find : ℕ
  pub in_flight : Bool
  pub in_flight_since : ℕ
  pub move_target : ℕ
  pub move_to_ingame : Bool
  pub last_move : ℕ
  pub last_tick : ℕ
  pub backoff : ChanMoveBackoff
  pub position_pending : Bool
  pub list_dirty : Bool
  pub move_wanted : Bool
  pub ingame_arrival : ℕ
  pub ignore_cache : List IgnoreEntry
  pub deaf_poll : Bool
  pub hint_shown : Bool

-- What one call is told. The clock is read first for `now`; all reads later in the call are
-- `later`. The SDK answers with the channels (none on an error), their names, whether one is
-- protected (none if unknown), the clients in the own channel and whether they have muted their
-- speakers (none if unknown), and whether it takes a move request.
pub record ChanEnv : Type 0 where
  pub on_callback : Bool
  pub connected : Bool
  pub now : ℕ
  pub later : ℕ
  pub channels : List ℕ
  pub channel_name : ℕ → Option Bytes
  pub has_password : ℕ → Option Bool
  pub local_id : ℕ
  pub own_channel : ℕ
  pub clients : List ℕ
  pub speakers_muted : ℕ → Option Bool
  pub takes_move : Bool
  pub profile_active : Bool
  pub ingame_password : Option Bytes
  pub coordinates_valid : Bool
  pub distance_muting : Bool
  pub auto_move : Bool
  pub force_speakers_on : Bool

-- `TS3_AUDIO_PASSTHROUGH`, `TS3_AUDIO_PROXIMITY`, `TS3_AUDIO_MUTE`
pub data AudioMode : Type 0 where
  passthrough proximity mute : AudioMode

-- The calls of other modules, in order: a move request that the SDK takes, the two calls of the
-- nickname module, the audio mode, the deaf flags, the wakeup and the hint in the chat.
pub data ChanEffect : Type 0 where
  request_client_move : ℕ → Bytes → ChanEffect
  anonymize : ℕ → ChanEffect
  restore : ChanEffect
  set_audio_mode : AudioMode → ChanEffect
  clear_deaf : ChanEffect
  set_deaf : ℕ → Bool → ChanEffect
  wakeup : ChanEffect
  speaker_hint : ChanEffect

-- `chan_reset`
unfoldable pub reset : Chan × List ChanEffect
reset = (
  record {
    hub = 0;
    ingame = 0;
    last_find = 0;
    in_flight = false;
    in_flight_since = 0;
    move_target = 0;
    move_to_ingame = false;
    last_move = 0;
    last_tick = 0;
    backoff = backoff_reset;
    position_pending = false;
    list_dirty = false;
    move_wanted = false;
    ingame_arrival = 0;
    ignore_cache = replicate ignore_cache_size empty_entry;
    deaf_poll = false;
    hint_shown = false;
  },
  set_audio_mode passthrough ∷ clear_deaf ∷ [],
)
