-- ===== src/Lib.antt =====
-- The Conan Exiles TeamSpeak plugin: a model of the plugin's own logic and the theorems about it.
--
-- The plugin runs inside the TeamSpeak client. The game mod posts the player's position to a
-- local HTTP server (src/core/http), the clients of one voice server exchange plugin commands
-- (src/ts/proximity), and a callback thread of the TeamSpeak SDK sends what other threads ask for.
-- Those threads only set flags and fill queues, and wake the callback thread by a command that
-- the server echoes (CEDRAIN, src/ts/adapter).
--
-- Parts and files:
--   Prelude, Prelude/Lists     shared types, tests on numbers, lists over native numbers
--   CText, CText/Decimal, CText/Equality
--                              the C library on text that the protocols use: strtol, snprintf
--   Floats                     what the sources use of `float`, as a parameter
--   Queue/Ring, Queue/Fifo     the bounded ring and the bounded queue it stands for
--   Queue/Command              src/ts/adapter/ts3_cmd_ring.h, and the locked queue and its drain in
--                              src/ts/adapter/ts3_adapter.c
--   Queue/Chat                 src/ui/util/ui_chat_ring.h, on the same ring
--   Queue/ReturnCode           src/ts/adapter/ts3_return_code.h
--   Queue/Worker               src/ui/util/ui_worker_slot.h, as interleavings of two threads
--   Proto                      what a handler asks of the adapter (`Env`) and makes it do (`Effect`)
--   Proto/Ping, Auth, Mode     src/ts/proximity/ts3_ceping*, ts3_ceauth*, ts3_cemode*: wire format,
--                              state, flush and handler of each command
--   Proto/Mode/Handover        voice_mode_apply (src/core/voice/voice_modes.c) against the flush
--   Proto/Base64, Proto/Name   the codec of src/ts/proximity/ts3_cepos.c and the name clean-up of
--                              src/ts/proximity/ts3_cepos_wire.h
--   Adapter/Drain              src/core/util/drain_target.h
--   Adapter/Wakeup             one round of ts3_wakeup_thread, src/core/util/wakeup_policy.h
--   Adapter/Connection         the identity that the connect events publish, write by write
--   Channel/Backoff            src/ts/channel/chan_move_backoff.h
--   Channel/Names, State, Find, Ignore, Move, Tick
--                              src/ts/channel/channel_manage.c: the ignore keywords; the static
--                              variables; the search of the channels; the ignore cache; the move
--                              request; the tick and the events. A call takes what the SDK and the
--                              other modules answer (`ChanEnv`) and yields what it makes them do
--                              (`ChanEffect`)
--   Config/Utf8                the UTF-8 test of src/core/config/config_text.h
--   Nick                       src/ts/nick/nick_anonymize.c
--   Voice/Mode, Keys, Distance src/core/voice/voice_modes.c: the switch, the hotkeys, the distance
--   Voice/Zone                 src/core/proximity/zone_resolve.c
--   Players/Table              src/core/proximity/player_table.c
--   Players/Talk               src/core/proximity/talk_state.c, on the snapshots of that table
--   Http                       src/core/http/http_request.h: headers, guard, body length, throttle
--   Hub/ModPassword            src/core/hub/mod_password.c
--   Hub/SteamIds               the SteamID lists of src/core/hub/hub_parser.c; a text stands there
--                              with the bytes behind its NUL
--   Tests                      the theorems at concrete inputs
--
-- How the code is written here: a static variable is a field of the module's state record, and
-- each function takes the state and returns the new one with what it yields. Functions that hold a
-- lock are one step. Where threads meet without a lock (worker slot, mode hand-over, switches
-- of the mode, published identity) each atomic access is a step or a write of its own. Numbers are
-- natural numbers, with the wrap-around of 32 and 64 bits written out; `long` has 32 bits, as on
-- the Windows builds. A C string is the list of its bytes before the NUL.
--
-- Bounds and fuel: printing a number n has n + 1 rounds, more than its digits; the drain of the
-- command queue has the code's own 256 rounds, as many as a full queue holds; the loops over
-- headers have the code's own bound of eight; the loop over a SteamID list has one round more
-- than there are bytes, and would yield no result if it were not to end within them; the UTF-8
-- test has as many, which is enough. Every other loop is structural.
--
-- Not modelled: sockets, files, dialogs and the log; the float arithmetic of audio and positions;
-- the SDK itself, which appears as parameters (`Env`, `Sdk`, `Round`, `ChanEnv`, `NickEnv`); the
-- rest of the hub parser, the rest of the configuration, and the profiles. A read of the clock
-- within one call of the channel manager is the time of the call or one later value.
pub mod Prelude
pub mod CText
pub mod Proto
pub mod Queue
pub mod Adapter
pub mod Channel
pub mod Config
pub mod Nick
pub mod Floats
pub mod Voice
pub mod Players
pub mod Hub
pub mod Http
pub mod Tests
