-- ===== src/Proto.antt =====
-- The plugin commands that the clients of one server exchange, each in its own module: CEPING
-- (liveness), CEAUTH (Steam identity), CEMODE (voice mode), CEPOS (position).
--
-- Here: what the senders and receivers ask of the TeamSpeak adapter during one call on the
-- callback thread, and what they make it do.
pub mod Ping
pub mod Auth
pub mod Mode
pub mod Base64
pub mod Name
use conan_exiles_teamspeak.Prelude.{ℕ, Bool, true, false, ◌&&◌, ◌||◌, ltb, ◌==◌, []}
use conan_exiles_teamspeak.CText.{Bytes, codes, str_same}

-- The answers of the adapter: `ts3_thread_is_callback`, `ts3_is_connected`,
-- `pluginShuttingDown`, `GetTickCount64`, `ts3_get_plugin_id`, `ts3_get_local_client_id`, and
-- whether `ts3_send_plugin_command_server` sends (it returns 0 before any call of the SDK).
pub record Env : Type 0 where
  pub on_callback : Bool
  pub connected : Bool
  pub shutting_down : Bool
  pub now : ℕ
  pub plugin_id : Bytes
  pub local_client : ℕ
  pub can_send : Bool

-- `ts3_request_wakeup`, and a command given to `ts3_send_plugin_command_server` that leaves.
pub data Effect : Type 0 where
  wakeup : Effect
  send : Bytes → Effect

abbrev pub max_client_id : ℕ
max_client_id = 4096

-- `ts3_client_id_valid`
unfoldable pub client_id_valid : ℕ → Bool
client_id_valid client = ltb 0 client && ltb client max_client_id

-- `ceping_plugin_name_matches`, and the same function of CEAUTH and CEMODE. An unset name and
-- an empty one are both the empty text.
unfoldable pub plugin_name_matches : Bytes → Bytes → Bool
plugin_name_matches registered [] = false
plugin_name_matches registered name =
    str_same name registered
    || str_same name (codes "conan_exiles")
    || str_same name (codes "conan_exiles_ts")

-- The sender is ourselves: the own broadcast comes back.
abbrev pub is_own : Env → ℕ → Bool
is_own env invoker = ltb 0 invoker && invoker == env.local_client

-- A table indexed by client id, with one entry replaced.
abbrev pub update {ℓ} : {A : Type ℓ} → (ℕ → A) → ℕ → A → ℕ → A
update table key value k = elim (k == key) [ true ↦ value | false ↦ table k ]
