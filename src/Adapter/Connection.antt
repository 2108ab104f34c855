-- ===== src/Adapter/Connection.antt =====
-- The identity of the connection that the threads share, and the order in which it is published
-- (src/ts/adapter/ts3_adapter.c).
pub mod Publish
use conan_exiles_teamspeak.Prelude.{
  ℕ, ◌+◌, Bool, true, false, not, ◌&&◌, ◌||◌, Option, none, some, List, [], ◌∷◌, ◌++◌, ◌==◌,
  if◌then◌else◌,
}

-- What the SDK answers: the visible tab (`none` without the function), whether a connection is
-- established, and the own client id on a connection.
pub record Sdk : Type 0 where
  pub current_tab : Option ℕ
  pub established : ℕ → Bool
  pub client_of : ℕ → Option ℕ

-- `g_activeConnection`, `g_connected`, `g_localClientID`, `g_drainEpoch`.
pub record Identity : Type 0 where
  pub active : ℕ
  pub connected : Bool
  pub local_client : ℕ
  pub drain_epoch : ℕ

-- The interlocked writes of the handlers. Another thread may read between any two of them.
pub data Store : Type 0 where
  set_connected : Bool → Store
  set_local_client : ℕ → Store
  set_active : ℕ → Store
  bump_epoch : Store

unfoldable pub apply : Store → Identity → Identity
apply (set_connected b) s = record s { connected = b }
apply (set_local_client c) s = record s { local_client = c }
apply (set_active c) s = record s { active = c }
apply bump_epoch s = record s { drain_epoch = s.drain_epoch + 1 }

unfoldable pub apply_all : List Store → Identity → Identity
unfolding apply
apply_all [] s = s
apply_all (w ∷ ws) s = apply_all ws (apply w s)

pub data Status : Type 0 where
  disconnected connecting connection_established : Status

-- The own client id is stored where the SDK knows it.
abbrev store_client : Option ℕ → List Store
store_client none = []
store_client (some client) = set_local_client client ∷ []

-- Another connection is up and is the one that the user looks at.
abbrev pub in_background : Sdk → Identity → ℕ → Bool
in_background sdk s conn =
    not (s.active == 0)
    && not (conn == s.active)
    && s.connected
    && not (elim sdk.current_tab [ none ↦ 0 | some tab ↦ tab ] == conn)

-- `ts3_on_connect_status_changed`: what it returns, and what it writes.
unfoldable pub on_connect_status_changed : Sdk → Identity → ℕ → Status → Bool × List Store
on_connect_status_changed sdk s conn disconnected =
    if not (s.active == 0) && not (conn == s.active)
    then (false, [])
    else (true, set_connected false ∷ set_local_client 0 ∷ set_active 0 ∷ bump_epoch ∷ [])
on_connect_status_changed sdk s conn connecting = (false, [])
on_connect_status_changed sdk s conn connection_established =
    if in_background sdk s conn then (false, []) else (
      true,
      (set_connected false ∷ set_active conn ∷ [])
          ++ (store_client (sdk.client_of conn) ++ (set_connected true ∷ bump_epoch ∷ [])),
    )

-- `ts3_on_active_server_changed`
unfoldable pub on_active_server_changed : Sdk → Identity → ℕ → Bool × List Store
on_active_server_changed sdk s conn = if conn == 0 || conn == s.active then (false, []) else (
  true,
  (set_connected false ∷ set_local_client 0 ∷ set_active conn ∷ [])
      ++ ((if sdk.established conn
            then store_client (sdk.client_of conn) ++ (set_connected true ∷ [])
            else [])
          ++ (bump_epoch ∷ [])),
)

-- `ts3_adopt_current_connection`
unfoldable pub adopt_current_connection : Bool → Sdk → Identity → Bool × List Store
unfolding on_active_server_changed
adopt_current_connection on_callback sdk s = elim sdk.current_tab [
  | none ↦ (false, [])
  | some conn ↦
      if not on_callback || conn == 0 then (false, []) else on_active_server_changed sdk s conn
]
