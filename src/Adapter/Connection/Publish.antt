-- ===== src/Adapter/Connection/Publish.antt =====
-- The publish order of the connection identity.
use conan_exiles_teamspeak.Prelude.{
  ℕ, ◌≡◌, ◌≢◌, true, false, not, ◌&&◌, ◌||◌, some, List, [], ◌∷◌, ◌==◌, arith, Bool-cases, inl, inr,
}
use conan_exiles_teamspeak.Adapter.Connection.{
  Sdk, Identity, Store, apply, Status, disconnected, connecting, connection_established,
  in_background, on_connect_status_changed, on_active_server_changed,
}

-- A reader that sees `connected` sees the own client id of the connection that it sees.
abbrev pub IsWhole : Sdk → Identity → Type 0
IsWhole sdk s = s.connected ≡ true → sdk.client_of s.active ≡ some s.local_client

-- Whatever part of the writes has been made.
abbrev pub AtAllTimes : (Identity → Type 0) → List Store → Identity → Type 0
AtAllTimes P [] s = P s
AtAllTimes P (w ∷ ws) s = P s × AtAllTimes P ws (apply w s)

-- At no point between two writes of a status event is `connected` set beside a half-published
-- identity, if the SDK knows the own client id on the connection that is established.
pub status_publishes-IsWhole :
    (sdk : Sdk) (s : Identity) (conn client : ℕ) (status : Status)
    → IsWhole sdk s
    → sdk.client_of conn ≡ some client
    → AtAllTimes (IsWhole sdk) (on_connect_status_changed sdk s conn status).1 s
unfolding on_connect_status_changed apply
status_publishes-IsWhole sdk s conn client disconnected h k =
    elim (Bool-cases (not (s.active == 0) && not (conn == s.active))) [
      | inl e ↦ rw e h
      | inr e ↦ rw e (h, ((λ c. cc), ((λ c. cc), ((λ c. cc), λ c. cc))))
    ]
status_publishes-IsWhole sdk s conn client connecting h k = h
status_publishes-IsWhole sdk s conn client connection_established h k =
    elim (Bool-cases (in_background sdk s conn)) [
      | inl e ↦ rw e h
      | inr e ↦ rw (e, k) (h, ((λ c. cc), ((λ c. cc), ((λ c. cc), ((λ c. k), λ c. k)))))
    ]

-- The same for a change of the active tab, to one that is established or not.
pub tab_publishes-IsWhole :
    (sdk : Sdk) (s : Identity) (conn client : ℕ)
    → IsWhole sdk s
    → sdk.client_of conn ≡ some client
    → AtAllTimes (IsWhole sdk) (on_active_server_changed sdk s conn).1 s
unfolding on_active_server_changed apply
tab_publishes-IsWhole sdk s conn client h k = elim (Bool-cases (conn == 0 || conn == s.active)) [
  | inl e ↦ rw e h
  | inr e ↦ elim (Bool-cases (sdk.established conn)) [
    | inl up ↦
        rw (e, up, k) (h, ((λ c. cc), ((λ c. cc), ((λ c. cc), ((λ c. cc), ((λ c. k), λ c. k))))))
    | inr down ↦ rw (e, down) (h, ((λ c. cc), ((λ c. cc), ((λ c. cc), λ c. cc))))
  ]
]

-- Events of other tabs leave a live connection alone: a disconnect of an inactive tab, and a
-- connect of a tab that the user does not look at, write nothing and are not passed on.
pub other_tabs_ignored :
    (sdk : Sdk) (s : Identity) (conn : ℕ)
    → s.active ≢ 0
    → conn ≢ s.active
    → (on_connect_status_changed sdk s conn disconnected ≡ (false, []))
      × (s.connected ≡ true
          → sdk.current_tab ≢ some conn
          → conn ≢ 0
          → on_connect_status_changed sdk s conn connection_established ≡ (false, []))
unfolding on_connect_status_changed
other_tabs_ignored sdk s conn h k = (ground arith, λ c t z. ground arith)
