-- ===== src/Proto/Auth/Handshake.antt =====
-- CEAUTH: the exchange of identities between clients.
use conan_exiles_teamspeak.Prelude.{
  ℕ, ◌+◌, ◌≤◌, ◌<◌, ◌≡◌, ◌≢◌, Bool, true, false, not, ◌&&◌, List, [], ◌∷◌, ◌++◌, if◌then◌else◌,
  tick_sub, arith, ◌⊎◌, length, length-append,
}
use conan_exiles_teamspeak.CText.{Bytes, print}
use conan_exiles_teamspeak.Proto.{Env, Effect, send, client_id_valid, plugin_name_matches, is_own}
use conan_exiles_teamspeak.Proto.Auth.{
  prefix, id_modulus, Ceauth, accepted, store_identity, on_plugin_command, flush, send_min_ms,
}
use conan_exiles_teamspeak.Proto.Auth.Codec.{
  strip_prefix-prefix, wire_format-fits, wire_parse-print,
}

-- One plugin command as it arrives.
pub record Arrival : Type 0 where
  pub env : Env
  pub plugin_name : Bytes
  pub command : Bytes
  pub invoker : ℕ

-- The handler over a sequence of arrivals: the last state and all effects.
pub receive_all : Ceauth → List Arrival → Ceauth × List Effect
receive_all s [] = (s, [])
receive_all s (a ∷ more) =
    let (handled, s', effects) = on_plugin_command a.env a.plugin_name a.command a.invoker s in
    let (s'', later) = receive_all s' more in (s'', effects ++ later)

abbrev pub bit : Bool → ℕ
bit b = if b then 1 else 0

on_plugin_command-bit :
    (env : Env) (name command : Bytes) (invoker : ℕ) (s : Ceauth)
    → let (handled, s', effects) = on_plugin_command env name command invoker s in
      length effects + bit s.send_pending ≡ bit s'.send_pending
unfolding on_plugin_command
on_plugin_command-bit env name command invoker s = ground arith

-- However many peers announce themselves between two flushes, their replies cost one wakeup in
-- all, and none if a send was pending already.
pub auth_replies_coalesce :
    (arrivals : List Arrival) (s : Ceauth)
    → let (s', effects) = receive_all s arrivals in
      length effects + bit s.send_pending ≡ bit s'.send_pending
unfolding receive_all
auth_replies_coalesce [] s = omega arith
auth_replies_coalesce (a ∷ more) s =
    let r = on_plugin_command a.env a.plugin_name a.command a.invoker s in
    omega (
      arith,
      on_plugin_command-bit a.env a.plugin_name a.command a.invoker s,
      auth_replies_coalesce more r.1,
      length-append r.2 (receive_all r.1 more).1,
    )

-- The command that announces an identity.
abbrev pub announce : ℕ → Bytes
announce id = prefix ++ print 1 (b';' ∷ print id [])

-- A handler call looks at the command: not shutting down, on the callback thread, from a known
-- plugin name, and from another client with a valid id.
pub record Listens (env : Env) (name : Bytes) (invoker : ℕ) : Type 0 where
  pub running : env.shutting_down ≡ false
  pub thread : env.on_callback ≡ true
  pub known_name : plugin_name_matches env.plugin_id name ≡ true
  pub foreign : is_own env invoker ≡ false
  pub valid : client_id_valid invoker ≡ true

pub on_plugin_command-announce :
    (env : Env) (name : Bytes) (invoker id : ℕ) (s : Ceauth)
    → Listens env name invoker
    → id ≢ 0
    → id < id_modulus
    → on_plugin_command env name (announce id) invoker s
      ≡ (let (s', effects) = store_identity invoker id s in (true, s', effects))
unfolding on_plugin_command accepted
on_plugin_command-announce env name invoker id s l h k =
    ground (arith, strip_prefix-prefix (print 1 (b';' ∷ print id [])), wire_parse-print id h k)

flush-sends :
    (env : Env) (id : ℕ) (s : Ceauth)
    → env.on_callback && env.connected && not env.shutting_down ≡ true
    → env.can_send ≡ true
    → s.send_pending ≡ true
    → (s.last_send_ms ≡ 0) ⊎ (send_min_ms ≤ tick_sub env.now s.last_send_ms)
    → id ≢ 0
    → id < id_modulus
    → (flush env id s).1 ≡ send (announce id) ∷ []
unfolding flush
flush-sends env id s r c p d h k = ground (arith, wire_format-fits id h k)

stored-steam_id :
    (peer id : ℕ) (s : Ceauth) → ((store_identity peer id s).0.peers peer).steam_id ≡ id
unfolding store_identity
stored-steam_id peer id s = ground arith

stored-pending :
    (peer id : ℕ) (s : Ceauth)
    → (s.peers peer).replied ≡ false
    → (store_identity peer id s).0.send_pending ≡ true
unfolding store_identity
stored-pending peer id s r = ground arith

stored-last_send_ms :
    (peer id : ℕ) (s : Ceauth) → (store_identity peer id s).0.last_send_ms ≡ s.last_send_ms
unfolding store_identity
stored-last_send_ms peer id s = ground arith

-- A client that hears the identity of a peer for the first time stores it, and its next flush,
-- where it may run and send, answers with its own; the peer that hears the answer stores that.
pub auth_exchange :
    (here there : Env) (name_here name_there : Bytes) (me peer my_id peer_id : ℕ) (s t : Ceauth)
    → Listens here name_there peer
    → Listens there name_here me
    → my_id ≢ 0
    → my_id < id_modulus
    → peer_id ≢ 0
    → peer_id < id_modulus
    → (s.peers peer).replied ≡ false
    → here.connected ≡ true
    → here.can_send ≡ true
    → (s.last_send_ms ≡ 0) ⊎ (send_min_ms ≤ tick_sub here.now s.last_send_ms)
    → let heard = (on_plugin_command here name_there (announce peer_id) peer s).1 in
      let answered = on_plugin_command there name_here (announce my_id) me t in
      ((heard.peers peer).steam_id ≡ peer_id)
      × ((flush here my_id heard).1 ≡ send (announce my_id) ∷ [])
      × ((answered.1.peers me).steam_id ≡ my_id)
auth_exchange here there nh nt me peer my_id peer_id s t l m h1 h2 h3 h4 r c cs d =
    rw
      (
        on_plugin_command-announce here nt peer peer_id s l h3 h4,
        on_plugin_command-announce there nh me my_id t m h1 h2,
      )
      (stored-steam_id peer peer_id s, answer, stored-steam_id me my_id t)
  where
    heard : Ceauth
    heard = (store_identity peer peer_id s).0

    runs : here.on_callback && here.connected && not here.shutting_down ≡ true
    runs = ground (arith, l.thread, l.running)

    answer : (flush here my_id heard).1 ≡ send (announce my_id) ∷ []
    answer =
        flush-sends here my_id heard runs cs (stored-pending peer peer_id s r)
          (rw (stored-last_send_ms peer peer_id s) d) h1 h2
