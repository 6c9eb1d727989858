-- ===== src/Start.antt =====
-- src/main.rs: how a node starts. The operating system's part is in the arguments: what binding and
-- dialling an address return, and what other threads do to the shared state while the node dials.
pub mod Advertised
use avicoin.Prelude.{ℕ, Bool, true, false, Option, none, some, List, [], ◌∷◌, if◌then◌else◌}
use avicoin.Outcome.{Result, ok, err, panic, ◌>>=◌, ◌>>◌, not_listening, listener_panicked}
use avicoin.Words.{Bytes}
use avicoin.Net.{SocketAddr, Channels}
use avicoin.Node.{Config, Node, shared, record_entry}
use avicoin.Node.Peers.{Origin}
use avicoin.Config.{FileConfig, FileRead, Args, get_config}
use avicoin.Protocol.Session.{World, Entry, listening, no_peers_configured, not_connected, log}
use avicoin.Protocol.Connection.{listen, connect}

-- A bound listener, of which `main` asks the address that it has.
pub record Listener : Type 0 where
  pub local_addr : Result SocketAddr

-- `.with_context(…)` on the result of `bind`.
abbrev pub bound : Result Listener → Result Listener
bound (ok listener) = ok listener
bound (err e) = err (not_listening e)
bound panic = panic

abbrev pub is_nil : List SocketAddr → Bool
is_nil [] = true
is_nil (a ∷ addresses) = false

-- The node takes the address that its listener has for its own, and logs what it is about to do.
abbrev pub announced : SocketAddr → World → World
announced host_address w =
    let node = record w.node { config = record w.node.config { host_address = host_address } } in
    let w' = log (listening host_address) (record w { node = node }) in
    if is_nil w.node.config.addresses_to_connect then log no_peers_configured w' else w'

abbrev pub not_reached : {T : Type 0} → SocketAddr → Result T → World → World
not_reached address (ok _) w = w
not_reached address (err e) w = log (not_connected address e) w
not_reached address panic w = w

abbrev pub and_spawned : {T : Type 0} → Result T → List T → List T
and_spawned (ok stream) spawned = stream ∷ spawned
and_spawned (err e) spawned = spawned
and_spawned panic spawned = spawned

-- The loop over the addresses: an address that cannot be reached is logged and passed over.
unfoldable pub connect_all :
    {T : Type 0}
    → (SocketAddr → Result T)
    → (SocketAddr → World → World)
    → List SocketAddr
    → World
    → List (T × Origin) × World
connect_all dial meanwhile [] w = ([], w)
connect_all dial meanwhile (address ∷ addresses) w =
    let outcome = connect (dial address) in
    let (spawned, w') =
      connect_all dial meanwhile addresses (not_reached address outcome (meanwhile address w)) in
    (and_spawned outcome spawned, w')

-- `handle.join()`, where a thread that panicked has no result.
abbrev pub joined : Option (Result (Unit {0})) → Result (Unit {0})
joined none = err listener_panicked
joined (some result) = result

module _ (parse : Bytes → Option SocketAddr) (from_str : Bytes → Option FileConfig)
    (bind : SocketAddr → Result Listener) where
  -- Up to the thread that listens: the listener and the state that the threads share.
  unfoldable pub start : FileRead → Args → ℕ → Channels → Result (Listener × World)
  start file args nonce channels = do
    config ← get_config parse from_str file args
    listener ← bound (bind config.host_address)
    host_address ← listener.local_addr
    ok (
      listener,
      announced host_address (record { node = shared config nonce; channels = channels }),
    )

  -- `main`: the connections that it dialled, and the state behind the loop; it returns what the thread
  -- that listens has returned. That thread runs beside the loop, so what it does is in `meanwhile`.
  unfoldable pub main :
      {T : Type 0}
      → (SocketAddr → Result T)
      → (SocketAddr → World → World)
      → Option (Result (Unit {0}))
      → FileRead
      → Args
      → ℕ
      → Channels
      → Result (Unit {0}) × List (T × Origin) × Option World
  main dial meanwhile listened file args nonce channels = elim (start file args nonce channels) [
    | ok (listener, w) ↦
        let (spawned, w') = connect_all dial meanwhile w.node.config.addresses_to_connect w in
        (joined listened, spawned, some w')
    | err e ↦ (err e, [], none)
    | panic ↦ (panic, [], none)
  ]
