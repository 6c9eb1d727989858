-- ===== src/Protocol/Connection.antt =====
-- src/protocol.rs: a connection from its start to its end, and where connections come from.
pub mod Cleanup
pub mod Opening
use avicoin.Prelude.{
  ℕ, ◌+◌, ◌⊎◌, inl, inr, Bool, true, false, Option, none, some, List, [], ◌∷◌, length,
}
use avicoin.Outcome.{Result, ok, err, panic, ◌>>=◌, ◌>>◌, writer_panicked}
use avicoin.Words.{Bytes}
use avicoin.Util.{Sha256}
use avicoin.Net.{SocketAddr, Sender, set_channel}
use avicoin.Messages.Kinds.{new_version, Version-Payload}
use avicoin.Messages.{framed}
use avicoin.Node.Peers.{Origin, dialled, accepted, Refused, outbound_queue}
use avicoin.Protocol.Session.{
  World, Registered, handling, no_peer_address, refusing, connection_ended, not_accepted, log,
  drop_registered, open_connection,
}
use avicoin.Protocol.ReadLoop.{ReadTurn, read_loop}
use avicoin.Protocol.WriteLoop.{WriteTurn, Writing, write_loop, ping_interval_default}

-- What the socket of a connection does: the three calls that prepare it, and the two loops.
pub record Socket : Type 0 where
  pub try_clone : Result (Unit {0})
  pub set_write_timeout : Result (Unit {0})
  pub set_read_timeout : Result (Unit {0})
  pub reads : List ReadTurn
  pub opened : Result (Unit {0})
  pub started : ℕ
  pub writes : List WriteTurn

-- `read_result.and(write_result)`, and the panic of the writer thread as an error.
abbrev pub joined : Result (Unit {0}) → Result (Unit {0}) → Result (Unit {0})
joined (ok _) (ok _) = ok tt
joined (ok _) (err e) = err e
joined (err e) (ok _) = err e
joined (err e) (err e') = err e
joined (ok _) panic = err writer_panicked
joined (err e) panic = err writer_panicked
joined panic write_result = panic

-- The peer leaves the table when the reader has returned, before the writer is waited for.
abbrev pub join_writer :
    Registered
    → Option (Result (Unit {0}))
    → Option (Result (Unit {0}) × World)
    → Option (Result (Unit {0}) × World)
join_writer registered writer none = none
join_writer registered none (some (panic, w)) = some (panic, drop_registered registered w)
join_writer registered none (some (ok _, w)) = none
join_writer registered none (some (err e, w)) = none
join_writer registered (some write_result) (some (read_result, w)) =
    some (joined read_result write_result, drop_registered registered w)

-- How a connection ends, where it does, and the messages that its writer has written.
abbrev pub Served : Type 0
Served = Option (Result (Unit {0}) × World) × List Bytes

abbrev pub joining_writer : Registered → Writing → Option (Result (Unit {0}) × World) → Served
joining_writer registered (result, out) reader = (join_writer registered result reader, out)

abbrev pub run_loops : Sha256 → Registered → Socket → World → Result Bytes → Served
run_loops sha registered s w (err e) = (some (err e, drop_registered registered w), [])
run_loops sha registered s w panic = (some (panic, drop_registered registered w), [])
run_loops sha registered s w (ok ours) =
    joining_writer registered
      (write_loop sha ping_interval_default ours s.opened s.started s.writes)
      (read_loop sha registered s.reads (record { ready = false; recv_buffer = []; world = w }))

abbrev pub greet : Registered → World → World
greet registered w =
    log (handling w.node.config.host_address registered.address (length w.node.peers.peers)) w

abbrev pub prepared : Sha256 → Registered → Socket → World → Result (Unit {0}) → Served
prepared sha registered s w (err e) = (some (err e, drop_registered registered w), [])
prepared sha registered s w panic = (some (panic, drop_registered registered w), [])
prepared sha registered s w (ok _) =
    run_loops sha registered s (greet registered w)
      (framed sha (new_version w.node.nonce w.node.config.host_address))

unfoldable pub handle_connection : Sha256 → Registered → Socket → World → Served
handle_connection sha registered s w =
    prepared sha registered s w (do s.try_clone; s.set_write_timeout; s.set_read_timeout)

abbrev pub ended : SocketAddr → Option (Result (Unit {0}) × World) → Option World
ended peer none = none
ended peer (some (ok _, w)) = some w
ended peer (some (err e, w)) = some (log (connection_ended peer e) w)
ended peer (some (panic, w)) = some w

abbrev pub serve : Sha256 → SocketAddr → Socket → (Registered ⊎ Refused) × World → Option World
serve sha peer s (inl registered, w) = ended peer (handle_connection sha registered s w).0
serve sha peer s (inr refusal, w) = some (log (refusing peer refusal) w)

-- `sync_channel`: a new channel under a name that the caller has not used.
abbrev pub with_channel : Sender → World → World
with_channel outbound w = record w {
  channels =
      set_channel outbound (record { capacity = outbound_queue; queued = []; connected = true })
        w.channels;
}

-- The thread that `spawn_connection` starts, once it has run to its end.
unfoldable pub spawn_connection :
    Sha256 → Result SocketAddr → Origin → Sender → Socket → World → Option World
spawn_connection sha (err e) origin outbound s w = some (log (no_peer_address e) w)
spawn_connection sha panic origin outbound s w = some w
spawn_connection sha (ok peer) origin outbound s w =
    serve sha peer s (open_connection peer origin outbound (with_channel outbound w))

-- The connections for which `listen` and `connect` start a thread.
pub listen {ℓ} : {T : Type ℓ} → List (Result T) → World → List (T × Origin) × World
listen [] w = ([], w)
listen (ok stream ∷ incoming) w =
    let (spawned, w') = listen incoming w in ((stream, accepted) ∷ spawned, w')
listen (err e ∷ incoming) w = listen incoming (log (not_accepted e) w)
listen (panic ∷ incoming) w = listen incoming w

unfoldable pub connect {ℓ} : {T : Type ℓ} → Result T → Result (T × Origin)
connect (ok stream) = ok (stream, dialled)
connect (err e) = err e
connect panic = panic
