-- ===== src/Protocol/Connection/Cleanup.antt =====
-- What a connection leaves behind.
use avicoin.Prelude.{◌≡◌, refl, subst, Option, none, some, List, [], ◌∷◌, ◌++◌, All}
use avicoin.Outcome.{Result, ok, err, panic, ◌>>◌}
use avicoin.Words.{Bytes}
use avicoin.Util.{Sha256}
use avicoin.Node.{record_entry}
use avicoin.Node.Peers.{get}
use avicoin.Node.Peers.Invariant.{Inv}
use avicoin.Protocol.Session.{World, Registered}
use avicoin.Protocol.Connection.{Socket, join_writer, run_loops, prepared, greet, handle_connection}
use avicoin.Protocol.ReadLoop.{ReadTurn}
use avicoin.Protocol.ReadLoop.Deadline.{Stops, read_loop-returns}
use avicoin.Protocol.WriteLoop.{WriteTurn, disconnected, ping_interval_default}
use avicoin.Protocol.WriteLoop.Returns.{write_loop-returns}
use avicoin.Protocol.ReadLoop.Keeps.{Orderly, Tidy, read_loop-Tidy}
use avicoin.Protocol.Table.{drop_registered-gone}

module _ (self : Registered) where
  -- The peer of the connection is gone from a well-formed table.
  abbrev pub Gone : Option (Result (Unit {0}) × World) → Type 0
  Gone none = Unit {0}
  Gone (some (result, w)) = (get self.id w.node.peers.peers ≡ none) × Inv w.node.peers

  join-Gone :
      (writer : Option (Result (Unit {0}))) (reader : Option (Result (Unit {0}) × World))
      → Tidy reader
      → Gone (join_writer self writer reader)
  join-Gone writer none v = tt
  join-Gone none (some (ok _, w)) v = tt
  join-Gone none (some (err e, w)) v = tt
  join-Gone none (some (panic, w)) v = drop_registered-gone self w v
  join-Gone (some write_result) (some (read_result, w)) v = drop_registered-gone self w v

  module _ (sha : Sha256) (s : Socket) (orderly : All Orderly s.reads) where
    run_loops-Gone :
        (w : World) (ours : Result Bytes) → Inv w.node.peers → Gone (run_loops sha self s w ours).0
    run_loops-Gone w (ok bytes) v = join-Gone _ _ (read_loop-Tidy sha self s.reads _ orderly v)
    run_loops-Gone w (err e) v = drop_registered-gone self w v
    run_loops-Gone w panic v = drop_registered-gone self w v

    prepared-Gone :
        (w : World) (set_up : Result (Unit {0}))
        → Inv w.node.peers
        → Gone (prepared sha self s w set_up).0
    unfolding record_entry
    prepared-Gone w (ok _) v = run_loops-Gone (greet self w) _ v
    prepared-Gone w (err e) v = drop_registered-gone self w v
    prepared-Gone w panic v = drop_registered-gone self w v

  -- The result of a call that returns.
  abbrev Returned : Option (Result (Unit {0}) × World) → Type 0
  Returned o = (result : Result (Unit {0})) × (w : World) × (o ≡ some (result, w))

  join-Returned :
      (writer : Option (Result (Unit {0}))) (reader : Option (Result (Unit {0}) × World))
      → ((x : Result (Unit {0})) × (writer ≡ some x))
      → ((x : Result (Unit {0}) × World) × (reader ≡ some x))
      → Returned (join_writer self writer reader)
  join-Returned (some x) (some (y, w)) h h' = (_, _, refl)
  join-Returned none reader (x, e) h' = cc
  join-Returned (some x) none h (y, e) = cc

  module _ (sha : Sha256) (s : Socket) (turns : List ReadTurn) (last : ReadTurn)
      (writes : List WriteTurn) (final : WriteTurn) (stops : Stops last.arrival)
      (gone : final.received ≡ disconnected) (er : s.reads ≡ turns ++ last ∷ [])
      (ew : s.writes ≡ writes ++ final ∷ []) where
    run_loops-Returned :
        (w : World) (ours : Result Bytes) → Returned (run_loops sha self s w ours).0
    run_loops-Returned w (ok bytes) =
        join-Returned _ _
          (rw ew (
            write_loop-returns sha ping_interval_default bytes s.opened s.started writes final
              gone))
          (rw er (read_loop-returns sha self turns last _ stops))
    run_loops-Returned w (err e) = (_, _, refl)
    run_loops-Returned w panic = (_, _, refl)

    prepared-Returned :
        (w : World) (set_up : Result (Unit {0})) → Returned (prepared sha self s w set_up).0
    prepared-Returned w (ok _) = run_loops-Returned (greet self w) _
    prepared-Returned w (err e) = (_, _, refl)
    prepared-Returned w panic = (_, _, refl)

-- Where the peer's stream comes to its end, or fails, and the queue of the writer is disconnected, a
-- connection returns. However it does, by an error, a panic or an orderly close, its peer is out of
-- the table then, and the table is well formed, where what other threads did meanwhile kept it so.
pub handle_connection-ends :
    (self : Registered) (sha : Sha256) (s : Socket) (w : World) (turns : List ReadTurn)
    (last : ReadTurn) (writes : List WriteTurn) (final : WriteTurn)
    → s.reads ≡ turns ++ last ∷ []
    → Stops last.arrival
    → s.writes ≡ writes ++ final ∷ []
    → final.received ≡ disconnected
    → All Orderly s.reads
    → Inv w.node.peers
    → (result : Result (Unit {0})) × (w' : World) × ((handle_connection sha self s w).0
        ≡ some (result, w'))
      × (get self.id w'.node.peers.peers ≡ none)
      × Inv w'.node.peers
unfolding handle_connection
handle_connection-ends self sha s w turns last writes final er stops ew gone orderly v =
    let set_up : Result (Unit {0}) = (do s.try_clone; s.set_write_timeout; s.set_read_timeout) in
    let (result, w', e) =
      prepared-Returned self sha s turns last writes final stops gone er ew w set_up in
    let (out, inv) = subst (Gone self) e (prepared-Gone self sha s orderly w set_up v) in
    (result, w', e, out, inv)
