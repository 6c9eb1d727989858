-- ===== src/Protocol/Table/Turn.antt =====
-- What a turn of the read loop does to the peer table.
use avicoin.Prelude.{Bool, true, false, Option, none, some, if◌then◌else◌}
use avicoin.Outcome.{ok, err, panic, no_handshake}
use avicoin.Util.{Sha256}
use avicoin.Messages.Kinds.{Verack-Payload, Pong-Payload}
use avicoin.Node.Peers.Invariant.{Inv}
use avicoin.Protocol.{Drained, handle_messages}
use avicoin.Protocol.Buffer.Keeps.{Holds, process_incoming_bytes-Holds}
use avicoin.Protocol.Session.{World, Registered, closed, is_settled}
use avicoin.Protocol.ReadLoop.{
  Arrival, end_of_stream, interrupted, would_block, timed_out, other, arrived, failed, Reading,
  Progress, goes_on, returns, out_of_fuel, check_deadline, processed, read_once,
}
use avicoin.Protocol.Table.{Tends, Tends-refl, Tends-trans, log-Tends, handle_messages-Tends}

-- The world that a turn of the read loop leaves.
abbrev pub Ends : (World → Type 0) → Progress → Type 0
Ends P (goes_on r) = P r.world
Ends P (returns result w) = P w
Ends P out_of_fuel = Unit {0}

processed-Ends :
    (P : World → Type 0) (ready : Bool) (o : Option (Drained World))
    → Holds P o
    → Ends P (processed ready o)
processed-Ends P ready none h = tt
processed-Ends P ready (some (ok _, buffer, w)) h = h
processed-Ends P ready (some (err e, buffer, w)) h = h
processed-Ends P ready (some (panic, buffer, w)) h = h

pub read_once-Tends :
    (sha : Sha256) (self : Registered) (arrival : Arrival) (r : Reading)
    → Inv r.world.node.peers
    → Ends (Tends self r.world) (read_once sha self arrival r)
unfolding read_once
read_once-Tends sha self end_of_stream r v = log-Tends self (closed self.address) r.world v
read_once-Tends sha self (failed interrupted e) r v = Tends-refl self r.world v
read_once-Tends sha self (failed would_block e) r v = Tends-refl self r.world v
read_once-Tends sha self (failed timed_out e) r v = Tends-refl self r.world v
read_once-Tends sha self (failed other e) r v = Tends-refl self r.world v
read_once-Tends sha self (arrived bytes) r v = processed-Ends (Tends self r.world) r.ready _ (
    process_incoming_bytes-Holds sha (handle_messages sha self) (Tends self r.world)
      (λ m w t. Tends-trans self t (handle_messages-Tends sha self m w t.inv)) r.recv_buffer r.world
      bytes (Tends-refl self r.world v))

if-Ends :
    (P : World → Type 0) (b : Bool) (p q : Progress)
    → Ends P p
    → Ends P q
    → Ends P (if b then p else q)
if-Ends P true p q h h' = h
if-Ends P false p q h h' = h'

pub check_deadline-Ends :
    (P : World → Type 0) (self : Registered) (late : Bool) (p : Progress)
    → Ends P p
    → Ends P (check_deadline self late p)
unfolding check_deadline
check_deadline-Ends P self late (goes_on r) h = if-Ends P r.ready (goes_on r) _ h (
    if-Ends P (is_settled self r.world) (goes_on (record r { ready = true })) _ h
      (if-Ends P late (returns (err no_handshake) r.world) (goes_on r) h h))
check_deadline-Ends P self late (returns result w) h = h
check_deadline-Ends P self late out_of_fuel h = tt
