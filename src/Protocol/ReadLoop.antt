-- ===== src/Protocol/ReadLoop.antt =====
-- src/protocol.rs, `read_loop`. What the socket gives, the clock and what other threads do in between
-- are a list, one element for each turn; a loop whose turns run out is still running, and its result
-- is `none`.
pub mod Deadline
pub mod Keeps
use avicoin.Prelude.{Bool, true, false, Option, none, some, List, [], ◌∷◌, if◌then◌else◌}
use avicoin.Outcome.{Result, ok, err, panic, Error, no_handshake}
use avicoin.Words.{Bytes}
use avicoin.Util.{Sha256}
use avicoin.Protocol.Session.{World, Registered, closed, log, is_settled}
use avicoin.Protocol.{Drained, handle_messages, process_incoming_bytes}

-- `std::io::ErrorKind`, as far as the loop tells kinds apart.
pub data ErrorKind : Type 0 where
  interrupted would_block timed_out other : ErrorKind

-- What `reader.read` returns; an error with its kind.
pub data Arrival : Type 0 where
  end_of_stream : Arrival
  arrived : Bytes → Arrival
  failed : ErrorKind → Error → Arrival

-- A turn of the read loop: what arrives, whether the deadline has passed when it is looked at, and
-- what other threads do to the world before the next turn.
pub record ReadTurn : Type 0 where
  pub arrival : Arrival
  pub late : Bool
  pub meanwhile : World → World

-- The latch `ready`, the receive buffer and the world; a loop that returns gives its result as well.
pub record Reading : Type 0 where
  pub ready : Bool
  pub recv_buffer : Bytes
  pub world : World

pub data Progress : Type 0 where
  goes_on : Reading → Progress
  returns : Result (Unit {0}) → World → Progress
  out_of_fuel : Progress

-- Behind the match: the handshake's deadline, which a settled peer no longer has.
unfoldable pub check_deadline : Registered → Bool → Progress → Progress
check_deadline registered late (goes_on r) =
    if r.ready
    then goes_on r
    else if is_settled registered r.world
    then goes_on (record r { ready = true })
    else if late
    then returns (err no_handshake) r.world
    else goes_on r
check_deadline registered late (returns result w) = returns result w
check_deadline registered late out_of_fuel = out_of_fuel

abbrev pub processed : Bool → Option (Drained World) → Progress
processed ready none = out_of_fuel
processed ready (some (ok _, buffer, w)) =
    goes_on (record { ready = ready; recv_buffer = buffer; world = w })
processed ready (some (err e, buffer, w)) = returns (err e) w
processed ready (some (panic, buffer, w)) = returns panic w

-- A read timeout.
abbrev pub expired : ErrorKind → Bool
expired would_block = true
expired timed_out = true
expired interrupted = false
expired other = false

-- The match arms of an error, in their order.
abbrev pub read_failed : ErrorKind → Error → Reading → Progress
read_failed interrupted e r = goes_on r
read_failed kind e r = if expired kind then goes_on r else returns (err e) r.world

-- The match on what was read.
unfoldable pub read_once : Sha256 → Registered → Arrival → Reading → Progress
read_once sha registered end_of_stream r = returns (ok tt) (log (closed registered.address) r.world)
read_once sha registered (failed kind e) r = read_failed kind e r
read_once sha registered (arrived bytes) r =
    processed r.ready
      (process_incoming_bytes sha (handle_messages sha registered) r.recv_buffer r.world bytes)

abbrev pub proceed :
    (Reading → Option (Result (Unit {0}) × World))
    → (World → World)
    → Progress
    → Option (Result (Unit {0}) × World)
proceed next meanwhile (goes_on r) = next (record r { world = meanwhile r.world })
proceed next meanwhile (returns result w) = some (result, w)
proceed next meanwhile out_of_fuel = none

unfoldable pub read_loop :
    Sha256 → Registered → List ReadTurn → Reading → Option (Result (Unit {0}) × World)
read_loop sha registered [] r = none
read_loop sha registered (t ∷ turns) r =
    proceed (read_loop sha registered turns) t.meanwhile
      (check_deadline registered t.late (read_once sha registered t.arrival r))
