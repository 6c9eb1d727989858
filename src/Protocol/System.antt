-- ===== src/Protocol/System.antt =====
-- src/protocol.rs: all connections of a node at once. Each has a thread that reads and one that
-- writes, and the threads take turns in any order; what one turn does is the code of `Session` and
-- `ReadLoop`. The channel of a connection is named by the connection's number.
pub mod Opening
pub mod Owners
pub mod Reached
pub mod Exclusive
pub mod Effects
pub mod Isolation
pub mod Turns
pub mod Teardown
pub mod Refines
use avicoin.Prelude.{
  ℕ, suc, ◌&&◌, ◌+◌, ◌^◌, ◌<◌, ◌≡◌, ◌≢◌, inl, inr, Bool, true, false, Option, none, some, List, [],
  ◌∷◌, ◌==◌, if◌then◌else◌,
}
use avicoin.Outcome.{Result, ok, err, panic, Error}
use avicoin.Words.{Bytes}
use avicoin.Util.{Sha256}
use avicoin.Net.{SocketAddr, Sender, Channel, Channels, set_channel}
use avicoin.Node.{Node, shared, Config}
use avicoin.Node.Peers.{PeerId, Origin, Refused}
use avicoin.Node.Peers.Shrinks.{Unlinked}
use avicoin.Protocol.Session.{
  World, Registered, Entry, refusing, connection_ended, log, open_connection, drop_registered,
}
use avicoin.Protocol.ReadLoop.{
  Arrival, end_of_stream, failed, other, Reading, goes_on, returns, read_once, check_deadline,
}
use avicoin.Protocol.Connection.{with_channel, greet}

-- The thread of `spawn_connection`: before it registers; registered; in `read_loop`, with the latch and
-- the receive buffer; behind it, with the registration still held; waiting to join the writer; ended.
pub data Reader : Type 0 where
  unborn joining ended : Reader
  opened leaving : Registered → Reader
  reading : Registered → Bool → Bytes → Reader

-- The thread of `write_loop`.
pub data Writer : Type 0 where
  absent writing stopped : Writer

-- `shut` is what `ShutdownOnDrop` has done to the socket.
pub record Conn : Type 0 where
  pub reader : Reader
  pub writer : Writer
  pub shut : Bool

abbrev pub unborn_conn : Conn
unborn_conn = record { reader = unborn; writer = absent; shut = false }

pub record System : Type 0 where
  pub world : World
  pub conns : Sender → Conn

abbrev pub set_conn : Sender → Conn → (Sender → Conn) → Sender → Conn
set_conn c conn conns d = if d == c then conn else conns d

abbrev pub close : Channel → Channel
close channel = record channel { connected = false }

abbrev pub with_channel_of : Sender → Channel → World → World
with_channel_of c channel w = record w { channels = set_channel c channel w.channels }

-- The last arrivals on a socket that was shut down.
abbrev pub IsLast : Arrival → Type 0
IsLast end_of_stream = Unit {0}
IsLast (failed other e) = Unit {0}
IsLast _ = ⊥

-- What `spawn_connection` does with the result of `handle_connection`.
abbrev pub reported : SocketAddr → Result (Unit {0}) → World → World
reported peer (ok _) w = w
reported peer (err e) w = log (connection_ended peer e) w
reported peer panic w = w

-- One turn of a thread of connection `c`.
pub data Move (sha : Sha256) (c : Sender) (w : World) : Conn → World → Conn → Type 0 where
  -- `Registered::open`, with a channel of its own; ids have not run out.
  opens :
      (peer : SocketAddr) (origin : Origin) {registered : Registered} {w' : World}
      → w.node.peers.next_id + 1 < 2 ^ 64
      → open_connection peer origin c (with_channel c w) ≡ (inl registered, w')
      → Move sha c w unborn_conn w'
          (record { reader = opened registered; writer = absent; shut = false })
  -- A refusal is logged, and the receiver goes with the thread.
  refuses :
      (peer : SocketAddr) (origin : Origin) {refusal : Refused} {w' : World}
      → w.node.peers.next_id + 1 < 2 ^ 64
      → open_connection peer origin c (with_channel c w) ≡ (inr refusal, w')
      → Move sha c w unborn_conn
          (log (refusing peer refusal) (with_channel_of c (close (w'.channels c)) w'))
          (record { reader = ended; writer = absent; shut = false })
  -- A `?` of `handle_connection` before there is a writer, ahead of the log entry or behind it.
  set_up_fails :
      {registered : Registered} {shut : Bool} (greeted : Bool)
      → Move sha c w
          (record { reader = opened registered; writer = absent; shut = shut })
          (with_channel_of c (close (w.channels c)) (if greeted then greet registered w else w))
          (record { reader = leaving registered; writer = absent; shut = true })
  -- The connection is logged and its writer is spawned.
  sets_up :
      {registered : Registered} {shut : Bool}
      → Move sha c w
          (record { reader = opened registered; writer = absent; shut = shut })
          (greet registered w)
          (record { reader = reading registered false []; writer = writing; shut = shut })
  -- A turn of `read_loop` behind which it goes on, and its last.
  reads :
      {registered : Registered} {ready : Bool} {buffer : Bytes} {writer : Writer} {shut : Bool}
      (arrival : Arrival) (late : Bool) {r : Reading}
      → (shut ≡ true → IsLast arrival)
      → check_deadline registered late (
          read_once sha registered arrival
            (record { ready = ready; recv_buffer = buffer; world = w }))
        ≡ goes_on r
      → Move sha c w
          (record { reader = reading registered ready buffer; writer = writer; shut = shut })
          r.world
          (record {
            reader = reading registered r.ready r.recv_buffer;
            writer = writer;
            shut = shut;
          })
  stops_reading :
      {registered : Registered} {ready : Bool} {buffer : Bytes} {writer : Writer} {shut : Bool}
      (arrival : Arrival) (late : Bool) {result : Result (Unit {0})} {w' : World}
      → (shut ≡ true → IsLast arrival)
      → check_deadline registered late (
          read_once sha registered arrival
            (record { ready = ready; recv_buffer = buffer; world = w }))
        ≡ returns result w'
      → Move sha c w
          (record { reader = reading registered ready buffer; writer = writer; shut = shut })
          w'
          (record { reader = leaving registered; writer = writer; shut = shut })
  -- `drop(registered)` before the join; without a writer, or unwinding, there is no join.
  drops :
      {registered : Registered} {writer : Writer} {shut : Bool}
      → writer ≢ absent
      → Move sha c w
          (record { reader = leaving registered; writer = writer; shut = shut })
          (drop_registered registered w)
          (record { reader = joining; writer = writer; shut = shut })
  unwinds :
      {registered : Registered} {writer : Writer} {shut : Bool} (result : Result (Unit {0}))
      → Move sha c w
          (record { reader = leaving registered; writer = writer; shut = shut })
          (reported registered.address result (drop_registered registered w))
          (record { reader = ended; writer = writer; shut = shut })
  -- A turn of the writer may begin with a ping, which only the socket sees. `Timeout`: nothing is
  -- queued, and a sender is still in the table.
  times_out :
      {reader : Reader} {shut : Bool}
      → (w.channels c).queued ≡ []
      → ¬ Unlinked c w.node.peers
      → Move sha c w
          (record { reader = reader; writer = writing; shut = shut })
          w
          (record { reader = reader; writer = writing; shut = shut })
  -- The writer takes a message off its queue and writes it.
  writes :
      {reader : Reader} {shut : Bool} {message : Bytes} {rest : List Bytes}
      → (w.channels c).queued ≡ message ∷ rest
      → Move sha c w
          (record { reader = reader; writer = writing; shut = shut })
          (with_channel_of c (record (w.channels c) { queued = rest }) w)
          (record { reader = reader; writer = writing; shut = shut })
  -- A write fails, of the first message, a ping or one from the queue: the receiver goes, and `ShutdownOnDrop` shuts the socket down.
  write_fails :
      {reader : Reader} {shut : Bool}
      → Move sha c w
          (record { reader = reader; writer = writing; shut = shut })
          (with_channel_of c (close (w.channels c)) w)
          (record { reader = reader; writer = stopped; shut = true })
  -- `Disconnected`: nothing is queued any more, and no sender is left in the table.
  disconnects :
      {reader : Reader} {shut : Bool}
      → (w.channels c).queued ≡ []
      → Unlinked c w.node.peers
      → Move sha c w
          (record { reader = reader; writer = writing; shut = shut })
          (with_channel_of c (close (w.channels c)) w)
          (record { reader = reader; writer = stopped; shut = true })
  joins :
      {shut : Bool} (peer : SocketAddr) (result : Result (Unit {0}))
      → Move sha c w
          (record { reader = joining; writer = stopped; shut = shut })
          (reported peer result w)
          (record { reader = ended; writer = stopped; shut = shut })

pub data Step (sha : Sha256) (s : System) : System → Type 0 where
  picks :
      (c : Sender) {w : World} {conn : Conn}
      → Move sha c s.world (s.conns c) w conn
      → Step sha s (record { world = w; conns = set_conn c conn s.conns })

-- Before the first connection. The channels that nobody has named yet are what they are.
abbrev pub start_of : Config → ℕ → Channels → System
start_of config nonce channels = record {
  world = record { node = shared config nonce; channels = channels };
  conns = λ c. unborn_conn;
}

pub data Reach (sha : Sha256) (config : Config) (nonce : ℕ) (channels : Channels)
    : System → Type 0 where
  begins : Reach sha config nonce channels (start_of config nonce channels)
  later :
      {s t : System}
      → Reach sha config nonce channels s
      → Step sha s t
      → Reach sha config nonce channels t

-- What the threads do behind a state, from the first turn on; the list has whose turn each was, the
-- last one first.
pub data Run (sha : Sha256) (s : System) : List Sender → System → Type 0 where
  starts : Run sha s [] s
  continues :
      {turns : List Sender} {t : System} (c : Sender) {w : World} {conn : Conn}
      → Run sha s turns t
      → Move sha c t.world (t.conns c) w conn
      → Run sha s (c ∷ turns) (record { world = w; conns = set_conn c conn t.conns })

-- How many of the turns were the connection's own.
abbrev pub turns_of : Sender → List Sender → ℕ
turns_of c [] = 0
turns_of c (d ∷ turns) = if d == c then suc (turns_of c turns) else turns_of c turns

abbrev pub is_timeout :
    {sha : Sha256} {c : Sender} {w : World} {conn : Conn} {w' : World} {conn' : Conn}
    → Move sha c w conn w' conn'
    → Bool
is_timeout (times_out q linked) = true
is_timeout _ = false

-- How many of the connection's turns were timeouts of its writer.
unfoldable pub timeouts_of :
    Sender → {sha : Sha256} {s t : System} {turns : List Sender} → Run sha s turns t → ℕ
timeouts_of c starts = 0
timeouts_of c (continues d run m) =
    if (d == c) && is_timeout m then suc (timeouts_of c run) else timeouts_of c run
