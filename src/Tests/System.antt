-- ===== src/Tests/System.antt =====
-- The theorems on connections and their threads at concrete inputs.
use avicoin.Prelude.{◌≡◌, refl, true, false, some, [], ◌∷◌, arith}
use avicoin.Net.{SocketAddr, Channels, set_channel, accepts}
use avicoin.Messages.RoundTrip.{IsPlain}
use avicoin.Node.{Config, shared, record_entry}
use avicoin.Node.Peers.{
  PeerHandle, accepted, empty_table, get, insert, erase, register, remove, has_dialled,
}
use avicoin.Node.Peers.Invariant.{Inv}
use avicoin.Node.Peers.Runs.{broadcasts, step}
use avicoin.Node.Peers.Map.{Meaning, map_of}
use avicoin.Node.Peers.Refines.{step-Meaning}
use avicoin.Node.Handshake.{awaiting_version}
use avicoin.Protocol.Session.{
  World, Registered, closed, linked, log, open_connection, drop_registered,
}
use avicoin.Protocol.Connection.{with_channel, greet}
use avicoin.Protocol.System.{
  Run, opened, reading, leaving, joining, absent, writing, stopped, System, set_conn, start_of,
  Reach, begins, later, picks, opens, starts, continues, disconnects,
}
use avicoin.Protocol.System.Owners.{held}
use avicoin.Protocol.System.Reached.{Reach-Owned}
use avicoin.Protocol.System.Refines.{Performs, Reach-Performs}
use avicoin.Protocol.System.Exclusive.{Reach-held, Reach-own_channel}
use avicoin.Protocol.System.Isolation.{Run-isolated}
use avicoin.Tests.{zero_sha}

abbrev pub home : SocketAddr
home = SocketAddr.v4 (127 ∷ 0 ∷ 0 ∷ 1 ∷ []) 34352

pub home-IsPlain : IsPlain home
home-IsPlain = ((refl, (omega arith, (omega arith, (omega arith, (omega arith, tt))))), omega arith)

abbrev config : Config
config = record { host_address = home; addresses_to_connect = [] }

abbrev channels : Channels
channels c = record { capacity = 0; queued = []; connected = false }

abbrev pub session : Registered
session = record { id = 0; address = home }

-- One connection opens, is set up, reads the end of its stream and drops its registration.
abbrev begun : System
begun = start_of config 3 channels

abbrev after_opening : World
after_opening = (open_connection home accepted 0 (with_channel 0 begun.world)).1

abbrev pub with_peer : System
with_peer = record {
  world = after_opening;
  conns =
      set_conn 0 (record { reader = opened session; writer = absent; shut = false }) begun.conns;
}

with_peer-Reach : Reach zero_sha config 3 channels with_peer
unfolding open_connection register shared empty_table has_dialled
with_peer-Reach = later begins (picks 0 (opens home accepted (omega arith) refl))

abbrev pub peer : PeerHandle
peer = record { address = home; origin = accepted; handshake = awaiting_version; outbound = 0 }

pub entered : get 0 with_peer.world.node.peers.peers ≡ some peer
unfolding open_connection register shared empty_table has_dialled get insert erase
entered = refl

pub entered-Inv : Inv with_peer.world.node.peers
entered-Inv = (Reach-Owned with_peer-Reach).inv

pub has_room : accepts (with_peer.world.channels 0) ≡ true
unfolding open_connection register shared empty_table has_dialled
has_room = refl

Reach-held_example : (held (with_peer.conns 0).reader ≡ some 0) × Inv with_peer.world.node.peers
Reach-held_example = Reach-held with_peer-Reach 0 peer entered

step-Meaning_example :
    Meaning
      (map_of (linked with_peer.world))
      (broadcasts (7 ∷ []))
      (map_of (step (linked with_peer.world) (broadcasts (7 ∷ []))))
step-Meaning_example =
    step-Meaning (linked with_peer.world) (broadcasts (7 ∷ [])) entered-Inv
      (Reach-own_channel with_peer-Reach)

-- Another peer connects.
abbrev elsewhere : SocketAddr
elsewhere = SocketAddr.v4 (10 ∷ 0 ∷ 0 ∷ 1 ∷ []) 34352

abbrev with_two : System
with_two = record {
  world = (open_connection elsewhere accepted 1 (with_channel 1 with_peer.world)).1;
  conns =
      set_conn 1
        (record {
          reader = opened (record { id = 1; address = elsewhere });
          writer = absent;
          shut = false;
        })
        with_peer.conns;
}

Run-isolated_example :
    (get 0 with_two.world.node.peers.peers ≡ some peer)
    × (with_two.world.channels 0 ≡ with_peer.world.channels 0)
    × (with_two.conns 0 ≡ with_peer.conns 0)
unfolding open_connection register shared empty_table has_dialled insert erase
Run-isolated_example =
    Run-isolated 0 peer with_peer-Reach entered
      (continues {turns = []} 1 starts (opens elsewhere accepted (omega arith) refl)) refl

-- The turn that opens it.
Reach-Performs_example : Performs 1 (held (with_peer.conns 1).reader) with_peer.world with_two.world
unfolding open_connection register shared empty_table has_dialled insert erase
Reach-Performs_example =
    Reach-Performs {c = 1} {w = with_two.world} {conn = with_two.conns 1} with_peer-Reach
      (opens elsewhere accepted (omega arith) refl)

abbrev set_up : System
set_up = record {
  world = greet session after_opening;
  conns =
      set_conn 0 (record { reader = reading session false []; writer = writing; shut = false })
        with_peer.conns;
}

abbrev stopped_reading : System
stopped_reading = record {
  world = log (closed home) set_up.world;
  conns =
      set_conn 0 (record { reader = leaving session; writer = writing; shut = false }) set_up.conns;
}

abbrev waiting : System
waiting = record {
  world = drop_registered session stopped_reading.world;
  conns =
      set_conn 0 (record { reader = joining; writer = writing; shut = false })
        stopped_reading.conns;
}

-- Its writer finds the queue disconnected.
abbrev writer_done : System
writer_done = record {
  world = record waiting.world {
    channels =
        set_channel 0 (record (waiting.world.channels 0) { connected = false })
          waiting.world.channels;
  };
  conns = set_conn 0 (record { reader = joining; writer = stopped; shut = true }) waiting.conns;
}

unfoldable last_turn_of_writer : Run zero_sha waiting (0 ∷ []) writer_done
unfolding open_connection register shared empty_table has_dialled drop_registered remove
    record_entry erase insert get
last_turn_of_writer = continues 0 starts (disconnects refl (λ i p e. cc))
