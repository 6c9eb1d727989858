-- ===== src/Node/Peers.antt =====
-- src/node.rs, `PeerTable`: the peers of a node by their ids. The map is an association list; the
-- channels that the peers' senders lead to are a store beside it.
pub mod Invariant
pub mod Delivery
pub mod Broadcast
pub mod Order
pub mod Map
mod Found
mod Told
pub mod Refines
pub mod Calls
pub mod Runs
pub mod Shrinks
use avicoin.Prelude.{
  ℕ, zero, suc, ◌+◌, ◌%◌, ◌^◌, ◌≤◌, ◌<◌, ◌≡◌, Bool, true, false, ◌&&◌, ◌||◌, Option, none, some,
  List, [], ◌∷◌, ◌++◌, map, ltb, leb, ◌==◌, if◌then◌else◌, length,
}
use mathlib.Core.Option
use avicoin.Outcome.{Result, ok, err, panic, no_such_peer}
use avicoin.Words.{Bytes}
use avicoin.Net.{SocketAddr, address_eq, Sender, Channel, Channels, try_send, set_channel}
use avicoin.Node.Handshake.{Handshake, HandshakeEvent, awaiting_version, advance}

abbrev pub max_peers : ℕ
max_peers = 32

abbrev pub outbound_queue : ℕ
outbound_queue = 128

abbrev pub PeerId : Type 0
PeerId = ℕ

pub data Origin : Type 0 where
  dialled accepted : Origin

pub record PeerHandle : Type 0 where
  pub address : SocketAddr
  pub origin : Origin
  pub handshake : Handshake
  pub outbound : Sender

pub data Refused : Type 0 where
  at_capacity already_dialled : Refused

-- `Result<PeerId, Refused>`.
pub data Registration : Type 0 where
  registered : PeerId → Registration
  refused : Refused → Registration

abbrev pub Peers : Type 0
Peers = List (PeerId × PeerHandle)

pub record PeerTable : Type 0 where
  pub peers : Peers
  pub next_id : PeerId

unfoldable pub empty_table : PeerTable
empty_table = record { peers = []; next_id = 0 }

-- `HashMap::get`, `remove` and `insert`, and the assignment through `get_mut`.
unfoldable pub get : PeerId → Peers → Option PeerHandle
get id [] = none
get id ((i, p) ∷ peers) = if i == id then some p else get id peers

unfoldable pub erase : PeerId → Peers → Peers
erase id [] = []
erase id ((i, p) ∷ peers) = if i == id then peers else (i, p) ∷ erase id peers

unfoldable pub insert : PeerId → PeerHandle → Peers → Peers
insert id p peers = (id, p) ∷ erase id peers

unfoldable pub assign : PeerId → PeerHandle → Peers → Peers
assign id q [] = []
assign id q ((i, p) ∷ peers) = if i == id then (i, q) ∷ peers else (i, p) ∷ assign id q peers

abbrev pub is_dialled : Origin → Bool
is_dialled dialled = true
is_dialled accepted = false

-- The method `dialled`: whether some peer was dialled at this address.
unfoldable pub has_dialled : SocketAddr → Peers → Bool
has_dialled address [] = false
has_dialled address ((i, p) ∷ peers) =
    (is_dialled p.origin && address_eq p.address address) || has_dialled address peers

unfoldable pub register : SocketAddr → Origin → Sender → PeerTable → Registration × PeerTable
register address origin outbound t =
    if is_dialled origin && has_dialled address t.peers
    then (refused already_dialled, t)
    else if leb max_peers (length t.peers)
    then (refused at_capacity, t)
    else (
      registered t.next_id,
      record {
        peers =
            insert t.next_id
              (record {
                address = address;
                origin = origin;
                handshake = awaiting_version;
                outbound = outbound;
              })
              t.peers;
        next_id = (t.next_id + 1) % 2 ^ 64;
      },
    )

unfoldable pub remove : PeerId → PeerTable → Option PeerHandle × PeerTable
remove id t = (get id t.peers, record t { peers = erase id t.peers })

unfoldable pub len : PeerTable → ℕ
len t = length t.peers

unfoldable pub is_empty : PeerTable → Bool
is_empty t = len t == 0

unfoldable pub ids : PeerTable → List PeerId
ids t = map (λ (entry : PeerId × PeerHandle). entry.0) t.peers

abbrev advanced : PeerId → PeerHandle → PeerTable → Result Handshake → Result Handshake × PeerTable
advanced id p t (ok h) = (ok h, record t { peers = assign id (record p { handshake = h }) t.peers })
advanced id p t (err e) = (err e, t)
advanced id p t panic = (panic, t)

-- A refused event leaves the peer as it was.
unfoldable pub advance_handshake :
    PeerId → HandshakeEvent → PeerTable → Result Handshake × PeerTable
advance_handshake id event t = elim (get id t.peers) [
  | none ↦ (err no_such_peer, t)
  | some p ↦ advanced id p t (advance p.handshake event)
]

abbrev pub handshake : PeerHandle → Handshake
handshake p = p.handshake

unfoldable pub handshake_of : PeerId → PeerTable → Option Handshake
handshake_of id t = Option.map handshake (get id t.peers)

-- The table and the channels, as a method that sends leaves them.
abbrev pub Linked : Type 0
Linked = PeerTable × Channels

abbrev sent : PeerId → PeerTable → Bool × Channels → Bool × Linked
sent id t (true, cs) = (true, (t, cs))
sent id t (false, cs) = (false, (record t { peers = erase id t.peers }, cs))

unfoldable pub send_to : PeerId → Bytes → Linked → Bool × Linked
send_to id message (t, cs) = elim (get id t.peers) [
  | none ↦ (false, (t, cs))
  | some p ↦ sent id t (try_send p.outbound message cs)
]

-- What the loop of `broadcast` has delivered, the ids that failed, and the channels.
abbrev pub Round : Type 0
Round = ℕ × List PeerId × Channels

abbrev count_sent : PeerId → Bool → Round → Round
count_sent id true (delivered, failed, cs) = (delivered + 1, failed, cs)
count_sent id false (delivered, failed, cs) = (delivered, id ∷ failed, cs)

unfoldable pub broadcast_loop : Bytes → Peers → Channels → Round
broadcast_loop message [] cs = (0, [], cs)
broadcast_loop message ((id, p) ∷ peers) cs =
    let (taken, cs') = try_send p.outbound message cs in
    count_sent id taken (broadcast_loop message peers cs')

unfoldable pub erase_all : List PeerId → Peers → Peers
erase_all [] peers = peers
erase_all (id ∷ failed) peers = erase_all failed (erase id peers)

unfoldable pub broadcast : Bytes → Linked → ℕ × Linked
unfolding broadcast_loop
broadcast message (t, cs) =
    let (delivered, failed, cs') = broadcast_loop message t.peers cs in
    (delivered, (record t { peers = erase_all failed t.peers }, cs'))
