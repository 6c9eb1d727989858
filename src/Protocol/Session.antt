-- ===== src/Protocol/Session.antt =====
-- src/protocol.rs, `Registered`: what one connection does to the node that the threads share.
-- Each method takes the node's lock once, so it is one step on the world.
use avicoin.Prelude.{ℕ, ◌⊎◌, inl, inr, Bool, true, false, Option, none, some}
use avicoin.Outcome.{Result, ok, err, panic, Error, cannot_keep_up}
use avicoin.Words.{Bytes}
use avicoin.Net.{SocketAddr, Sender, Channels}
use avicoin.Messages.Kinds.{Ping, Pong}
use avicoin.Messages.{Message}
use avicoin.Node.{Node, record_entry}
use avicoin.Node.Handshake.{Handshake, HandshakeEvent, is_ready}
use avicoin.Node.Peers.{
  PeerId, Origin, PeerTable, Linked, Refused, Registration, registered, refused, register, remove,
  advance_handshake, handshake_of, send_to,
}

-- The log entries that src/main.rs and src/protocol.rs format, one constructor for each text.
pub data Entry : Type 0 where
  listening : SocketAddr → Entry
  no_peers_configured : Entry
  not_connected : SocketAddr → Error → Entry
  not_accepted : Error → Entry
  no_peer_address : Error → Entry
  refusing : SocketAddr → Refused → Entry
  connection_ended : SocketAddr → Error → Entry
  handling : SocketAddr → SocketAddr → ℕ → Entry
  closed : SocketAddr → Entry
  speaks : SocketAddr → ℕ → SocketAddr → Entry
  handshake_complete : SocketAddr → Entry
  ping_received : Message Ping → Entry
  pong_received : Message Pong → Entry

-- The node and the channels of its peers.
pub record World : Type 0 where
  pub node : Node Entry
  pub channels : Channels

-- A fallible action on the world; `?` between two of them.
abbrev pub Act {ℓ} : Type ℓ → Type ℓ
Act A = World → Result A × World

abbrev pub and_then {κ μ} :
    {T : Type κ} {U : Type μ} → Result T × World → (T → Act U) → Result U × World
and_then (panic, w) next = (panic, w)
and_then (err problem, w) next = (err problem, w)
and_then (ok value, w) next = next value w

infixl 5 ◌>>◌ ◌>>=◌
abbrev pub ◌>>=◌ {κ μ} : {T : Type κ} {U : Type μ} → Act T → (T → Act U) → Act U
◌>>=◌ act next w = and_then (act w) next

abbrev pub ◌>>◌ {κ} : {U : Type κ} → Act (Unit {0}) → Act U → Act U
first >> second = first >>= λ nothing. second

abbrev pub lift {ℓ} : {A : Type ℓ} → Result A → Act A
lift m w = (m, w)

pub record Registered : Type 0 where
  pub id : PeerId
  pub address : SocketAddr

abbrev pub linked : World → Linked
linked w = (w.node.peers, w.channels)

abbrev pub with_peers : World → PeerTable → World
with_peers w t = record w { node = record w.node { peers = t } }

abbrev pub with_linked : World → Linked → World
with_linked w (t, cs) = record { node = record w.node { peers = t }; channels = cs }

abbrev pub log : Entry → World → World
log entry w = record w { node = record_entry w.node entry }

-- The method `record`.
abbrev pub record_it : Entry → Act (Unit {0})
record_it entry w = (ok tt, log entry w)

abbrev pub opened : SocketAddr → Registration → Registered ⊎ Refused
opened peer (registered id) = inl (record { id = id; address = peer })
opened peer (refused refusal) = inr refusal

-- `Registered::open`.
unfoldable pub open_connection :
    SocketAddr → Origin → Sender → World → (Registered ⊎ Refused) × World
open_connection peer origin outbound w =
    let (r, t) = register peer origin outbound w.node.peers in (opened peer r, with_peers w t)

abbrev reached : Bool → Result (Unit {0})
reached true = ok tt
reached false = err cannot_keep_up

unfoldable pub deliver : Registered → Bytes → Act (Unit {0})
deliver self message w =
    let (taken, l) = send_to self.id message (linked w) in (reached taken, with_linked w l)

-- The method `advance_handshake`.
unfoldable pub advance : Registered → HandshakeEvent → Act Handshake
advance self event w =
    let (h, t) = advance_handshake self.id event w.node.peers in (h, with_peers w t)

abbrev ready_if : Option Handshake → Bool
ready_if none = false
ready_if (some h) = is_ready h

-- The method `is_ready`.
unfoldable pub is_settled : Registered → World → Bool
is_settled self w = ready_if (handshake_of self.id w.node.peers)

-- `Drop for Registered`.
unfoldable pub drop_registered : Registered → World → World
drop_registered self w = with_peers w (remove self.id w.node.peers).1
