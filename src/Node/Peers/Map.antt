-- ===== src/Node/Peers/Map.antt =====
-- The peer table as what it is meant to be: a map from ids to peers. Every call of the table does to
-- the map what the call is for.
use avicoin.Prelude.{
  ℕ, ◌<◌, ◌≡◌, ◌≢◌, ◌⊎◌, true, false, Option, none, some, List, [], ◌∷◌, ◌==◌, if◌then◌else◌,
  length,
}
use avicoin.Outcome.{ok}
use avicoin.Words.{Bytes}
use avicoin.Net.{SocketAddr, address_eq, Sender, Channel, Channels, set_channel, accepts, enqueue}
use avicoin.Node.Handshake.{Handshake, HandshakeEvent, awaiting_version, advance}
use avicoin.Node.Peers.{PeerId, Origin, PeerHandle, Linked, max_peers, is_dialled, get}
use avicoin.Node.Peers.Runs.{Call, registers, removes, advances, sends, broadcasts, channel_becomes}

pub record MapState : Type 0 where
  pub lookup : PeerId → Option PeerHandle
  pub channels : Channels

abbrev pub with_entry : PeerId → Option PeerHandle → MapState → MapState
with_entry id o s = record s { lookup = λ j. if j == id then o else s.lookup j }

-- Somebody was dialled at the address; as many peers as there may be, by falling ids.
abbrev pub IsDialled : SocketAddr → MapState → Type 0
IsDialled address s =
    (i : PeerId) × (p : PeerHandle) × (s.lookup i ≡ some p)
    × (is_dialled p.origin ≡ true)
    × (address_eq p.address address ≡ true)

abbrev pub Listed : MapState → ℕ → List PeerId → Type 0
Listed s n [] = Unit {0}
Listed s n (i ∷ ids) = (i < n) × (s.lookup i ≢ none) × Listed s i ids

abbrev pub IsFull : MapState → Type 0
IsFull s = (n : ℕ) × (ids : List PeerId) × Listed s n ids × (length ids ≡ max_peers)

-- No two peers have one channel.
abbrev pub IsExclusive : MapState → Type 0
IsExclusive s =
    (i j : PeerId) (p q : PeerHandle)
    → s.lookup i ≡ some p
    → s.lookup j ≡ some q
    → p.outbound ≡ q.outbound
    → i ≡ j

abbrev pub kept : Channels → Option PeerHandle → Option PeerHandle
kept cs none = none
kept cs (some p) = if accepts (cs p.outbound) then some p else none

abbrev pub grown : Bytes → Channel → Channel
grown message c = if accepts c then enqueue message c else c

-- What each call means.
pub data Meaning (s : MapState) : Call → MapState → Type 0 where
  admits :
      (address : SocketAddr) (origin : Origin) (outbound : Sender) (id : PeerId)
      → s.lookup id ≡ none
      → ¬ IsFull s
      → (is_dialled origin ≡ true → ¬ IsDialled address s)
      → Meaning s (registers address origin outbound) (
          with_entry id
            (some (record {
              address = address;
              origin = origin;
              handshake = awaiting_version;
              outbound = outbound;
            }))
            s)
  refuses :
      (address : SocketAddr) (origin : Origin) (outbound : Sender)
      → IsFull s ⊎ ((is_dialled origin ≡ true) × IsDialled address s)
      → Meaning s (registers address origin outbound) s
  takes_out : (id : PeerId) → Meaning s (removes id) (with_entry id none s)
  moves_on :
      (id : PeerId) (event : HandshakeEvent) (p : PeerHandle) (h : Handshake)
      → s.lookup id ≡ some p
      → advance p.handshake event ≡ ok h
      → Meaning s (advances id event) (with_entry id (some (record p { handshake = h })) s)
  stands_still :
      (id : PeerId) (event : HandshakeEvent)
      → ((p : PeerHandle) (h : Handshake) → s.lookup id ≡ some p → advance p.handshake event ≢ ok h)
      → Meaning s (advances id event) s
  queues :
      (id : PeerId) (message : Bytes) (p : PeerHandle)
      → s.lookup id ≡ some p
      → accepts (s.channels p.outbound) ≡ true
      → Meaning s (sends id message) (record s {
        channels = set_channel p.outbound (enqueue message (s.channels p.outbound)) s.channels;
      })
  drops :
      (id : PeerId) (message : Bytes)
      → ((p : PeerHandle) → s.lookup id ≡ some p → accepts (s.channels p.outbound) ≡ false)
      → Meaning s (sends id message) (with_entry id none s)
  tells_all :
      (message : Bytes) (cs : Channels)
      → ((i : PeerId) (p : PeerHandle)
          → s.lookup i ≡ some p
          → cs p.outbound ≡ grown message (s.channels p.outbound))
      → ((c : Sender)
          → ((i : PeerId) (p : PeerHandle) → s.lookup i ≡ some p → p.outbound ≢ c)
          → cs c ≡ s.channels c)
      → Meaning s
          (broadcasts message)
          (record { lookup = λ i. kept s.channels (s.lookup i); channels = cs })
  changes :
      (c : Sender) (channel : Channel)
      → Meaning s
          (channel_becomes c channel)
          (record s { channels = set_channel c channel s.channels })

-- The map that a table is.
abbrev pub map_of : Linked → MapState
map_of (t, cs) = record { lookup = λ id. get id t.peers; channels = cs }
