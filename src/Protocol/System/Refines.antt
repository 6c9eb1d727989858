-- ===== src/Protocol/System/Refines.antt =====
-- What the threads of a node do to its peer table is what the map of its peers is for.
use avicoin.Prelude.{ℕ, ◌≡◌, ◌⊎◌, refl, ap, subst, true, false, Option, none, some}
use avicoin.Outcome.{Result, ok, err, panic}
use avicoin.Util.{Sha256}
use avicoin.Net.{SocketAddr, Sender, Channel, Channels}
use avicoin.Node.{Config, record_entry}
use avicoin.Node.Peers.{PeerId, Origin, Refused}
use avicoin.Node.Peers.Invariant.{Inv}
use avicoin.Node.Peers.Runs.{registers, channel_becomes, step}
use avicoin.Node.Peers.Map.{MapState, IsExclusive, changes, map_of}
use avicoin.Node.Peers.Refines.{step-Meaning}
use avicoin.Node.Peers.Calls.{IsOwn, Means, means_nothing, means, Does-Means}
use avicoin.Protocol.Session.{World, Registered, linked, open_connection}
use avicoin.Protocol.Connection.{with_channel}
use avicoin.Protocol.Table.{Tends, drop_registered-Tends}
use avicoin.Protocol.System.{
  System, Conn, close, reported, with_channel_of, Move, opens, refuses, set_up_fails, sets_up,
  reads, stops_reading, drops, unwinds, times_out, writes, write_fails, disconnects, joins, Reach,
}
use avicoin.Protocol.System.Owners.{held}
use avicoin.Protocol.System.Reached.{Reach-Owned}
use avicoin.Protocol.System.Effects.{turned}
use avicoin.Protocol.System.Exclusive.{Reach-own_channel}

-- The map of the peers of a world.
abbrev pub peers_of : World → MapState
peers_of w = map_of (linked w)

-- Calls of a connection for the peer that it holds, between two worlds.
abbrev pub Performs : Sender → Option PeerId → World → World → Type 0
Performs c mine w w' = Means (IsOwn c mine) (peers_of w) (peers_of w')

module _ (c : Sender) (w : World) where
  -- The channel of the connection changes.
  channelled :
      (mine : Option PeerId) (channel : Channel) (w' : World)
      → Performs c mine w w'
      → Performs c mine w (with_channel_of c channel w')
  channelled mine channel w' h = means (channel_becomes c channel) refl h (changes c channel)

  reported-Performs :
      (mine : Option PeerId) (peer : SocketAddr) (result : Result (Unit {0})) (w' : World)
      → Performs c mine w w'
      → Performs c mine w (reported peer result w')
  unfolding record_entry
  reported-Performs mine peer (ok _) w' h = h
  reported-Performs mine peer (err e) w' h = h
  reported-Performs mine peer panic w' h = h

  -- A connection that holds nothing yet makes its channel and registers.
  open_connection-Performs :
      (mine : Option PeerId) (peer : SocketAddr) (origin : Origin)
      (q : (Registered ⊎ Refused) × World)
      → mine ≡ none
      → Inv w.node.peers
      → IsExclusive (peers_of w)
      → open_connection peer origin c (with_channel c w) ≡ q
      → Performs c mine w q.1
  unfolding open_connection step
  open_connection-Performs mine peer origin q nobody v x eq =
      subst (Means (IsOwn c mine) (peers_of w)) (ap (λ o. peers_of o.1) eq) (
        means (registers peer origin c) (refl, nobody) (channelled mine _ w means_nothing)
          (step-Meaning (linked (with_channel c w)) (registers peer origin c) v x))

  tending :
      (self : Registered) (w' : World)
      → Inv w.node.peers
      → IsExclusive (peers_of w)
      → Tends self w w'
      → Performs c (some self.id) w w'
  tending self w' v x t = Does-Means c self.id v x t.calls

Move-Performs :
    {sha : Sha256} {c : Sender} {w : World} {conn : Conn} {w' : World} {conn' : Conn}
    → Move sha c w conn w' conn'
    → Inv w.node.peers
    → IsExclusive (peers_of w)
    → Performs c (held conn.reader) w w'
unfolding record_entry
Move-Performs {sha} {c} {w} (opens peer origin h eq) v x =
    open_connection-Performs c w _ peer origin _ refl v x eq
Move-Performs {sha} {c} {w} (refuses peer origin {refusal} {w'} h eq) v x =
    channelled c w _ (close (w'.channels c)) w'
      (open_connection-Performs c w _ peer origin _ refl v x eq)
Move-Performs {sha} {c} {w} (set_up_fails true) v x =
    channelled c w _ (close (w.channels c)) w means_nothing
Move-Performs {sha} {c} {w} (set_up_fails false) v x =
    channelled c w _ (close (w.channels c)) w means_nothing
Move-Performs sets_up v x = means_nothing
Move-Performs {sha} {c} {w} (reads {registered = self} {ready} {buffer} arrival late {r} last eq) v
      x =
    tending c w self r.world v x (turned sha self ready buffer w arrival late _ v eq)
Move-Performs {sha} {c} {w}
      (stops_reading {registered = self} {ready} {buffer} arrival late {w' = w'} last eq) v x =
    tending c w self w' v x (turned sha self ready buffer w arrival late _ v eq)
Move-Performs {sha} {c} {w} (drops {registered = self} present) v x =
    tending c w self _ v x (drop_registered-Tends self w v)
Move-Performs {sha} {c} {w} (unwinds {registered = self} result) v x =
    reported-Performs c w _ self.address result _
      (tending c w self _ v x (drop_registered-Tends self w v))
Move-Performs {sha} {c} {w} (writes {rest = rest} q) v x =
    channelled c w _ (record (w.channels c) { queued = rest }) w means_nothing
Move-Performs {sha} {c} {w} write_fails v x =
    channelled c w _ (close (w.channels c)) w means_nothing
Move-Performs (times_out q linked) v x = means_nothing
Move-Performs {sha} {c} {w} (disconnects q none_left) v x =
    channelled c w _ (close (w.channels c)) w means_nothing
Move-Performs {sha} {c} {w} (joins peer result) v x =
    reported-Performs c w _ peer result w means_nothing

-- In every state that a node reaches, a turn of a thread is calls of the peer table that each do to the
-- map of the peers what the call is for, and that concern its own connection only: the registration of
-- a connection that holds no peer yet, under its own channel, removals, handshake events and messages
-- for the peer that it holds, and changes of its own channel.
pub Reach-Performs :
    {sha : Sha256} {config : Config} {nonce : ℕ} {channels : Channels} {s : System} {c : Sender}
    {w : World} {conn : Conn}
    → Reach sha config nonce channels s
    → Move sha c s.world (s.conns c) w conn
    → Performs c (held (s.conns c).reader) s.world w
Reach-Performs r m = Move-Performs m (Reach-Owned r).inv (Reach-own_channel r)
