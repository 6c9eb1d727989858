-- ===== src/Protocol/System/Exclusive.antt =====
-- The peers of a node and the connections behind them, in every state that the node reaches.
use avicoin.Prelude.{ℕ, ◌≡◌, ap, some}
use avicoin.Util.{Sha256}
use avicoin.Net.{Channels}
use avicoin.Node.{Config}
use avicoin.Node.Peers.{PeerId, PeerHandle, get}
use avicoin.Node.Peers.Invariant.{Inv}
use avicoin.Protocol.System.{System, Reach}
use avicoin.Protocol.System.Owners.{held}
use avicoin.Protocol.System.Reached.{Reach-Owned}

module _ {sha : Sha256} {config : Config} {nonce : ℕ} {channels : Channels} {s : System}
    (r : Reach sha config nonce channels s) where
  -- In every state that a node reaches, whatever its peers send and in whatever order its threads take
  -- their turns, its peer table is well formed, and each peer in it is held by the connection whose
  -- channel the peer's sender leads to, which has not dropped its registration.
  pub Reach-held :
      (i : PeerId) (p : PeerHandle)
      → get i s.world.node.peers.peers ≡ some p
      → (held (s.conns p.outbound).reader ≡ some i) × Inv s.world.node.peers
  Reach-held i p e = let o = Reach-Owned r in (o.owner i p e, o.inv)

  -- No two peers of a reachable state share a channel: what one of them is sent no other receives.
  pub Reach-own_channel :
      (i j : PeerId) (p q : PeerHandle)
      → get i s.world.node.peers.peers ≡ some p
      → get j s.world.node.peers.peers ≡ some q
      → p.outbound ≡ q.outbound
      → i ≡ j
  Reach-own_channel i j p q e e' same =
      let o = Reach-Owned r in
      cc (o.owner i p e, o.owner j q e', ap (λ x. held (s.conns x).reader) same)
