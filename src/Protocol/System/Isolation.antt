-- ===== src/Protocol/System/Isolation.antt =====
-- What the peer of one connection can do to the others: nothing.
use avicoin.Prelude.{ℕ, ◌<◌, ◌≡◌, ◌≢◌, refl, sym, ap, ◌∙◌, some, List, ◌∷◌, arith}
use native.Mathlib.Decide.{ℕ_discrete}
use avicoin.Util.{Sha256}
use avicoin.Net.{Sender, Channels}
use avicoin.Node.{Config}
use avicoin.Node.Peers.{PeerId, PeerHandle, get}
use avicoin.Protocol.Session.{World}
use avicoin.Protocol.System.{
  Conn, System, set_conn, Move, picks, Reach, begins, later, Run, starts, continues, turns_of,
}
use avicoin.Protocol.System.Effects.{Holding, kept, let_go, gained, IsAway, Move-Effect}
use avicoin.Protocol.System.Owners.{held, set_conn_self, set_conn_ne}
use avicoin.Protocol.System.Reached.{Reach-Owned, Reach-Run}

-- Every id that is held is under the next one, and no two connections hold one id.
record HeldOnce (next_id : PeerId) (conns : Sender → Conn) : Type 0 where
  below : (c : Sender) (i : PeerId) → held (conns c).reader ≡ some i → i < next_id
  once :
      (c d : Sender) (i : PeerId)
      → held (conns c).reader ≡ some i
      → held (conns d).reader ≡ some i
      → c ≡ d

module _ (c : Sender) (conn' : Conn) (conns : Sender → Conn) (n n' : PeerId)
    (h : HeldOnce n conns) where
  -- What the connection holds now, it held before, or it is new.
  Traced : Type 0
  Traced =
      (d : Sender) (i : PeerId)
      → held (set_conn c conn' conns d).reader ≡ some i
      → held (conns d).reader ≡ some i

  elsewhere :
      (d : Sender) (i : PeerId)
      → d ≢ c
      → held (set_conn c conn' conns d).reader ≡ some i
      → held (conns d).reader ≡ some i
  elsewhere d i ne e = ap (λ (x : Conn). held x.reader) (sym (set_conn_ne c conn' conns d ne)) ∙ e

  here :
      (d : Sender) (i : PeerId)
      → d ≡ c
      → held (set_conn c conn' conns d).reader ≡ some i
      → held conn'.reader ≡ some i
  here d i same e = ap (λ (x : Conn). held x.reader) (sym (set_conn_self c conn' conns d same)) ∙ e

  traced : n' ≡ n → Traced → HeldOnce n' (set_conn c conn' conns)
  unfolding Traced
  traced e t = record {
    below = λ d i x. omega (arith, e, h.below d i (t d i x));
    once = λ d d' i x y. h.once d d' i (t d i x) (t d' i y);
  }

  Holding-HeldOnce :
      Holding (held (conns c).reader) (held conn'.reader) n n'
      → HeldOnce n' (set_conn c conn' conns)
  unfolding Traced
  Holding-HeldOnce (kept same next) = traced next λ d i x. elim (ℕ_discrete d c) [
    | yes e ↦ ap (λ k. held (conns k).reader) e ∙ sym same ∙ here d i e x
    | no ne ↦ elsewhere d i ne x
  ]
  Holding-HeldOnce (let_go nothing next) = traced next λ d i x. elim (ℕ_discrete d c) [
    | yes e ↦ cc (here d i e x, nothing)
    | no ne ↦ elsewhere d i ne x
  ]
  Holding-HeldOnce (gained new next) = record {
    below = λ d i x. elim (ℕ_discrete d c) [
      | yes e ↦ let fresh : n ≡ i = cc (here d i e x, new) in omega (arith, fresh, next)
      | no ne ↦ omega (arith, h.below d i (elsewhere d i ne x), next)
    ];
    once = λ d d' i x y. elim (ℕ_discrete d c) [
      | yes e ↦ elim (ℕ_discrete d' c) [
        | yes e' ↦ e ∙ sym e'
        | no ne' ↦
            let fresh : n ≡ i = cc (here d i e x, new) in
            absurd (omega (arith, fresh, h.below d' i (elsewhere d' i ne' y)))
      ]
      | no ne ↦ elim (ℕ_discrete d' c) [
        | yes e' ↦
            let fresh : n ≡ i = cc (here d' i e' y, new) in
            absurd (omega (arith, fresh, h.below d i (elsewhere d i ne x)))
        | no ne' ↦ h.once d d' i (elsewhere d i ne x) (elsewhere d' i ne' y)
      ]
    ];
  }

Reach-HeldOnce :
    {sha : Sha256} {config : Config} {nonce : ℕ} {channels : Channels} {s : System}
    → Reach sha config nonce channels s
    → HeldOnce s.world.node.peers.next_id s.conns
Reach-HeldOnce begins = record { below = λ c i e. cc; once = λ c d i e e'. cc }
Reach-HeldOnce (later {s} r (picks c {w} {conn} m)) =
    Holding-HeldOnce c conn s.conns s.world.node.peers.next_id w.node.peers.next_id
      (Reach-HeldOnce r) (Move-Effect m (Reach-Owned r).inv).holding

-- What another connection holds has no peer in the table that leads to this one.
pub Reach-IsAway :
    {sha : Sha256} {config : Config} {nonce : ℕ} {channels : Channels} {s : System} (c d : Sender)
    → Reach sha config nonce channels s
    → d ≢ c
    → IsAway c (s.conns d) s.world.node.peers
Reach-IsAway {s} c d r ne j q mine e leads = ne (
    (Reach-HeldOnce r).once d c j mine
      (ap (λ k. held (s.conns k).reader) (sym leads) ∙ (Reach-Owned r).owner j q e))

-- One turn of another connection leaves a peer and its queue as they are.
Reach-isolated :
    {sha : Sha256} {config : Config} {nonce : ℕ} {channels : Channels} {s : System} {w : World}
    {conn : Conn} (c : Sender) (i : PeerId) (p : PeerHandle)
    → Reach sha config nonce channels s
    → get i s.world.node.peers.peers ≡ some p
    → c ≢ p.outbound
    → Move sha c s.world (s.conns c) w conn
    → (get i w.node.peers.peers ≡ some p) × (w.channels p.outbound ≡ s.world.channels p.outbound)
Reach-isolated {s} c i p r e ne m =
    let o = Reach-Owned r in
    let once = (Reach-HeldOnce r).once in
    let f = Move-Effect m o.inv in
    (
      f.others i p (λ mine. ne (once c p.outbound i mine (o.owner i p e))) e,
      f.untouched p.outbound ne (Reach-IsAway p.outbound c r ne),
    )

other_turns :
    (c d : Sender) (turns : List Sender)
    → turns_of c (d ∷ turns) ≡ 0
    → (d ≢ c) × (turns_of c turns ≡ 0)
other_turns c d turns e = ground arith

-- In every state that a node reaches, and in any run from there in which a peer's own connection takes
-- no turn, whatever the peers of all other connections send and whatever becomes of those connections,
-- the peer stays in the table, its handshake where it was, and its queue and its connection are as they
-- were: no peer can advance or disturb another, take it out of the table, or put a message in its queue.
pub Run-isolated :
    {sha : Sha256} {config : Config} {nonce : ℕ} {channels : Channels} {s t : System}
    {turns : List Sender} (i : PeerId) (p : PeerHandle)
    → Reach sha config nonce channels s
    → get i s.world.node.peers.peers ≡ some p
    → Run sha s turns t
    → turns_of p.outbound turns ≡ 0
    → (get i t.world.node.peers.peers ≡ some p)
      × (t.world.channels p.outbound ≡ s.world.channels p.outbound)
      × (t.conns p.outbound ≡ s.conns p.outbound)
Run-isolated i p r e starts none_own = (e, refl, refl)
Run-isolated i p r e (continues {turns} {t} c {w} {conn} run m) none_own =
    let (ne, before) = other_turns p.outbound c turns none_own in
    let (e', queue, same) = Run-isolated i p r e run before in
    let (e'', queue') = Reach-isolated c i p (Reach-Run r run) e' ne m in
    (e'', queue' ∙ queue, set_conn_ne c conn t.conns p.outbound (λ x. ne (sym x)) ∙ same)
