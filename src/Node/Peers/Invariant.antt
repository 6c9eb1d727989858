-- ===== src/Node/Peers/Invariant.antt =====
-- What every operation on the peer table keeps.
use avicoin.Prelude.{
  ℕ, ◌+◌, ◌^◌, ◌≤◌, ◌<◌, ◌≡◌, refl, Bool, true, false, ◌&&◌, some, List, [], ◌∷◌, arith, length,
  Option-cases, inl, inr,
}
use avicoin.Outcome.{Result, ok, err, panic}
use avicoin.Words.{Bytes}
use avicoin.Net.{SocketAddr, Sender, Channels, try_send}
use avicoin.Node.Handshake.{Handshake, HandshakeEvent, advance}
use avicoin.Node.Peers.{
  PeerId, Origin, PeerHandle, Peers, PeerTable, Linked, max_peers, get, erase, insert, assign,
  is_dialled, has_dialled, register, remove, advance_handshake, advanced, send_to, sent, erase_all,
  broadcast, empty_table,
}

-- Ids fall along the list and stay under the bound: no two peers share one.
abbrev pub Below : ℕ → Peers → Type 0
Below n [] = Unit {0}
Below n ((i, p) ∷ peers) = (i < n) × Below i peers

-- No two peers were dialled at one address.
abbrev pub DialledOnce : Peers → Type 0
DialledOnce [] = Unit {0}
DialledOnce ((i, p) ∷ peers) =
    ((is_dialled p.origin && has_dialled p.address peers) ≡ false) × DialledOnce peers

pub record Inv (t : PeerTable) : Type 0 where
  pub fresh : Below t.next_id t.peers
  pub bounded : length t.peers ≤ max_peers
  pub dialled_once : DialledOnce t.peers

pub empty_table-Inv : Inv empty_table
unfolding empty_table
empty_table-Inv = record { fresh = tt; bounded = omega arith; dialled_once = tt }

pub Below-mono : (m n : ℕ) (peers : Peers) → m ≤ n → Below m peers → Below n peers
Below-mono m n [] h b = tt
Below-mono m n ((i, p) ∷ peers) h b = (omega arith, b.1)

pub erase-Below : (id n : ℕ) (peers : Peers) → Below n peers → Below n (erase id peers)
unfolding erase
erase-Below id n [] b = tt
erase-Below id n ((i, p) ∷ peers) b =
    ground (arith, erase-Below id i peers b.1, Below-mono i n peers)

pub length-erase-le : (id : ℕ) (peers : Peers) → length (erase id peers) ≤ length peers
unfolding erase
length-erase-le id [] = omega arith
length-erase-le id ((i, p) ∷ peers) = ground (arith, length-erase-le id peers)

has_dialled-erase :
    (id : ℕ) (a : SocketAddr) (peers : Peers)
    → has_dialled a peers ≡ false
    → has_dialled a (erase id peers) ≡ false
unfolding erase has_dialled
has_dialled-erase id a [] h = refl
has_dialled-erase id a ((i, p) ∷ peers) h = ground (arith, has_dialled-erase id a peers)

erase-DialledOnce : (id : ℕ) (peers : Peers) → DialledOnce peers → DialledOnce (erase id peers)
unfolding erase
erase-DialledOnce id [] d = tt
erase-DialledOnce id ((i, p) ∷ peers) d =
    ground (arith, erase-DialledOnce id peers d.1, has_dialled-erase id p.address peers)

-- An id that the ids all lie under is nobody's.
pub erase_above : (id n : ℕ) (peers : Peers) → Below n peers → n ≤ id → erase id peers ≡ peers
unfolding erase
erase_above id n [] b h = refl
erase_above id n ((i, p) ∷ peers) b h = ground (arith, erase_above id i peers b.1)

assign-Below :
    (id n : ℕ) (q : PeerHandle) (peers : Peers) → Below n peers → Below n (assign id q peers)
unfolding assign
assign-Below id n q [] b = tt
assign-Below id n q ((i, p) ∷ peers) b = ground (arith, assign-Below id i q peers b.1)

length-assign :
    (id : ℕ) (q : PeerHandle) (peers : Peers) → length (assign id q peers) ≡ length peers
unfolding assign
length-assign id q [] = refl
length-assign id q ((i, p) ∷ peers) = ground (arith, length-assign id q peers)

-- A new handshake state changes nobody's origin or address.
has_dialled-assign :
    (id : ℕ) (q p : PeerHandle) (a : SocketAddr) (peers : Peers)
    → get id peers ≡ some p
    → q.origin ≡ p.origin
    → q.address ≡ p.address
    → has_dialled a (assign id q peers) ≡ has_dialled a peers
unfolding assign has_dialled get
has_dialled-assign id q p a [] e o h = cc
has_dialled-assign id q p a ((i, r) ∷ peers) e o h =
    ground (arith, has_dialled-assign id q p a peers)

assign-DialledOnce :
    (id : ℕ) (q p : PeerHandle) (peers : Peers)
    → get id peers ≡ some p
    → q.origin ≡ p.origin
    → q.address ≡ p.address
    → DialledOnce peers
    → DialledOnce (assign id q peers)
unfolding assign get
assign-DialledOnce id q p [] e o h d = cc
assign-DialledOnce id q p ((i, r) ∷ peers) e o h d =
    ground (arith, assign-DialledOnce id q p peers, has_dialled-assign id q p r.address peers)

-- A refused registration changes nothing; an accepted one keeps the invariant while ids do not wrap.
pub register-Inv :
    (address : SocketAddr) (origin : Origin) (outbound : Sender) (t : PeerTable)
    → t.next_id + 1 < 2 ^ 64
    → Inv t
    → Inv (register address origin outbound t).1
unfolding register insert
register-Inv address origin outbound t fits v =
    ground (arith, erase_above t.next_id t.next_id t.peers v.fresh)

erase-Inv : (id : PeerId) (t : PeerTable) → Inv t → Inv (record t { peers = erase id t.peers })
erase-Inv id t v = record {
  fresh = erase-Below id t.next_id t.peers v.fresh;
  bounded = omega (arith, length-erase-le id t.peers, v.bounded);
  dialled_once = erase-DialledOnce id t.peers v.dialled_once;
}

pub remove-Inv : (id : PeerId) (t : PeerTable) → Inv t → Inv (remove id t).1
unfolding remove
remove-Inv id t v = erase-Inv id t v

advanced-Inv :
    (id : PeerId) (p : PeerHandle) (t : PeerTable) (r : Result Handshake)
    → get id t.peers ≡ some p
    → Inv t
    → Inv (advanced id p t r).1
advanced-Inv id p t (ok h) e v = record {
  fresh = assign-Below id t.next_id _ t.peers v.fresh;
  bounded = omega (arith, length-assign id (record p { handshake = h }) t.peers, v.bounded);
  dialled_once = assign-DialledOnce id _ p t.peers e refl refl v.dialled_once;
}
advanced-Inv id p t (err x) e v = v
advanced-Inv id p t panic e v = v

pub advance_handshake-Inv :
    (id : PeerId) (event : HandshakeEvent) (t : PeerTable)
    → Inv t
    → Inv (advance_handshake id event t).1
unfolding advance_handshake
advance_handshake-Inv id event t v = elim (Option-cases (get id t.peers)) [
  | inl e ↦ rw (e, advance_handshake) v
  | inr (p, e) ↦ rw (e, advance_handshake) (advanced-Inv id p t (advance p.handshake event) e v)
]

pub send_to-Inv :
    (id : PeerId) (message : Bytes) (l : Linked) → Inv l.0 → Inv (send_to id message l).1.0
unfolding send_to
send_to-Inv id message (t, cs) v = elim (Option-cases (get id t.peers)) [
  | inl e ↦ rw (e, send_to) v
  | inr (p, e) ↦ rw (e, send_to) (sent-Inv (try_send p.outbound message cs))
]
  where
    sent-Inv : (q : Bool × Channels) → Inv (sent id t q).1.0
    sent-Inv (true, cs') = v
    sent-Inv (false, cs') = erase-Inv id t v

erase_all-Inv :
    (failed : List PeerId) (t : PeerTable)
    → Inv t
    → Inv (record t { peers = erase_all failed t.peers })
unfolding erase_all
erase_all-Inv [] t v = v
erase_all-Inv (id ∷ failed) t v =
    erase_all-Inv failed (record t { peers = erase id t.peers }) (erase-Inv id t v)

pub broadcast-Inv : (message : Bytes) (l : Linked) → Inv l.0 → Inv (broadcast message l).1.0
unfolding broadcast
broadcast-Inv message (t, cs) v = erase_all-Inv _ t v
