-- ===== src/Node/Peers/Shrinks.antt =====
-- No operation but `register` brings a peer into the table, or gives one another channel.
use avicoin.Prelude.{
  ℕ, ◌≡◌, ◌≢◌, refl, sym, ap, ◌∙◌, Bool, true, false, some, List, [], ◌∷◌, arith, inl, inr,
  Option-cases,
}
use native.Mathlib.Decide.{ℕ_discrete}
use avicoin.Outcome.{Result, ok, err, panic}
use avicoin.Words.{Bytes}
use avicoin.Net.{Sender, Channels, try_send}
use avicoin.Node.Handshake.{Handshake, HandshakeEvent, advance}
use avicoin.Node.Peers.{
  PeerId, PeerHandle, Peers, PeerTable, Linked, get, erase, assign, remove, advance_handshake,
  advanced, send_to, sent, erase_all, broadcast, broadcast_loop,
}
use avicoin.Node.Peers.Invariant.{Below, Inv, erase-Below}
use avicoin.Node.Peers.Delivery.{get-erase_self, get-erase_ne}

-- Whatever `get` finds afterwards, it found before, with the same sender and address.
pub record Shrinks (t t' : PeerTable) : Type 0 where
  pub next_id : t'.next_id ≡ t.next_id
  pub entries :
      (i : PeerId) (p' : PeerHandle)
      → get i t'.peers ≡ some p'
      → (p : PeerHandle) × (get i t.peers ≡ some p)
        × (p'.outbound ≡ p.outbound)
        × (p'.address ≡ p.address)

pub Shrinks-refl : (t : PeerTable) → Shrinks t t
Shrinks-refl t = record { next_id = refl; entries = λ i p' e. (p', e, refl, refl) }

pub Shrinks-trans : {t u v : PeerTable} → Shrinks t u → Shrinks u v → Shrinks t v
Shrinks-trans a b = record {
  next_id = b.next_id ∙ a.next_id;
  entries = λ i p'' e''.
      let (p', e', s', d') = b.entries i p'' e'' in
      let (p, e, s, d) = a.entries i p' e' in (p, e, s' ∙ s, d' ∙ d);
}

get-erase :
    (id n : ℕ) (peers : Peers) (i : PeerId) (p : PeerHandle)
    → Below n peers
    → get i (erase id peers) ≡ some p
    → get i peers ≡ some p
get-erase id n peers i p b e = elim (ℕ_discrete i id) [
  | yes same ↦ cc (get-erase_self id n peers b, ap (λ k. get k (erase id peers)) same, e)
  | no other ↦ sym (get-erase_ne id i peers other) ∙ e
]

get-erase_all :
    (failed : List PeerId) (n : ℕ) (peers : Peers) (i : PeerId) (p : PeerHandle)
    → Below n peers
    → get i (erase_all failed peers) ≡ some p
    → get i peers ≡ some p
unfolding erase_all
get-erase_all [] n peers i p b e = e
get-erase_all (id ∷ failed) n peers i p b e =
    get-erase id n peers i p b
      (get-erase_all failed n (erase id peers) i p (erase-Below id n peers b) e)

-- A table with fewer entries of another.
Shrinks-fewer :
    (t : PeerTable) (peers : Peers)
    → ((i : PeerId) (p : PeerHandle) → get i peers ≡ some p → get i t.peers ≡ some p)
    → Shrinks t (record t { peers = peers })
Shrinks-fewer t peers h = record { next_id = refl; entries = λ i p' e. (p', h i p' e, refl, refl) }

pub remove-Shrinks : (id : PeerId) (t : PeerTable) → Inv t → Shrinks t (remove id t).1
unfolding remove
remove-Shrinks id t v =
    Shrinks-fewer t (erase id t.peers) (λ i p e. get-erase id t.next_id t.peers i p v.fresh e)

pub broadcast-Shrinks :
    (message : Bytes) (l : Linked) → Inv l.0 → Shrinks l.0 (broadcast message l).1.0
unfolding broadcast
broadcast-Shrinks message (t, cs) v =
    Shrinks-fewer t _
      (λ i p e. get-erase_all (broadcast_loop message t.peers cs).1 t.next_id t.peers i p v.fresh e)

sent-Shrinks :
    (id : PeerId) (t : PeerTable) (r : Bool × Channels) → Inv t → Shrinks t (sent id t r).1.0
sent-Shrinks id t (true, cs) v = Shrinks-refl t
sent-Shrinks id t (false, cs) v = unfold remove in remove-Shrinks id t v

pub send_to-Shrinks :
    (id : PeerId) (message : Bytes) (l : Linked) → Inv l.0 → Shrinks l.0 (send_to id message l).1.0
unfolding send_to
send_to-Shrinks id message (t, cs) v = elim (Option-cases (get id t.peers)) [
  | inl e ↦ rw (e, send_to) (Shrinks-refl t)
  | inr (p, e) ↦ rw (e, send_to) (sent-Shrinks id t (try_send p.outbound message cs) v)
]

pub get-assign_self :
    (id : PeerId) (p q : PeerHandle) (peers : Peers)
    → get id peers ≡ some p
    → get id (assign id q peers) ≡ some q
unfolding get assign
get-assign_self id p q [] e = cc
get-assign_self id p q ((i, r) ∷ peers) e = ground (arith, get-assign_self id p q peers)

pub get-assign_ne :
    (id j : PeerId) (q : PeerHandle) (peers : Peers)
    → j ≢ id
    → get j (assign id q peers) ≡ get j peers
unfolding get assign
get-assign_ne id j q [] ne = refl
get-assign_ne id j q ((i, r) ∷ peers) ne = ground (arith, get-assign_ne id j q peers)

-- An assignment that leaves sender and address as they are.
assign-Shrinks :
    (id : PeerId) (p : PeerHandle) (h : Handshake) (t : PeerTable)
    → get id t.peers ≡ some p
    → Shrinks t (record t { peers = assign id (record p { handshake = h }) t.peers })
assign-Shrinks id p h t e = record { next_id = refl; entries = entries }
  where
    q : PeerHandle
    q = record p { handshake = h }

    entries :
        (i : PeerId) (p' : PeerHandle)
        → get i (assign id q t.peers) ≡ some p'
        → (r : PeerHandle) × (get i t.peers ≡ some r)
          × (p'.outbound ≡ r.outbound)
          × (p'.address ≡ r.address)
    entries i p' e' = elim (ℕ_discrete i id) [
      | yes same ↦
          let now : some q ≡ some p' =
            sym (get-assign_self id p q t.peers e)
            ∙ ap (λ k. get k (assign id q t.peers)) (sym same)
            ∙ e' in
          let is_q : q ≡ p' = cc now in
          (
            p,
            ap (λ k. get k t.peers) same ∙ e,
            ap (λ (r : PeerHandle). r.outbound) (sym is_q),
            ap (λ (r : PeerHandle). r.address) (sym is_q),
          )
      | no other ↦ (p', sym (get-assign_ne id i q t.peers other) ∙ e', refl, refl)
    ]

advanced-Shrinks :
    (id : PeerId) (p : PeerHandle) (t : PeerTable) (r : Result Handshake)
    → get id t.peers ≡ some p
    → Shrinks t (advanced id p t r).1
advanced-Shrinks id p t (ok h) e = assign-Shrinks id p h t e
advanced-Shrinks id p t (err x) e = Shrinks-refl t
advanced-Shrinks id p t panic e = Shrinks-refl t

pub advance_handshake-Shrinks :
    (id : PeerId) (event : HandshakeEvent) (t : PeerTable)
    → Shrinks t (advance_handshake id event t).1
unfolding advance_handshake
advance_handshake-Shrinks id event t = elim (Option-cases (get id t.peers)) [
  | inl e ↦ rw (e, advance_handshake) (Shrinks-refl t)
  | inr (p, e) ↦ rw (e, advance_handshake) (advanced-Shrinks id p t (advance p.handshake event) e)
]

-- No peer of the table leads to the channel.
abbrev pub Unlinked : Sender → PeerTable → Type 0
Unlinked c t = (i : PeerId) (p : PeerHandle) → get i t.peers ≡ some p → p.outbound ≢ c

-- A message goes to no channel but that of its peer.
sent-channels : (id : PeerId) (t : PeerTable) (r : Bool × Channels) → (sent id t r).1.1 ≡ r.1
sent-channels id t (true, cs) = refl
sent-channels id t (false, cs) = refl

try_send-other :
    (s c : Sender) (message : Bytes) (cs : Channels) → s ≢ c → (try_send s message cs).1 c ≡ cs c
unfolding try_send
try_send-other s c message cs ne = ground arith

pub send_to-elsewhere :
    (id : PeerId) (message : Bytes) (l : Linked) (c : Sender)
    → ((p : PeerHandle) → get id l.0.peers ≡ some p → p.outbound ≢ c)
    → (send_to id message l).1.1 c ≡ l.1 c
unfolding send_to
send_to-elsewhere id message (t, cs) c u = elim (Option-cases (get id t.peers)) [
  | inl e ↦ rw (e, send_to) refl
  | inr (p, e) ↦
      rw (e, send_to)
        (ap (λ (ds : Channels). ds c) (sent-channels id t (try_send p.outbound message cs))
          ∙ try_send-other p.outbound c message cs (u p e))
]

-- What is done for one peer leaves the others as they were.
sent-others :
    (id : PeerId) (t : PeerTable) (r : Bool × Channels) (j : PeerId)
    → j ≢ id
    → get j (sent id t r).1.0.peers ≡ get j t.peers
sent-others id t (true, cs) j ne = refl
sent-others id t (false, cs) j ne = get-erase_ne id j t.peers ne

pub send_to-others :
    (id : PeerId) (message : Bytes) (l : Linked) (j : PeerId)
    → j ≢ id
    → get j (send_to id message l).1.0.peers ≡ get j l.0.peers
unfolding send_to
send_to-others id message (t, cs) j ne = elim (Option-cases (get id t.peers)) [
  | inl e ↦ rw (e, send_to) refl
  | inr (p, e) ↦ rw (e, send_to) (sent-others id t (try_send p.outbound message cs) j ne)
]

advanced-others :
    (id : PeerId) (p : PeerHandle) (t : PeerTable) (r : Result Handshake) (j : PeerId)
    → j ≢ id
    → get j (advanced id p t r).1.peers ≡ get j t.peers
advanced-others id p t (ok h) j ne = get-assign_ne id j (record p { handshake = h }) t.peers ne
advanced-others id p t (err x) j ne = refl
advanced-others id p t panic j ne = refl

pub advance_handshake-others :
    (id : PeerId) (event : HandshakeEvent) (t : PeerTable) (j : PeerId)
    → j ≢ id
    → get j (advance_handshake id event t).1.peers ≡ get j t.peers
unfolding advance_handshake
advance_handshake-others id event t j ne = elim (Option-cases (get id t.peers)) [
  | inl e ↦ rw (e, advance_handshake) refl
  | inr (p, e) ↦ rw (e, advance_handshake) (advanced-others id p t (advance p.handshake event) j ne)
]
