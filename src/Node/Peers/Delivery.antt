-- ===== src/Node/Peers/Delivery.antt =====
-- Looking a peer up after an operation, and what `send_to` and `register` do.
use avicoin.Prelude.{
  ℕ, ◌+◌, ◌≤◌, ◌<◌, ◌≡◌, ◌≢◌, inl, inr, refl, ap, subst, Bool, true, false, ◌&&◌, none, some, [],
  ◌∷◌, arith, leb, length, Option-cases, Bool-cases,
}
use avicoin.Words.{Bytes}
use avicoin.Net.{SocketAddr, Sender, Channels, try_send, accepts, enqueue, set_channel}
use avicoin.Node.Handshake.{awaiting_version}
use avicoin.Node.Peers.{
  PeerId, Origin, PeerHandle, Peers, PeerTable, Linked, Registration, registered, refused,
  at_capacity, already_dialled, max_peers, get, erase, insert, is_dialled, has_dialled, register,
  send_to,
}
use avicoin.Node.Peers.Invariant.{Below, Inv, erase_above}

pub get_above : (id n : ℕ) (peers : Peers) → Below n peers → n ≤ id → get id peers ≡ none
unfolding get
get_above id n [] b h = refl
get_above id n ((i, p) ∷ peers) b h = ground (arith, get_above id i peers b.1)

pub get-erase_self : (id n : ℕ) (peers : Peers) → Below n peers → get id (erase id peers) ≡ none
unfolding get erase
get-erase_self id n [] b = refl
get-erase_self id n ((i, p) ∷ peers) b =
    ground (arith, get_above id i peers b.1, get-erase_self id i peers b.1)

pub get-erase_ne : (id j : ℕ) (peers : Peers) → j ≢ id → get j (erase id peers) ≡ get j peers
unfolding get erase
get-erase_ne id j [] ne = refl
get-erase_ne id j ((i, p) ∷ peers) ne = ground (arith, get-erase_ne id j peers)

-- How `send_to` ends: the message is the last in the peer's queue and nothing else has changed, or
-- nobody was sent anything, the channels are as they were, and the peer is not in the table.
pub data SendOutcome (id : PeerId) (message : Bytes) (l l' : Linked) : Bool → Type 0 where
  delivered :
      (p : PeerHandle)
      → get id l.0.peers ≡ some p
      → accepts (l.1 p.outbound) ≡ true
      → l'.0 ≡ l.0
      → l'.1 ≡ set_channel p.outbound (enqueue message (l.1 p.outbound)) l.1
      → SendOutcome id message l l' true
  dropped :
      get id l'.0.peers ≡ none
      → ((j : PeerId) → j ≢ id → get j l'.0.peers ≡ get j l.0.peers)
      → l'.1 ≡ l.1
      → ((p : PeerHandle) → get id l.0.peers ≡ some p → accepts (l.1 p.outbound) ≡ false)
      → SendOutcome id message l l' false

abbrev pub after : Bool × Linked → Linked
after r = r.1

module _ (id : PeerId) (message : Bytes) (t : PeerTable) (cs : Channels) (v : Inv t) where
  send_to_missing : get id t.peers ≡ none → SendOutcome id message (t, cs) (t, cs) false
  send_to_missing e = dropped e (λ j ne. refl) refl (λ p e'. cc)

  send_to_refused :
      (p : PeerHandle)
      → get id t.peers ≡ some p
      → accepts (cs p.outbound) ≡ false
      → SendOutcome id message (t, cs) (record t { peers = erase id t.peers }, cs) false
  send_to_refused p e full =
      dropped (get-erase_self id t.next_id t.peers v.fresh) (λ j ne. get-erase_ne id j t.peers ne)
        refl
        (λ q e'.
          subst (λ (r : PeerHandle). accepts (cs r.outbound) ≡ false) {x = p} {y = q} (cc) full)

  -- Every call of `send_to` ends in one of the two ways, and its result says in which.
  pub send_to_lem :
      SendOutcome id message
        (t, cs)
        (after (send_to id message (t, cs)))
        (send_to id message (t, cs)).0
  unfolding send_to try_send
  send_to_lem = elim (Option-cases (get id t.peers)) [
    | inl e ↦ rw (e, send_to) (send_to_missing e)
    | inr (p, e) ↦ elim (Bool-cases (accepts (cs p.outbound))) [
      | inl room ↦ rw (e, send_to) (rw (room, try_send) (delivered p e room refl refl))
      | inr full ↦ rw (e, send_to) (rw (full, try_send) (send_to_refused p e full))
    ]
  ]

get-insert_self : (id : ℕ) (p : PeerHandle) (peers : Peers) → get id (insert id p peers) ≡ some p
unfolding get insert
get-insert_self id p peers = ground arith

get-insert_ne :
    (id j : ℕ) (p : PeerHandle) (peers : Peers) → j ≢ id → get j (insert id p peers) ≡ get j peers
unfolding get insert
get-insert_ne id j p peers ne = ground (arith, get-erase_ne id j peers)

both_true : (a b : Bool) → (a && b) ≡ true → (a ≡ true) × (b ≡ true)
both_true a b h = ground arith

-- How `register` ends.
pub data RegisterOutcome (address : SocketAddr) (origin : Origin) (outbound : Sender)
    (t t' : PeerTable) : Registration → Type 0 where
  enters :
      (id : PeerId)
      → get id t.peers ≡ none
      → get id t'.peers
        ≡ some (record {
          address = address;
          origin = origin;
          handshake = awaiting_version;
          outbound = outbound;
        })
      → ((j : PeerId) → j ≢ id → get j t'.peers ≡ get j t.peers)
      → length t.peers < max_peers
      → (is_dialled origin ≡ true → has_dialled address t.peers ≡ false)
      → length t'.peers ≡ length t.peers + 1
      → RegisterOutcome address origin outbound t t' (registered id)
  full :
      length t.peers ≡ max_peers
      → t' ≡ t
      → RegisterOutcome address origin outbound t t' (refused at_capacity)
  twice :
      is_dialled origin ≡ true
      → has_dialled address t.peers ≡ true
      → t' ≡ t
      → RegisterOutcome address origin outbound t t' (refused already_dialled)

module _ (address : SocketAddr) (origin : Origin) (outbound : Sender) (t : PeerTable)
    (v : Inv t) where
  -- A registration gives the peer an id that nobody has, waiting for its version, and leaves all
  -- others alone; it is refused, with nothing changed, only by a full table or for a second dial of
  -- one address.
  pub register_lem :
      RegisterOutcome address origin outbound t
        (register address origin outbound t).1
        (register address origin outbound t).0
  unfolding register insert
  register_lem = elim (Bool-cases (is_dialled origin && has_dialled address t.peers)) [
    | inl again ↦ rw (again, register) (twice (both_true _ _ again).0 (both_true _ _ again).1 refl)
    | inr once ↦ elim (Bool-cases (leb max_peers (length t.peers))) [
      | inl no_room ↦ rw (once, register) (rw (no_room, register) (full (ground arith) refl))
      | inr room ↦
          rw (once, register)
            (rw (room, register)
              (enters t.next_id (get_above t.next_id t.next_id t.peers v.fresh (omega arith))
                (get-insert_self t.next_id _ t.peers)
                (λ j ne. get-insert_ne t.next_id j _ t.peers ne) (ground arith)
                (λ dials. ground (arith, once, dials))
                (omega (
                  arith,
                  ap length (erase_above t.next_id t.next_id t.peers v.fresh (omega arith)),
                ))))
    ]
  ]
