-- ===== src/Node/Peers/Refines.antt =====
-- The peer table refines the map.
use avicoin.Prelude.{
  ℕ, ◌≡◌, ◌≢◌, inl, inr, refl, sym, ap, ◌∙◌, subst, Bool, Option, none, some, arith, ◌==◌,
  if◌then◌else◌, length, false, ◌<◌, length-map, Option-cases, Bool-cases,
}
use mathlib.Core.Path.{fun_ext, ap₂}
use native.Mathlib.Decide.{ℕ_discrete}
use avicoin.Outcome.{Result, ok, err, panic}
use avicoin.Words.{Bytes}
use avicoin.Net.{SocketAddr, Sender, Channels}
use avicoin.Node.Handshake.{Handshake, HandshakeEvent, advance}
use avicoin.Node.Peers.{
  PeerId, Origin, PeerHandle, PeerTable, Linked, Registration, get, erase, register, remove,
  has_dialled, max_peers, advance_handshake, advanced, send_to, broadcast,
}
use avicoin.Node.Peers.Invariant.{Inv}
use avicoin.Node.Peers.Delivery.{
  get-erase_self, get-erase_ne, SendOutcome, delivered, dropped, send_to_lem, after,
  RegisterOutcome, enters, full, twice, register_lem,
}
use avicoin.Node.Peers.Broadcast.{has_sender, reachable, broadcast_lem}
use avicoin.Node.Peers.Shrinks.{get-assign_self, get-assign_ne}
use avicoin.Node.Peers.Runs.{
  Call, registers, removes, advances, sends, broadcasts, channel_becomes, step,
}
use avicoin.Node.Peers.Map.{
  with_entry, IsExclusive, IsFull, IsDialled, Meaning, admits, refuses, takes_out, moves_on,
  stands_still, queues, drops, tells_all, changes, map_of,
}
use avicoin.Node.Peers.Found.{
  ids_of, peers-Listed, Listed-length, get-has_dialled, has_dialled-Found, has_sender-Found,
  exclusive-OwnChannels,
}
use avicoin.Node.Peers.Told.{get-reachable, told, told-nobody, told-listed}

-- A table that differs from another at one id.
entry_ext :
    (t t' : PeerTable) (cs : Channels) (id : PeerId) (o : Option PeerHandle)
    → get id t'.peers ≡ o
    → ((j : PeerId) → j ≢ id → get j t'.peers ≡ get j t.peers)
    → with_entry id o (map_of (t, cs)) ≡ map_of (t', cs)
entry_ext t t' cs id o here others =
    ap (λ (f : PeerId → Option PeerHandle). record { lookup = f; channels = cs }) (fun_ext at)
  where
    at : (j : PeerId) → (if j == id then o else get j t.peers) ≡ get j t'.peers
    at j = elim (ℕ_discrete j id) [
      | yes same ↦ rw same (ground (arith, here))
      | no other ↦ ground (arith, others j other)
    ]

module _ (t : PeerTable) (cs : Channels) (v : Inv t) where
  max_peers-IsFull : length t.peers < max_peers → ¬ IsFull (map_of (t, cs))
  max_peers-IsFull room (n, ids, listed, all) = omega (
    arith,
    Listed-length (map_of (t, cs)) n t.next_id ids t.peers v.fresh (λ j lt gone. gone) listed,
  )

  has_dialled-IsDialled :
      (address : SocketAddr)
      → has_dialled address t.peers ≡ false
      → ¬ IsDialled address (map_of (t, cs))
  has_dialled-IsDialled address e (i, p, found, dials, same) =
      cc (get-has_dialled address i p t.peers found dials same, e)

  registers-Meaning :
      (address : SocketAddr) (origin : Origin) (outbound : Sender) (t' : PeerTable)
      (r : Registration)
      → RegisterOutcome address origin outbound t t' r
      → Meaning (map_of (t, cs)) (registers address origin outbound) (map_of (t', cs))
  unfolding ids_of
  registers-Meaning address origin outbound t' _
        (enters id missing here others room undialled more) =
      subst (Meaning (map_of (t, cs)) (registers address origin outbound))
        (entry_ext t t' cs id _ here others)
        (admits address origin outbound id missing (max_peers-IsFull room)
          (λ dials. has_dialled-IsDialled address (undialled dials)))
  registers-Meaning address origin outbound t' _ (full all same) =
      subst (λ u. Meaning (map_of (t, cs)) (registers address origin outbound) (map_of (u, cs)))
        (sym same)
        (refuses address origin outbound (
          inl (
            t.next_id,
            ids_of t.peers,
            peers-Listed (map_of (t, cs)) t.next_id t.peers v.fresh (λ j lt found. found),
            length-map t.peers _ ∙ all,
          )))
  registers-Meaning address origin outbound t' _ (twice dials again same) =
      let (i, p, lt, e, found) = has_dialled-Found address t.next_id t.peers v.fresh again in
      subst (λ u. Meaning (map_of (t, cs)) (registers address origin outbound) (map_of (u, cs)))
        (sym same) (refuses address origin outbound (inr (dials, (i, p, e, found.0, found.1))))

  advances-Meaning :
      (id : PeerId) (event : HandshakeEvent) (p : PeerHandle) (r : Result Handshake)
      → get id t.peers ≡ some p
      → advance p.handshake event ≡ r
      → Meaning (map_of (t, cs)) (advances id event) (map_of ((advanced id p t r).1, cs))
  advances-Meaning id event p (ok h) e a =
      subst (Meaning (map_of (t, cs)) (advances id event))
        (entry_ext t (advanced id p t (ok h)).1 cs id _ (get-assign_self id p _ t.peers e)
          (λ j ne. get-assign_ne id j _ t.peers ne))
        (moves_on id event p h e a)
  advances-Meaning id event p (err x) e a = stands_still id event λ q h e' a'. cc (e, e', a, a')
  advances-Meaning id event p panic e a = stands_still id event λ q h e' a'. cc (e, e', a, a')

  sends-Meaning :
      (id : PeerId) (message : Bytes) (l' : Linked) (taken : Bool)
      → SendOutcome id message (t, cs) l' taken
      → Meaning (map_of (t, cs)) (sends id message) (map_of l')
  sends-Meaning id message (t', cs') _ (delivered p e room same queue) =
      subst (λ (l : Linked). Meaning (map_of (t, cs)) (sends id message) (map_of l))
        (ap₂ (λ (u : PeerTable) (ds : Channels). (u, ds)) (sym same) (sym queue))
        (queues id message p e room)
  sends-Meaning id message (t', cs') _ (dropped gone others same no_room) =
      subst (λ (ds : Channels). Meaning (map_of (t, cs)) (sends id message) (map_of (t', ds)))
        (sym same)
        (subst (Meaning (map_of (t, cs)) (sends id message)) (entry_ext t t' cs id none gone others)
          (drops id message no_room))

  told-broadcast :
      (message : Bytes) (c : Sender) → (broadcast message (t, cs)).1.1 c ≡ told message t.peers cs c
  unfolding broadcast told
  told-broadcast message c = refl

  broadcasts-Meaning :
      (message : Bytes)
      → IsExclusive (map_of (t, cs))
      → Meaning (map_of (t, cs)) (broadcasts message) (map_of (broadcast message (t, cs)).1)
  unfolding told
  broadcasts-Meaning message exclusive =
      let own =
        exclusive-OwnChannels t.next_id t.peers cs v.fresh
          λ i j p q lt lt' e e'. exclusive i j p q e e' in
      let left : reachable cs t.peers ≡ (broadcast message (t, cs)).1.0.peers =
        ap (λ (r : ℕ × Linked). r.1.0.peers) (sym (broadcast_lem message t cs v own)) in
      subst
        (λ (f : PeerId → Option PeerHandle).
          Meaning (map_of (t, cs)) (broadcasts message)
            (record { lookup = f; channels = (broadcast message (t, cs)).1.1 }))
        (fun_ext λ i. sym (get-reachable cs t.next_id t.peers i v.fresh) ∙ ap (get i) left)
        (tells_all message (broadcast message (t, cs)).1.1
          (λ i p e.
            told-broadcast message p.outbound
            ∙ told-listed message t.next_id t.peers cs i p v.fresh own e)
          (λ c unlinked.
            told-broadcast message c
            ∙ told-nobody message t.peers cs c (elim (Bool-cases (has_sender c t.peers)) [
              | inl some_one ↦
                  let (i, p, lt, e, leads) =
                    has_sender-Found c t.next_id t.peers v.fresh some_one in
                  absurd (unlinked i p e leads)
              | inr no_one ↦ no_one
            ])))

-- Every call on a well-formed table whose peers have channels of their own does to the map that the
-- table is what the call means: a registration enters a new id, where there is room and it is no second
-- dial of an address, or it is refused, by a full table or for a second dial; a removal takes one id out; an event moves the handshake of one peer on, or
-- changes nothing; a message goes to the queue of its peer, or that peer goes; a broadcast goes to all
-- queues with room, and the peers of the others go.
pub step-Meaning :
    (l : Linked) (c : Call)
    → Inv l.0
    → IsExclusive (map_of l)
    → Meaning (map_of l) c (map_of (step l c))
unfolding step advance_handshake remove
step-Meaning (t, cs) (registers address origin outbound) v x =
    registers-Meaning t cs v address origin outbound (register address origin outbound t).1
      (register address origin outbound t).0 (register_lem address origin outbound t v)
step-Meaning (t, cs) (removes id) v x =
    subst (Meaning (map_of (t, cs)) (removes id))
      (entry_ext t (record t { peers = erase id t.peers }) cs id none
        (get-erase_self id t.next_id t.peers v.fresh) (λ j ne. get-erase_ne id j t.peers ne))
      (takes_out id)
step-Meaning (t, cs) (advances id event) v x = elim (Option-cases (get id t.peers)) [
  | inl e ↦ rw (e, advance_handshake) (stands_still id event λ p h e'. cc)
  | inr (p, e) ↦
      rw (e, advance_handshake)
        (advances-Meaning t cs v id event p (advance p.handshake event) e refl)
]
step-Meaning (t, cs) (sends id message) v x =
    sends-Meaning t cs v id message (after (send_to id message (t, cs)))
      (send_to id message (t, cs)).0 (send_to_lem id message t cs v)
step-Meaning (t, cs) (broadcasts message) v x = broadcasts-Meaning t cs v message x
step-Meaning (t, cs) (channel_becomes c channel) v x = changes c channel
