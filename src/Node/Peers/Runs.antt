-- ===== src/Node/Peers/Runs.antt =====
-- The table under any sequence of calls, in any order: whichever threads make them, the node's mutex
-- puts them one after the other.
use avicoin.Prelude.{
  ◌+◌, ◌^◌, ◌≤◌, ◌<◌, ◌≡◌, refl, List, [], ◌∷◌, arith, length, Option-cases, inl, inr,
}
use avicoin.Outcome.{Result, ok, err, panic}
use avicoin.Words.{Bytes}
use avicoin.Net.{SocketAddr, Sender, Channel, Channels, set_channel}
use avicoin.Node.Handshake.{Handshake, HandshakeEvent, advance}
use avicoin.Node.Peers.{
  PeerId, Origin, PeerHandle, PeerTable, Linked, get, register, remove, advance_handshake, advanced,
  send_to, broadcast, empty_table,
}
use avicoin.Node.Peers.Invariant.{
  Inv, empty_table-Inv, register-Inv, remove-Inv, advance_handshake-Inv, send_to-Inv, broadcast-Inv,
}

-- A call of the table, or what a writer thread does to its channel.
pub data Call : Type 0 where
  registers : SocketAddr → Origin → Sender → Call
  removes : PeerId → Call
  advances : PeerId → HandshakeEvent → Call
  sends : PeerId → Bytes → Call
  broadcasts : Bytes → Call
  channel_becomes : Sender → Channel → Call

unfoldable pub step : Linked → Call → Linked
step (t, cs) (registers address origin outbound) = ((register address origin outbound t).1, cs)
step (t, cs) (removes id) = ((remove id t).1, cs)
step (t, cs) (advances id event) = ((advance_handshake id event t).1, cs)
step l (sends id message) = (send_to id message l).1
step l (broadcasts message) = (broadcast message l).1
step (t, cs) (channel_becomes s c) = (t, set_channel s c cs)

pub run : Linked → List Call → Linked
run l [] = l
run l (c ∷ calls) = run (step l c) calls

step-Inv : (l : Linked) (c : Call) → l.0.next_id + 1 < 2 ^ 64 → Inv l.0 → Inv (step l c).0
unfolding step
step-Inv (t, cs) (registers address origin outbound) h v =
    register-Inv address origin outbound t h v
step-Inv (t, cs) (removes id) h v = remove-Inv id t v
step-Inv (t, cs) (advances id event) h v = advance_handshake-Inv id event t v
step-Inv l (sends id message) h v = send_to-Inv id message l v
step-Inv l (broadcasts message) h v = broadcast-Inv message l v
step-Inv (t, cs) (channel_becomes s c) h v = v

advanced-next_id :
    (id : PeerId) (p : PeerHandle) (t : PeerTable) (r : Result Handshake)
    → (advanced id p t r).1.next_id ≡ t.next_id
advanced-next_id id p t (ok h) = refl
advanced-next_id id p t (err x) = refl
advanced-next_id id p t panic = refl

step-next_id : (l : Linked) (c : Call) → (step l c).0.next_id ≤ l.0.next_id + 1
unfolding step register remove advance_handshake send_to broadcast
step-next_id (t, cs) (registers address origin outbound) = ground arith
step-next_id (t, cs) (removes id) = omega arith
step-next_id (t, cs) (advances id event) = elim (Option-cases (get id t.peers)) [
  | inl e ↦ rw (e, advance_handshake) (omega arith)
  | inr (p, e) ↦
      rw (e, advance_handshake) (omega (arith, advanced-next_id id p t (advance p.handshake event)))
]
step-next_id (t, cs) (sends id message) = ground arith
step-next_id (t, cs) (broadcasts message) = omega arith
step-next_id (t, cs) (channel_becomes s c) = omega arith

run-Inv-from :
    (calls : List Call) (l : Linked)
    → l.0.next_id + length calls < 2 ^ 64
    → Inv l.0
    → Inv (run l calls).0
unfolding run
run-Inv-from [] l h v = v
run-Inv-from (c ∷ calls) l h v =
    run-Inv-from calls (step l c) (omega (arith, step-next_id l c)) (step-Inv l c (omega arith) v)

-- After any calls, fewer than 2^64 of them, a table that began empty has at most 32 peers, no two
-- under one id, and no two that were dialled at one address.
pub run-Inv :
    (calls : List Call) (cs : Channels)
    → length calls < 2 ^ 64
    → Inv (run (empty_table, cs) calls).0
unfolding empty_table
run-Inv calls cs h = run-Inv-from calls (empty_table, cs) (omega arith) empty_table-Inv
