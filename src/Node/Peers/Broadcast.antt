-- ===== src/Node/Peers/Broadcast.antt =====
-- `broadcast`: who gets the message, and who leaves the table.
use avicoin.Prelude.{
  ℕ, ◌≤◌, ◌<◌, ◌≡◌, inl, inr, refl, sym, ap, ◌∙◌, subst, Bool, true, false, List, [], ◌∷◌, arith,
  ◌==◌, if◌then◌else◌, length, Bool-cases,
}
use avicoin.Words.{Bytes}
use avicoin.Net.{Sender, Channel, Channels, try_send, accepts, enqueue, set_channel}
use avicoin.Node.Peers.{
  PeerId, PeerHandle, Peers, PeerTable, Round, erase, count_sent, broadcast_loop, erase_all,
  broadcast,
}
use avicoin.Node.Peers.Invariant.{Below, Inv}

-- The peers whose channels take one more message, and what their channels become.
unfoldable pub reachable : Channels → Peers → Peers
reachable cs [] = []
reachable cs ((i, p) ∷ peers) =
    if accepts (cs p.outbound) then (i, p) ∷ reachable cs peers else reachable cs peers

unfoldable pub has_sender : Sender → Peers → Bool
has_sender s [] = false
has_sender s ((i, p) ∷ peers) = if p.outbound == s then true else has_sender s peers

-- Each peer has a channel of its own, as `spawn_connection` makes one for each.
abbrev pub OwnChannels : Peers → Type 0
OwnChannels [] = Unit {0}
OwnChannels ((i, p) ∷ peers) = (has_sender p.outbound peers ≡ false) × OwnChannels peers

-- What the channels become when `message` goes to the senders of `peers`.
pub delivered_to : Bytes → Peers → Channels → Channels
delivered_to message [] cs = cs
delivered_to message ((i, p) ∷ peers) cs =
    delivered_to message peers (set_channel p.outbound (enqueue message (cs p.outbound)) cs)

-- A change to a channel that no peer of the rest has does not change who is reachable there.
reachable-set_channel :
    (s : Sender) (c : Channel) (cs : Channels) (peers : Peers)
    → has_sender s peers ≡ false
    → reachable (set_channel s c cs) peers ≡ reachable cs peers
unfolding reachable has_sender
reachable-set_channel s c cs [] h = refl
reachable-set_channel s c cs ((i, p) ∷ peers) h = ground (arith, reachable-set_channel s c cs peers)

record LoopOutcome (message : Bytes) (peers : Peers) (cs : Channels) (r : Round) : Type 0 where
  count : r.0 ≡ length (reachable cs peers)
  kept : erase_all r.1 peers ≡ reachable cs peers
  channels : r.2 ≡ delivered_to message (reachable cs peers) cs

abbrev AllBelow : ℕ → List PeerId → Type 0
AllBelow n [] = Unit {0}
AllBelow n (id ∷ failed) = (id < n) × AllBelow n failed

AllBelow-mono : (m n : ℕ) (failed : List PeerId) → m ≤ n → AllBelow m failed → AllBelow n failed
AllBelow-mono m n [] h b = tt
AllBelow-mono m n (id ∷ failed) h b = (omega arith, AllBelow-mono m n failed h b.1)

-- Ids under `i` do not take the entry of `i` away.
erase_all-cons :
    (failed : List PeerId) (i : PeerId) (p : PeerHandle) (peers : Peers)
    → AllBelow i failed
    → erase_all failed ((i, p) ∷ peers) ≡ (i, p) ∷ erase_all failed peers
unfolding erase_all erase
erase_all-cons [] i p peers b = refl
erase_all-cons (id ∷ failed) i p peers b =
    ground (arith, erase_all-cons failed i p (erase id peers) b.1)

failed-AllBelow :
    (message : Bytes) (n : ℕ) (peers : Peers) (cs : Channels)
    → Below n peers
    → AllBelow n (broadcast_loop message peers cs).1
unfolding broadcast_loop
failed-AllBelow message n [] cs b = tt
failed-AllBelow message n ((i, p) ∷ peers) cs b =
    counted (try_send p.outbound message cs).0
      (broadcast_loop message peers (try_send p.outbound message cs).1)
      (AllBelow-mono i n _ (omega arith)
        (failed-AllBelow message i peers (try_send p.outbound message cs).1 b.1))
  where
    counted : (taken : Bool) (r : Round) → AllBelow n r.1 → AllBelow n (count_sent i taken r).1
    counted true r h = h
    counted false r h = (omega arith, h)

loop-taken :
    (message : Bytes) (i : PeerId) (p : PeerHandle) (peers : Peers) (cs : Channels)
    → accepts (cs p.outbound) ≡ true
    → broadcast_loop message ((i, p) ∷ peers) cs
      ≡ count_sent i true (
          broadcast_loop message peers
            (set_channel p.outbound (enqueue message (cs p.outbound)) cs))
unfolding broadcast_loop try_send
loop-taken message i p peers cs room = rw (room, try_send, broadcast_loop)

loop-failed :
    (message : Bytes) (i : PeerId) (p : PeerHandle) (peers : Peers) (cs : Channels)
    → accepts (cs p.outbound) ≡ false
    → broadcast_loop message ((i, p) ∷ peers) cs
      ≡ count_sent i false (broadcast_loop message peers cs)
unfolding broadcast_loop try_send
loop-failed message i p peers cs full = rw (full, try_send, broadcast_loop)

reachable-room :
    (cs : Channels) (i : PeerId) (p : PeerHandle) (peers : Peers)
    → accepts (cs p.outbound) ≡ true
    → reachable cs ((i, p) ∷ peers) ≡ (i, p) ∷ reachable cs peers
unfolding reachable
reachable-room cs i p peers room = ground arith

reachable-full :
    (cs : Channels) (i : PeerId) (p : PeerHandle) (peers : Peers)
    → accepts (cs p.outbound) ≡ false
    → reachable cs ((i, p) ∷ peers) ≡ reachable cs peers
unfolding reachable
reachable-full cs i p peers full = ground arith

erase_all-first :
    (i : PeerId) (p : PeerHandle) (failed : List PeerId) (peers : Peers)
    → erase_all (i ∷ failed) ((i, p) ∷ peers) ≡ erase_all failed peers
unfolding erase_all erase
erase_all-first i p failed peers = ground arith

delivered_to-cons :
    (message : Bytes) (i : PeerId) (p : PeerHandle) (peers : Peers) (cs : Channels)
    → delivered_to message ((i, p) ∷ peers) cs
      ≡ delivered_to message peers (set_channel p.outbound (enqueue message (cs p.outbound)) cs)
unfolding delivered_to
delivered_to-cons message i p peers cs = refl

broadcast_loop_lem :
    (message : Bytes) (n : ℕ) (peers : Peers) (cs : Channels)
    → Below n peers
    → OwnChannels peers
    → LoopOutcome message peers cs (broadcast_loop message peers cs)
broadcast_loop_lem message n [] cs b own =
    unfold broadcast_loop erase_all reachable delivered_to in
    record { count = refl; kept = refl; channels = refl }
broadcast_loop_lem message n ((i, p) ∷ peers) cs b own =
    elim (Bool-cases (accepts (cs p.outbound))) [
      | inl room ↦ with_room (λ ds. broadcast_loop_lem message i peers ds b.1 own.1) room
      | inr full ↦ without_room (λ ds. broadcast_loop_lem message i peers ds b.1 own.1) full
    ]
  where
    cs' : Channels
    cs' = set_channel p.outbound (enqueue message (cs p.outbound)) cs

    same : reachable cs' peers ≡ reachable cs peers
    same = reachable-set_channel p.outbound (enqueue message (cs p.outbound)) cs peers own.0

    with_room :
        ((ds : Channels) → LoopOutcome message peers ds (broadcast_loop message peers ds))
        → accepts (cs p.outbound) ≡ true
        → LoopOutcome message ((i, p) ∷ peers) cs (broadcast_loop message ((i, p) ∷ peers) cs)
    with_room ih room =
        let hyp = ih cs' in
        subst (LoopOutcome message ((i, p) ∷ peers) cs) (sym (loop-taken message i p peers cs room))
          (record {
            count =
                rw (reachable-room cs i p peers room) (omega (arith, hyp.count, ap length same));
            kept =
                erase_all-cons _ i p peers (failed-AllBelow message i peers cs' b.1)
                ∙ ap (λ ps. (i, p) ∷ ps) (hyp.kept ∙ same)
                ∙ sym (reachable-room cs i p peers room);
            channels =
                hyp.channels
                ∙ ap (λ ps. delivered_to message ps cs') same
                ∙ sym (delivered_to-cons message i p (reachable cs peers) cs)
                ∙ ap (λ ps. delivered_to message ps cs) (sym (reachable-room cs i p peers room));
          })

    without_room :
        ((ds : Channels) → LoopOutcome message peers ds (broadcast_loop message peers ds))
        → accepts (cs p.outbound) ≡ false
        → LoopOutcome message ((i, p) ∷ peers) cs (broadcast_loop message ((i, p) ∷ peers) cs)
    without_room ih full =
        let hyp = ih cs in
        subst (LoopOutcome message ((i, p) ∷ peers) cs)
          (sym (loop-failed message i p peers cs full))
          (record {
            count = hyp.count ∙ ap length (sym (reachable-full cs i p peers full));
            kept = erase_all-first i p _ peers ∙ hyp.kept ∙ sym (reachable-full cs i p peers full);
            channels =
                hyp.channels
                ∙ ap (λ ps. delivered_to message ps cs) (sym (reachable-full cs i p peers full));
          })

-- Where every peer has a channel of its own, a broadcast counts exactly the peers whose channels
-- had room, gives each of those the message once, keeps exactly those in the table in their order,
-- and leaves the next id.
pub broadcast_lem :
    (message : Bytes) (t : PeerTable) (cs : Channels)
    → Inv t
    → OwnChannels t.peers
    → broadcast message (t, cs) ≡ (
      length (reachable cs t.peers),
      (record t { peers = reachable cs t.peers }, delivered_to message (reachable cs t.peers) cs),
    )
unfolding broadcast
broadcast_lem message t cs inv own =
    let hyp = broadcast_loop_lem message t.next_id t.peers cs inv.fresh own in
    rw (hyp.count, hyp.kept, hyp.channels)
