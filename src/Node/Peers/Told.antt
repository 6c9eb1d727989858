-- ===== src/Node/Peers/Told.antt =====
-- `broadcast`, peer by peer and channel by channel.
use avicoin.Prelude.{◌≡◌, ◌≢◌, refl, sym, ap, ◌∙◌, Bool, true, false, none, some, [], ◌∷◌, arith}
use native.Mathlib.Decide.{ℕ_discrete}
use avicoin.Words.{Bytes}
use avicoin.Net.{Sender, Channels, accepts}
use avicoin.Node.Peers.{PeerId, PeerHandle, Peers, Round, get, count_sent, broadcast_loop}
use avicoin.Node.Peers.Invariant.{Below}
use avicoin.Node.Peers.Delivery.{get_above}
use avicoin.Node.Peers.Broadcast.{has_sender, OwnChannels, reachable}
use avicoin.Node.Peers.Order.{put, put-ne, put_self, loop-cons}
use avicoin.Node.Peers.Map.{kept, grown}
use avicoin.Node.Peers.Found.{get_head, get-has_sender}

-- Who is left after a broadcast.
pub get-reachable :
    (cs : Channels) (n : PeerId) (peers : Peers) (i : PeerId)
    → Below n peers
    → get i (reachable cs peers) ≡ kept cs (get i peers)
unfolding get reachable
get-reachable cs n [] i b = refl
get-reachable cs n ((j, p) ∷ peers) i b = elim (ℕ_discrete j i) [
  | yes here ↦
      let gone : get j peers ≡ none = get_above j j peers b.1 (omega arith) in
      let gone' : get j (reachable cs peers) ≡ none =
        get-reachable cs j peers j b.1 ∙ ap (kept cs) gone in
      ground arith
  | no behind ↦ ground (arith, get-reachable cs j peers i b.1)
]

-- What the loop does to each channel.
count_sent-channels : (id : PeerId) (taken : Bool) (r : Round) → (count_sent id taken r).2 ≡ r.2
count_sent-channels id true r = refl
count_sent-channels id false r = refl

module _ (message : Bytes) where
  unfoldable pub told : Peers → Channels → Channels
  told peers cs = (broadcast_loop message peers cs).2

  told-cons :
      (i : PeerId) (p : PeerHandle) (peers : Peers) (cs : Channels) (c : Sender)
      → told ((i, p) ∷ peers) cs c ≡ told peers (put p.outbound message cs) c
  unfolding told
  told-cons i p peers cs c =
      ap (λ (r : Round). r.2 c) (loop-cons message i p peers cs)
      ∙ ap (λ (ds : Channels). ds c) (count_sent-channels i (accepts (cs p.outbound)) _)

  pub told-nobody :
      (peers : Peers) (cs : Channels) (c : Sender)
      → has_sender c peers ≡ false
      → told peers cs c ≡ cs c
  unfolding has_sender told broadcast_loop
  told-nobody [] cs c h = refl
  told-nobody ((i, p) ∷ peers) cs c h = elim (ℕ_discrete p.outbound c) [
    | yes here ↦ ground arith
    | no other ↦
        told-cons i p peers cs c
        ∙ told-nobody peers (put p.outbound message cs) c (ground arith)
        ∙ put-ne p.outbound c message cs (λ e. other (sym e))
  ]

  pub told-listed :
      (n : PeerId) (peers : Peers) (cs : Channels) (i : PeerId) (p : PeerHandle)
      → Below n peers
      → OwnChannels peers
      → get i peers ≡ some p
      → told peers cs p.outbound ≡ grown message (cs p.outbound)
  unfolding get
  told-listed n [] cs i p b own e = cc
  told-listed n ((j, q) ∷ peers) cs i p b own e = elim (ℕ_discrete j i) [
    | yes here ↦
        let same : q ≡ p =
          cc (sym (get_head j q peers), ap (λ k. get k ((j, q) ∷ peers)) here, e) in
        told-cons j q peers cs p.outbound
        ∙ told-nobody peers (put q.outbound message cs) p.outbound
            (ap (λ (r : PeerHandle). has_sender r.outbound peers) (sym same) ∙ own.0)
        ∙ put_self q.outbound p.outbound message cs (ap (λ (r : PeerHandle). r.outbound) (sym same))
    | no behind ↦
        let e' : get i peers ≡ some p = ground arith in
        let apart : p.outbound ≢ q.outbound =
          λ leads. cc (get-has_sender i p peers e', ap (λ s. has_sender s peers) leads, own.0) in
        told-cons j q peers cs p.outbound
        ∙ told-listed j peers (put q.outbound message cs) i p b.1 own.1 e'
        ∙ ap (grown message) (put-ne q.outbound p.outbound message cs apart)
  ]
