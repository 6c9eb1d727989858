-- ===== src/Node/Peers/Order.antt =====
-- `broadcast` walks a `HashMap`, whose order is not specified.
use avicoin.Prelude.{
  ◌+◌, ◌≡◌, ◌≢◌, refl, sym, ap, ◌∙◌, subst, Bool, true, false, List, [], ◌∷◌, arith, ◌==◌,
  if◌then◌else◌, inl, inr, Bool-cases,
}
use mathlib.Core.Path.{fun_ext, ap₂}
use native.Mathlib.Decide.{ℕ_discrete}
use mathlib.Core.List.{Permᴰ}
use mathlib.Core.List.Permᴰ
use avicoin.Words.{Bytes}
use avicoin.Net.{Sender, Channels, try_send, accepts, enqueue, set_channel}
use avicoin.Node.Peers.{
  PeerId, PeerHandle, Peers, PeerTable, Linked, Round, erase, count_sent, broadcast_loop, erase_all,
  broadcast,
}
use avicoin.Node.Peers.Broadcast.{has_sender, OwnChannels}

-- The same count and the same channels, and the same ids that failed, in some order.
abbrev AgreesWith : Round → Round → Type 0
AgreesWith q r = (q.0 ≡ r.0) × Permᴰ q.1 r.1 × (q.2 ≡ r.2)

count_sent-AgreesWith :
    (id : PeerId) (taken : Bool) (q r : Round)
    → AgreesWith q r
    → AgreesWith (count_sent id taken q) (count_sent id taken r)
count_sent-AgreesWith id true q r (n, f, c) = (ap (λ k. k + 1) n, f, c)
count_sent-AgreesWith id false q r (n, f, c) = (n, Permᴰ.cons refl f, c)

count_sent-swap :
    (i j : PeerId) (a b : Bool) (r : Round)
    → AgreesWith (count_sent i a (count_sent j b r)) (count_sent j b (count_sent i a r))
count_sent-swap i j true true r = (refl, Permᴰ.refl r.1, refl)
count_sent-swap i j true false r = (refl, Permᴰ.refl (j ∷ r.1), refl)
count_sent-swap i j false true r = (refl, Permᴰ.refl (i ∷ r.1), refl)
count_sent-swap i j false false r = (refl, Permᴰ.swap refl refl, refl)

-- What `try_send` makes of the channels.
unfoldable pub put : Sender → Bytes → Channels → Channels
put s message cs = if accepts (cs s) then set_channel s (enqueue message (cs s)) cs else cs

try_send-put :
    (s : Sender) (message : Bytes) (cs : Channels)
    → try_send s message cs ≡ (accepts (cs s), put s message cs)
unfolding try_send put
try_send-put s message cs = elim (Bool-cases (accepts (cs s))) [
  | inl room ↦ rw (room) refl
  | inr full ↦ rw (full) refl
]

pub put-ne : (s t : Sender) (message : Bytes) (cs : Channels) → t ≢ s → put s message cs t ≡ cs t
unfolding put
put-ne s t message cs ne = ground arith

pub put_self :
    (s t : Sender) (message : Bytes) (cs : Channels)
    → t ≡ s
    → put s message cs t ≡ (if accepts (cs t) then enqueue message (cs t) else cs t)
unfolding put
put_self s t message cs same = rw (sym same) (ground arith)

put_comm :
    (s t : Sender) (message : Bytes) (cs : Channels)
    → s ≢ t
    → put s message (put t message cs) ≡ put t message (put s message cs)
put_comm s t message cs ne = fun_ext λ u. elim (ℕ_discrete u s) [
  | yes at_s ↦
      let other : u ≢ t = λ e. ne (sym at_s ∙ e) in
      put_self s u message (put t message cs) at_s
      ∙ ap (λ c. if accepts c then enqueue message c else c) (put-ne t u message cs other)
      ∙ sym (put_self s u message cs at_s)
      ∙ sym (put-ne t u message (put s message cs) other)
  | no not_s ↦ put-ne s u message (put t message cs) not_s ∙ elim (ℕ_discrete u t) [
    | yes at_t ↦
        put_self t u message cs at_t
        ∙ ap (λ c. if accepts c then enqueue message c else c) (sym (put-ne s u message cs not_s))
        ∙ sym (put_self t u message (put s message cs) at_t)
    | no not_t ↦
        put-ne t u message cs not_t
        ∙ sym (put-ne s u message cs not_s)
        ∙ sym (put-ne t u message (put s message cs) not_t)
  ]
]

pub loop-cons :
    (message : Bytes) (i : PeerId) (p : PeerHandle) (peers : Peers) (cs : Channels)
    → broadcast_loop message ((i, p) ∷ peers) cs
      ≡ count_sent i
          (accepts (cs p.outbound))
          (broadcast_loop message peers (put p.outbound message cs))
unfolding broadcast_loop
loop-cons message i p peers cs =
    ap (λ (sent : Bool × Channels). count_sent i sent.0 (broadcast_loop message peers sent.1))
      (try_send-put p.outbound message cs)

AgreesWith-refl : (r : Round) → AgreesWith r r
AgreesWith-refl r = (refl, Permᴰ.refl r.1, refl)

along : {q q' r r' : Round} → q ≡ q' → r ≡ r' → AgreesWith q' r' → AgreesWith q r
along {q} {q'} {r} {r'} e e' h =
    subst (λ x. AgreesWith x r) (sym e) (subst (AgreesWith q') (sym e') h)

-- Two neighbours with channels of their own.
loop-swap :
    (message : Bytes) (i j : PeerId) (p q : PeerHandle) (peers : Peers) (cs : Channels)
    → p.outbound ≢ q.outbound
    → AgreesWith
        (broadcast_loop message ((i, p) ∷ (j, q) ∷ peers) cs)
        (broadcast_loop message ((j, q) ∷ (i, p) ∷ peers) cs)
loop-swap message i j p q peers cs ne =
    along
      (loop-cons message i p ((j, q) ∷ peers) cs
        ∙ ap (count_sent i (accepts (cs p.outbound))) (
            loop-cons message j q peers (put p.outbound message cs)
            ∙ ap₂ (λ c r. count_sent j (accepts c) r)
                (put-ne p.outbound q.outbound message cs λ e. ne (sym e)) refl))
      (loop-cons message j q ((i, p) ∷ peers) cs
        ∙ ap (count_sent j (accepts (cs q.outbound))) (
            loop-cons message i p peers (put q.outbound message cs)
            ∙ ap₂ (λ c r. count_sent i (accepts c) r) (put-ne q.outbound p.outbound message cs ne)
                (ap (broadcast_loop message peers) (put_comm p.outbound q.outbound message cs ne))))
      (count_sent-swap i j (accepts (cs p.outbound)) (accepts (cs q.outbound)) _)

has_sender-swap :
    (s : Sender) (x y : PeerId × PeerHandle) (peers : Peers)
    → has_sender s (x ∷ y ∷ peers) ≡ has_sender s (y ∷ x ∷ peers)
unfolding has_sender
has_sender-swap s (i, p) (j, q) peers = ground arith

has_sender-cons :
    (s : Sender) (x : PeerId × PeerHandle) (xs ys : Peers)
    → has_sender s xs ≡ has_sender s ys
    → has_sender s (x ∷ xs) ≡ has_sender s (x ∷ ys)
unfolding has_sender
has_sender-cons s (i, p) xs ys e = ap (λ h. if p.outbound == s then true else h) e

has_sender-Perm : {xs ys : Peers} (s : Sender) → Permᴰ xs ys → has_sender s xs ≡ has_sender s ys
has_sender-Perm s Permᴰ.nil = refl
has_sender-Perm s (Permᴰ.cons {a} {b} {l₁} {l₂} e d) =
    has_sender-cons s a l₁ l₂ (has_sender-Perm s d) ∙ ap (λ x. has_sender s (x ∷ l₂)) e
has_sender-Perm s (Permᴰ.swap {a} {b} {l = l} e e') =
    has_sender-swap s a b l ∙ ap (has_sender s) (ap₂ (λ x y. x ∷ y ∷ l) e' e)
has_sender-Perm s (Permᴰ.trans d d') = has_sender-Perm s d ∙ has_sender-Perm s d'

OwnChannels-swap :
    (x y : PeerId × PeerHandle) (peers : Peers)
    → OwnChannels (x ∷ y ∷ peers)
    → OwnChannels (y ∷ x ∷ peers)
unfolding has_sender
OwnChannels-swap (i, p) (j, q) peers (h, (h', own)) = ground arith

OwnChannels-Perm : {xs ys : Peers} → Permᴰ xs ys → OwnChannels xs → OwnChannels ys
OwnChannels-Perm Permᴰ.nil own = own
OwnChannels-Perm (Permᴰ.cons {a} {b} {l₁} {l₂} e d) (h, own) =
    subst (λ x. OwnChannels (x ∷ l₂)) e
      (sym (has_sender-Perm a.1.outbound d) ∙ h, OwnChannels-Perm d own)
OwnChannels-Perm (Permᴰ.swap {a} {b} {l = l} e e') own =
    subst OwnChannels (ap₂ (λ x y. x ∷ y ∷ l) e' e) (OwnChannels-swap a b l own)
OwnChannels-Perm (Permᴰ.trans d d') own = OwnChannels-Perm d' (OwnChannels-Perm d own)

AgreesWith-trans : {q r s : Round} → AgreesWith q r → AgreesWith r s → AgreesWith q s
AgreesWith-trans (n, f, c) (n', f', c') = (n ∙ n', Permᴰ.trans f f', c ∙ c')

apart :
    (x y : PeerId × PeerHandle) (peers : Peers)
    → OwnChannels (x ∷ y ∷ peers)
    → x.1.outbound ≢ y.1.outbound
unfolding has_sender
apart (i, p) (j, q) peers (h, own) e = ground arith

loop-Perm :
    (message : Bytes) (cs : Channels) {xs ys : Peers}
    → Permᴰ xs ys
    → OwnChannels xs
    → AgreesWith (broadcast_loop message xs cs) (broadcast_loop message ys cs)
loop-Perm message cs Permᴰ.nil own = AgreesWith-refl (broadcast_loop message [] cs)
loop-Perm message cs (Permᴰ.cons {a} {b} {l₁} {l₂} e d) (h, own) =
    subst
      (λ x. AgreesWith (broadcast_loop message (a ∷ l₁) cs) (broadcast_loop message (x ∷ l₂) cs)) e
      (along (loop-cons message a.0 a.1 l₁ cs) (loop-cons message a.0 a.1 l₂ cs)
        (count_sent-AgreesWith a.0 _ _ _ (loop-Perm message (put a.1.outbound message cs) d own)))
loop-Perm message cs (Permᴰ.swap {a} {b} {l = l} e e') own =
    subst (λ ys. AgreesWith (broadcast_loop message (a ∷ b ∷ l) cs) (broadcast_loop message ys cs))
      (ap₂ (λ x y. x ∷ y ∷ l) e' e) (loop-swap message a.0 b.0 a.1 b.1 l cs (apart a b l own))
loop-Perm message cs (Permᴰ.trans d d') own =
    AgreesWith-trans (loop-Perm message cs d own) (loop-Perm message cs d' (OwnChannels-Perm d own))

erase_comm : (a b : PeerId) (peers : Peers) → erase a (erase b peers) ≡ erase b (erase a peers)
unfolding erase
erase_comm a b [] = refl
erase_comm a b ((i, p) ∷ peers) = ground (arith, erase_comm a b peers)

erase_all-Perm :
    (peers : Peers) {xs ys : List PeerId} → Permᴰ xs ys → erase_all xs peers ≡ erase_all ys peers
unfolding erase_all
erase_all-Perm peers Permᴰ.nil = refl
erase_all-Perm peers (Permᴰ.cons {a} {b} {l₁} {l₂} e d) =
    erase_all-Perm (erase a peers) d ∙ ap (λ x. erase_all l₂ (erase x peers)) e
erase_all-Perm peers (Permᴰ.swap {a} {b} {l = l} e e') =
    ap (erase_all l) (erase_comm b a peers)
    ∙ ap₂ (λ x y. erase_all l (erase y (erase x peers))) e' e
erase_all-Perm peers (Permᴰ.trans d d') = erase_all-Perm peers d ∙ erase_all-Perm peers d'

-- Where every peer has a channel of its own, the order in which a broadcast walks the peers, which
-- the hash map leaves open, does not matter: in whatever order, it counts the same peers, leaves the
-- same table, and the same messages in the same queues.
pub broadcast-order :
    (message : Bytes) (t : PeerTable) (cs : Channels) (order : Peers)
    → OwnChannels t.peers
    → Permᴰ t.peers order
    → broadcast message (t, cs) ≡ (
      (broadcast_loop message order cs).0,
      (
        record t { peers = erase_all (broadcast_loop message order cs).1 t.peers },
        (broadcast_loop message order cs).2,
      ),
    )
unfolding broadcast
broadcast-order message t cs order own d =
    let (n, f, c) = loop-Perm message cs d own in
    ap₂ (λ k (l : Linked). (k, l)) n
      (ap₂ (λ ps (ds : Channels). (record t { peers = ps }, ds)) (erase_all-Perm t.peers f) c)
