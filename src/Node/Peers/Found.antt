-- ===== src/Node/Peers/Found.antt =====
-- The entries of a table with falling ids, and what has been found among them.
use avicoin.Prelude.{
  ℕ, ◌<◌, ◌≡◌, ◌≢◌, inl, inr, sym, ap, ◌∙◌, true, none, some, List, [], ◌∷◌, arith, map, Bool-cases,
  length, refl, ◌+◌, ◌≤◌, ◌⊎◌, ◌&&◌,
}
use native.Mathlib.Decide.{ℕ_discrete}
use avicoin.Net.{SocketAddr, address_eq, Sender, Channels}
use avicoin.Node.Peers.{PeerId, PeerHandle, Peers, is_dialled, has_dialled, get}
use avicoin.Node.Peers.Invariant.{Below}
use avicoin.Node.Peers.Delivery.{get_above}
use avicoin.Node.Peers.Broadcast.{has_sender, OwnChannels}
use avicoin.Node.Peers.Map.{MapState, Listed}

-- The head of a table with falling ids, and an entry behind it.
pub get_head : (i : PeerId) (p : PeerHandle) (peers : Peers) → get i ((i, p) ∷ peers) ≡ some p
unfolding get
get_head i p peers = ground arith

pub get_behind :
    (i j : PeerId) (p : PeerHandle) (peers : Peers) → j < i → get j ((i, p) ∷ peers) ≡ get j peers
unfolding get
get_behind i j p peers lt = ground arith

unfoldable pub ids_of : Peers → List PeerId
ids_of = map (λ (entry : PeerId × PeerHandle). entry.0)

-- The ids of a table are listed in every state that finds its entries.
pub peers-Listed :
    (s : MapState) (n : PeerId) (peers : Peers)
    → Below n peers
    → ((j : PeerId) → j < n → get j peers ≢ none → s.lookup j ≢ none)
    → Listed s n (ids_of peers)
unfolding ids_of
peers-Listed s n [] b finds = tt
peers-Listed s n ((i, p) ∷ peers) b finds = (
  b.0,
  finds i b.0 (λ e. cc (e, get_head i p peers)),
  peers-Listed s i peers b.1
      (λ j lt found. finds j (omega (arith, b.0)) λ e. found (sym (get_behind i j p peers lt) ∙ e)),
)

lt_cases : (j i : ℕ) → (j < i) ⊎ ((j ≡ i) ⊎ (i < j))
lt_cases j i = omega arith

-- What is listed below an id is in the table, so it is not longer than the table.
pub Listed-length :
    (s : MapState) (n m : PeerId) (ids : List PeerId) (peers : Peers)
    → Below m peers
    → ((j : PeerId) → j < n → get j peers ≡ none → s.lookup j ≡ none)
    → Listed s n ids
    → length ids ≤ length peers
unfolding get
Listed-length s n m [] peers b finds h = omega arith
Listed-length s n m (j ∷ ids) [] b finds (lt, found, h) = absurd (found (finds j lt refl))
Listed-length s n m (j ∷ ids) ((i, p) ∷ peers) b finds (lt, found, h) = elim (lt_cases j i) [
  | inl before ↦ omega (
    arith,
    Listed-length s (j + 1) i (j ∷ ids) peers b.1
        (λ k lt' gone. finds k (omega arith) (get_behind i k p peers (omega arith) ∙ gone))
        (omega arith, found, h),
  )
  | inr (inl here) ↦ omega (
    arith,
    Listed-length s j i ids peers b.1
        (λ k lt' gone. finds k (omega arith) (get_behind i k p peers (omega (arith, here)) ∙ gone))
        h,
  )
  | inr (inr behind) ↦
      absurd
        (found (finds j lt (get_above j (i + 1) ((i, p) ∷ peers) (omega arith, b.1) (omega arith))))
]

-- An entry with a property, and its id.
abbrev pub Found {ℓ} : (PeerHandle → Type ℓ) → ℕ → Peers → Type ℓ
Found P n peers = (i : PeerId) × (p : PeerHandle) × (i < n) × (get i peers ≡ some p) × P p

Found-cons {ℓ} :
    (P : PeerHandle → Type ℓ) (n i : PeerId) (q : PeerHandle) (peers : Peers)
    → i < n
    → Found P i peers
    → Found P n ((i, q) ∷ peers)
Found-cons P n i q peers lt (j, p, lt', e, h) =
    (j, p, omega arith, get_behind i j q peers lt' ∙ e, h)

pub has_dialled-Found :
    (address : SocketAddr) (n : PeerId) (peers : Peers)
    → Below n peers
    → has_dialled address peers ≡ true
    → Found (λ p. (is_dialled p.origin ≡ true) × (address_eq p.address address ≡ true)) n peers
unfolding has_dialled
has_dialled-Found address n [] b e = cc
has_dialled-Found address n ((i, p) ∷ peers) b e =
    elim (Bool-cases (is_dialled p.origin && address_eq p.address address)) [
      | inl here ↦ (i, p, b.0, get_head i p peers, (ground arith, ground arith))
      | inr behind ↦
          Found-cons _ n i p peers b.0 (has_dialled-Found address i peers b.1 (rw (behind) at e))
    ]

-- An entry that was dialled at the address is found.
pub get-has_dialled :
    (address : SocketAddr) (i : PeerId) (p : PeerHandle) (peers : Peers)
    → get i peers ≡ some p
    → is_dialled p.origin ≡ true
    → address_eq p.address address ≡ true
    → has_dialled address peers ≡ true
unfolding get has_dialled
get-has_dialled address i p [] e d a = cc
get-has_dialled address i p ((j, q) ∷ peers) e d a = elim (ℕ_discrete j i) [
  | yes here ↦
      let same : q ≡ p = cc (sym (get_head j q peers), ap (λ k. get k ((j, q) ∷ peers)) here, e) in
      ground (
        arith,
        d,
        a,
        ap (λ (r : PeerHandle). is_dialled r.origin) same,
        ap (λ (r : PeerHandle). address_eq r.address address) same,
      )
  | no behind ↦ ground (arith, get-has_dialled address i p peers)
]

pub has_sender-Found :
    (s : Sender) (n : PeerId) (peers : Peers)
    → Below n peers
    → has_sender s peers ≡ true
    → Found (λ p. p.outbound ≡ s) n peers
unfolding has_sender
has_sender-Found s n [] b e = cc
has_sender-Found s n ((i, p) ∷ peers) b e = elim (ℕ_discrete p.outbound s) [
  | yes here ↦ (i, p, b.0, get_head i p peers, here)
  | no other ↦ Found-cons _ n i p peers b.0 (has_sender-Found s i peers b.1 (ground arith))
]

-- Where no two peers have one channel, each has its own.
pub exclusive-OwnChannels :
    (n : PeerId) (peers : Peers) (cs : Channels)
    → Below n peers
    → ((i j : PeerId) (p q : PeerHandle)
        → i < n
        → j < n
        → get i peers ≡ some p
        → get j peers ≡ some q
        → p.outbound ≡ q.outbound
        → i ≡ j)
    → OwnChannels peers
exclusive-OwnChannels n [] cs b x = tt
exclusive-OwnChannels n ((i, p) ∷ peers) cs b x = (
  elim (Bool-cases (has_sender p.outbound peers)) [
    | inl again ↦
        let (j, q, lt, e, same) = has_sender-Found p.outbound i peers b.1 again in
        let one : i ≡ j =
          x i j p q b.0 (omega (arith, b.0)) (get_head i p peers) (get_behind i j p peers lt ∙ e)
            (sym same) in
        absurd (omega (arith, one))
    | inr once ↦ once
  ],
  exclusive-OwnChannels i peers cs b.1 λ j k q r lt lt' e e'.
      x j k q r (omega (arith, b.0)) (omega (arith, b.0)) (get_behind i j p peers lt ∙ e)
        (get_behind i k p peers lt' ∙ e'),
)

pub get-has_sender :
    (i : PeerId) (p : PeerHandle) (peers : Peers)
    → get i peers ≡ some p
    → has_sender p.outbound peers ≡ true
unfolding get has_sender
get-has_sender i p [] e = cc
get-has_sender i p ((j, q) ∷ peers) e = elim (ℕ_discrete j i) [
  | yes here ↦
      let same : q ≡ p = cc (sym (get_head j q peers), ap (λ k. get k ((j, q) ∷ peers)) here, e) in
      ground (arith, ap (λ (r : PeerHandle). r.outbound) same)
  | no behind ↦ ground (arith, get-has_sender i p peers)
]
