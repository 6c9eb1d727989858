-- ===== src/Node/Peers/Calls.antt =====
-- Calls of the peer table one after another, and what they mean together.
use avicoin.Prelude.{◌≡◌, ◌∙◌, sym, ap, Option, none, some}
use avicoin.Net.{Sender}
use avicoin.Node.Peers.{PeerId, Linked}
use avicoin.Node.Peers.Invariant.{Inv, remove-Inv, advance_handshake-Inv, send_to-Inv}
use avicoin.Node.Peers.Shrinks.{Shrinks, remove-Shrinks, advance_handshake-Shrinks, send_to-Shrinks}
use avicoin.Node.Peers.Runs.{
  Call, registers, removes, advances, sends, broadcasts, channel_becomes, step,
}
use avicoin.Node.Peers.Map.{MapState, Meaning, IsExclusive, map_of}
use avicoin.Node.Peers.Refines.{step-Meaning}

-- Calls that a connection makes for its peer, once that has an id.
abbrev pub Concerns : PeerId → Call → Type 0
Concerns id (registers address origin outbound) = ⊥
Concerns id (removes i) = id ≡ i
Concerns id (advances i event) = id ≡ i
Concerns id (sends i message) = id ≡ i
Concerns id (broadcasts message) = ⊥
Concerns id (channel_becomes c channel) = ⊥

-- Calls for one's own peer and one's own channel, and the registration of who has no peer yet.
abbrev pub IsOwn : Sender → Option PeerId → Call → Type 0
IsOwn c held (registers address origin outbound) = (outbound ≡ c) × (held ≡ none)
IsOwn c held (removes i) = held ≡ some i
IsOwn c held (advances i event) = held ≡ some i
IsOwn c held (sends i message) = held ≡ some i
IsOwn c held (broadcasts message) = ⊥
IsOwn c held (channel_becomes s channel) = s ≡ c

-- Calls on the table, and what calls mean on the map, each from where the last left off.
pub data Does (P : Call → Type 0) (l : Linked) : Linked → Type 0 where
  does_nothing : Does P l l
  does : {l' : Linked} (c : Call) → P c → Does P l l' → Does P l (step l' c)

pub data Means (P : Call → Type 0) (s : MapState) : MapState → Type 0 where
  means_nothing : Means P s s
  means : {t u : MapState} (c : Call) → P c → Means P s t → Meaning t c u → Means P s u

pub Does-trans : {P : Call → Type 0} {k l m : Linked} → Does P k l → Does P l m → Does P k m
Does-trans a does_nothing = a
Does-trans a (does c p b) = does c p (Does-trans a b)

Concerns-IsOwn :
    (c : Sender) (id : PeerId) (call : Call) → Concerns id call → IsOwn c (some id) call
Concerns-IsOwn c id (registers address origin outbound) h = absurd h
Concerns-IsOwn c id (removes i) h = ap some h
Concerns-IsOwn c id (advances i event) h = ap some h
Concerns-IsOwn c id (sends i message) h = ap some h
Concerns-IsOwn c id (broadcasts message) h = absurd h
Concerns-IsOwn c id (channel_becomes s channel) h = absurd h

-- They keep the table well formed and bring nobody into it.
Concerns-Shrinks :
    (id : PeerId) (l : Linked) (call : Call)
    → Concerns id call
    → Inv l.0
    → Inv (step l call).0 × Shrinks l.0 (step l call).0
unfolding step
Concerns-Shrinks id l (registers address origin outbound) h v = absurd h
Concerns-Shrinks id (t, cs) (removes i) h v = (remove-Inv i t v, remove-Shrinks i t v)
Concerns-Shrinks id (t, cs) (advances i event) h v =
    (advance_handshake-Inv i event t v, advance_handshake-Shrinks i event t)
Concerns-Shrinks id l (sends i message) h v =
    (send_to-Inv i message l v, send_to-Shrinks i message l v)
Concerns-Shrinks id l (broadcasts message) h v = absurd h
Concerns-Shrinks id l (channel_becomes s channel) h v = absurd h

Shrinks-IsExclusive :
    (l m : Linked) → Shrinks l.0 m.0 → IsExclusive (map_of l) → IsExclusive (map_of m)
Shrinks-IsExclusive l m h x i j p q e e' same =
    let (p', f, s, d) = h.entries i p e in
    let (q', f', s', d') = h.entries j q e' in x i j p' q' f f' (sym s ∙ same ∙ s')

-- A state of the map in which calls have left it, with the table well formed and its channels apart.
record Left (c : Sender) (id : PeerId) (k l : Linked) : Type 0 where
  so_far : Means (IsOwn c (some id)) (map_of k) (map_of l)
  inv : Inv l.0
  apart : IsExclusive (map_of l)

Does-Left :
    (c : Sender) (id : PeerId) {k l : Linked}
    → Inv k.0
    → IsExclusive (map_of k)
    → Does (Concerns id) k l
    → Left c id k l
Does-Left c id v x does_nothing = record { so_far = means_nothing; inv = v; apart = x }
Does-Left c id v x (does {l'} call p d) =
    let h = Does-Left c id v x d in
    let (inv', fewer) = Concerns-Shrinks id l' call p h.inv in
    record {
      so_far =
          means call (Concerns-IsOwn c id call p) h.so_far (step-Meaning l' call h.inv h.apart);
      inv = inv';
      apart = Shrinks-IsExclusive l' (step l' call) fewer h.apart;
    }

-- What a connection does for its peer it does to the map.
pub Does-Means :
    (c : Sender) (id : PeerId) {k l : Linked}
    → Inv k.0
    → IsExclusive (map_of k)
    → Does (Concerns id) k l
    → Means (IsOwn c (some id)) (map_of k) (map_of l)
Does-Means c id v x d = (Does-Left c id v x d).so_far
