-- ===== src/UnitTests/Node.antt =====
-- The tests of src/node.rs. A table stands with the channels of its peers, which are what `try_recv`
-- would receive; a port stands for its address on this machine.
use avicoin.Prelude.{
  ℕ, zero, suc, ◌+◌, ◌≡◌, refl, Bool, true, false, ◌&&◌, Option, none, some, List, [], ◌∷◌, length,
  bytes_eq,
}
use mathlib.Core.Option
use avicoin.Outcome.{Result, ok, panic}
use avicoin.Words.{Bytes}
use avicoin.Net.{SocketAddr, address_eq, Sender, Channels, set_channel, try_send}
use avicoin.Node.{Config}
use avicoin.Node.Handshake.{
  Handshake, HandshakeEvent, awaiting_version, awaiting_verack, ready, is_ready,
}
use avicoin.Node.Handshake
use avicoin.Node.Peers.{
  PeerId, dialled, accepted, Linked, Registration, registered, refused, at_capacity,
  already_dialled, outbound_queue, max_peers, empty_table, get, erase, erase_all, insert, assign,
  has_dialled, register, remove, len, is_empty, ids, advance_handshake, handshake_of, send_to,
  broadcast, broadcast_loop,
}
use avicoin.UnitTests.{is_ok, is_err}

abbrev address : ℕ → SocketAddr
address port = SocketAddr.v4 (127 ∷ 0 ∷ 0 ∷ 1 ∷ []) port

abbrev config : Config
config = record { host_address = address 34352; addresses_to_connect = [] }

-- `PeerTable::default()`, before any channel is made.
abbrev nobody : Linked
nobody = (empty_table, λ c. record { capacity = 0; queued = []; connected = false })

-- `sync_channel(OUTBOUND_QUEUE)`.
abbrev sync_channel : Sender → Channels → Channels
sync_channel c = set_channel c (record { capacity = outbound_queue; queued = []; connected = true })

abbrev expected : Registration → Result PeerId
expected (registered id) = ok id
expected (refused refusal) = panic

abbrev a_peer : Sender → ℕ → Linked → Result PeerId × Linked
a_peer c port (t, cs) =
    let (r, t') = register (address port) accepted c t in (expected r, (t', sync_channel c cs))

abbrev a_block : Bytes
a_block = 97 ∷ 32 ∷ 98 ∷ 108 ∷ 111 ∷ 99 ∷ 107 ∷ []

abbrev is_some {ℓ} : {A : Type ℓ} → Option A → Bool
is_some none = false
is_some (some a) = true

abbrev queued_for : Sender → Linked → List Bytes
queued_for c l = (l.1 c).queued

abbrev ARegisteredPeerIsListedUntilItIsRemoved : Type 0
ARegisteredPeerIsListedUntilItIsRemoved =
    let (id, (t, cs)) = a_peer 0 5000 nobody in
    let (removed, t') = remove 0 t in
    let (again, t'') = remove 0 t' in
    (is_empty empty_table ≡ true)
    × (id ≡ ok 0)
    × (len t ≡ 1)
    × (ids t ≡ 0 ∷ [])
    × (is_some removed ≡ true)
    × (is_empty t' ≡ true)
    × (is_some again ≡ false)
    × (ids t'' ≡ [])

abbrev BroadcastReachesEveryPeer : Type 0
BroadcastReachesEveryPeer =
    let l = (a_peer 2 5002 (a_peer 1 5001 (a_peer 0 5000 nobody).1).1).1 in
    let (reached, l') = broadcast a_block l in
    (reached ≡ 3)
    × (queued_for 0 l' ≡ a_block ∷ [])
    × (queued_for 1 l' ≡ a_block ∷ [])
    × (queued_for 2 l' ≡ a_block ∷ [])

abbrev SendToReachesExactlyOnePeer : Type 0
SendToReachesExactlyOnePeer =
    let (first, l) = a_peer 0 5000 nobody in
    let (sent, l') = send_to 0 (1 ∷ []) (a_peer 1 5001 l).1 in
    (first ≡ ok 0) × (sent ≡ true) × (queued_for 0 l' ≡ (1 ∷ []) ∷ []) × (queued_for 1 l' ≡ [])

abbrev SendToAnUnknownPeerDeliversNothing : Type 0
SendToAnUnknownPeerDeliversNothing =
    let (sent, l) = send_to 404 (1 ∷ []) (a_peer 0 5000 nobody).1 in
    (sent ≡ false) × (queued_for 0 l ≡ [])

-- The loop that sends one message after the other, and whether all of them were taken.
abbrev send_all : ℕ → PeerId → Bytes → Linked → Bool × Linked
send_all zero id message l = (true, l)
send_all (suc n) id message l =
    let (taken, l') = send_to id message l in
    let (all, l'') = send_all n id message l' in (taken && all, l'')

abbrev APeerThatNeverDrainsDoesNotHoldUpTheOthers : Type 0
APeerThatNeverDrainsDoesNotHoldUpTheOthers =
    let l = (a_peer 2 5002 (a_peer 1 5001 (a_peer 0 5000 nobody).1).1).1 in
    let (filled, l') = send_all outbound_queue 0 (1 ∷ []) l in
    let (reached, l'') = broadcast a_block l' in
    (filled ≡ true)
    × (reached ≡ 2)
    × (queued_for 1 l'' ≡ a_block ∷ [])
    × (queued_for 2 l'' ≡ a_block ∷ [])
    × (len l''.0 ≡ 2)

abbrev APeersQueueDoesNotGrowPastTheBound : Type 0
APeersQueueDoesNotGrowPastTheBound =
    let (filled, l) = send_all outbound_queue 0 (1 ∷ []) (a_peer 0 5000 nobody).1 in
    let (sent, l') = send_to 0 (2 ∷ []) l in
    (filled ≡ true)
    × (sent ≡ false)
    × (is_empty l'.0 ≡ true)
    × (length (queued_for 0 l') ≡ outbound_queue)

abbrev APeerWhoseWriterIsGoneIsDropped : Type 0
APeerWhoseWriterIsGoneIsDropped =
    let (id, (t, cs)) = a_peer 0 5000 nobody in
    let gone = set_channel 0 (record (cs 0) { connected = false }) cs in
    let (sent, l) = send_to 0 (1 ∷ []) (t, gone) in
    (id ≡ ok 0) × (sent ≡ false) × (is_empty l.0 ≡ true)

abbrev DiallingTheSameAddressTwiceRegistersOnePeer : Type 0
DiallingTheSameAddressTwiceRegistersOnePeer =
    let (first, t) = register (address 5000) dialled 0 empty_table in
    let (second, t') = register (address 5000) dialled 1 t in
    (is_ok (expected first) ≡ true) × (second ≡ refused already_dialled) × (len t' ≡ 1)

abbrev APeerThatDialledUsIsNotConfusedWithOneWeDialled : Type 0
APeerThatDialledUsIsNotConfusedWithOneWeDialled =
    let (first, t) = register (address 5000) dialled 0 empty_table in
    let (second, t') = register (address 5000) accepted 1 t in
    (is_ok (expected first) ≡ true) × (is_ok (expected second) ≡ true) × (len t' ≡ 2)

abbrev APeerCountsOnlyOnceBothSidesHaveIdentifiedThemselves : Type 0
APeerCountsOnlyOnceBothSidesHaveIdentifiedThemselves =
    let (id, (t, cs)) = a_peer 0 5000 nobody in
    let (a, t') = advance_handshake 0 HandshakeEvent.version t in
    let (b, t'') = advance_handshake 0 HandshakeEvent.verack t' in
    (id ≡ ok 0)
    × (handshake_of 0 t ≡ some awaiting_version)
    × (a ≡ ok awaiting_verack)
    × (b ≡ ok ready)
    × (Option.map is_ready (handshake_of 0 t'') ≡ some true)

abbrev APeerThatLeftTheTableCannotAdvanceAHandshake : Type 0
APeerThatLeftTheTableCannotAdvanceAHandshake =
    let t = (remove 0 (a_peer 0 5000 nobody).1.0).1 in
    (is_err (advance_handshake 0 HandshakeEvent.version t).0 ≡ true) × (handshake_of 0 t ≡ none)

abbrev peers_from : ℕ → ℕ → Linked → Linked
peers_from zero index l = l
peers_from (suc n) index l = peers_from n (index + 1) (a_peer index (5000 + index) l).1

abbrev AFullTableRefusesTheNextPeer : Type 0
AFullTableRefusesTheNextPeer =
    let t = (peers_from max_peers 0 nobody).0 in
    let (r, t') = register (address 6000) accepted max_peers t in
    (len t ≡ max_peers) × (r ≡ refused at_capacity) × (len t' ≡ max_peers)

-- They pass.
node_tests_pass :
    ARegisteredPeerIsListedUntilItIsRemoved × BroadcastReachesEveryPeer
    × SendToReachesExactlyOnePeer × SendToAnUnknownPeerDeliversNothing
    × APeerThatNeverDrainsDoesNotHoldUpTheOthers × APeersQueueDoesNotGrowPastTheBound
    × APeerWhoseWriterIsGoneIsDropped × DiallingTheSameAddressTwiceRegistersOnePeer
    × APeerThatDialledUsIsNotConfusedWithOneWeDialled
    × APeerCountsOnlyOnceBothSidesHaveIdentifiedThemselves
    × APeerThatLeftTheTableCannotAdvanceAHandshake × AFullTableRefusesTheNextPeer
unfolding empty_table register has_dialled address_eq bytes_eq insert erase remove get len is_empty
    ids broadcast broadcast_loop try_send erase_all send_to advance_handshake assign handshake_of
    is_ready Handshake.advance
node_tests_pass = (
  (refl, refl, refl, refl, refl, refl, refl, refl),
  (refl, refl, refl, refl),
  (refl, refl, refl, refl),
  (refl, refl),
  (refl, refl, refl, refl, refl),
  (refl, refl, refl, refl),
  (refl, refl, refl),
  (refl, refl, refl),
  (refl, refl, refl),
  (refl, refl, refl, refl, refl),
  (refl, refl),
  (refl, refl, refl),
)
