-- ===== src/Tests/Peers.antt =====
-- The theorems on the peer table, the log and the handshake at concrete inputs.
use avicoin.Prelude.{ℕ, ◌-◌, ◌≡◌, ◌↔◌, refl, [], ◌∷◌, arith, true, length}
use avicoin.Outcome.{ok}
use avicoin.Net.{SocketAddr, Channels}
use avicoin.Protocol.Session.{World, Registered}
use avicoin.Node.Handshake.{
  awaiting_version, ready, version, verack, advance_all, Accepted, advance_all_iff,
}
use avicoin.Node.Log.{push_all, recent, push_all-recent}
use avicoin.Node.Peers.{
  Peers, PeerTable, broadcast_loop, erase_all, accepted, dialled, empty_table, has_dialled,
  register, send_to, broadcast,
}
use avicoin.Node.Peers.Invariant.{Inv}
use avicoin.Node.Peers.Runs.{registers, removes, broadcasts, run, run-Inv}
use avicoin.Node.Peers.Delivery.{SendOutcome, after, send_to_lem, RegisterOutcome, register_lem}
use mathlib.Core.List.Permᴰ
use avicoin.Node.Peers.Order.{broadcast-order}
use avicoin.Node.Peers.Broadcast.{has_sender, reachable, delivered_to, broadcast_lem}

abbrev home : SocketAddr
home = SocketAddr.v4 (127 ∷ 0 ∷ 0 ∷ 1 ∷ []) 34352

-- Two peers: the channel of the first has no room left.
abbrev crowd : PeerTable
crowd = record {
  peers =
      (1, record { address = home; origin = accepted; handshake = ready; outbound = 1 })
      ∷ (0, record { address = home; origin = dialled; handshake = ready; outbound = 0 })
      ∷ [];
  next_id = 2;
}

abbrev channels : Channels
channels s = record { capacity = 1 - s; queued = []; connected = true }

abbrev shuffled : Peers
shuffled =
    (0, record { address = home; origin = dialled; handshake = ready; outbound = 0 })
    ∷ (1, record { address = home; origin = accepted; handshake = ready; outbound = 1 })
    ∷ []

crowd-Inv : Inv crowd
unfolding has_dialled
crowd-Inv = record {
  fresh = (omega arith, (omega arith, tt));
  bounded = omega arith;
  dialled_once = (refl, (refl, tt));
}

advance_all_iff_example :
    (advance_all awaiting_version (version ∷ verack ∷ []) ≡ ok ready)
    ↔ Accepted (version ∷ verack ∷ []) ready
advance_all_iff_example = advance_all_iff (version ∷ verack ∷ []) ready

push_all-recent_example :
    (push_all {E = ℕ} (record { entries = 1 ∷ []; capacity = 2 }) (2 ∷ 3 ∷ [])).entries
    ≡ recent {E = ℕ} 2 (1 ∷ 2 ∷ 3 ∷ [])
push_all-recent_example =
    push_all-recent (record { entries = 1 ∷ []; capacity = 2 }) (2 ∷ 3 ∷ []) (omega arith)

run-Inv_example :
    Inv
      (run
        (empty_table, channels)
        (registers home dialled 0 ∷ broadcasts (7 ∷ []) ∷ removes 0 ∷ [])).0
run-Inv_example =
    run-Inv (registers home dialled 0 ∷ broadcasts (7 ∷ []) ∷ removes 0 ∷ []) channels (omega arith)

send_to_lem_example :
    SendOutcome 1
      (7 ∷ [])
      (crowd, channels)
      (after (send_to 1 (7 ∷ []) (crowd, channels)))
      (send_to 1 (7 ∷ []) (crowd, channels)).0
send_to_lem_example = send_to_lem 1 (7 ∷ []) crowd channels crowd-Inv

register_lem_example :
    RegisterOutcome home dialled 5 crowd
      (register home dialled 5 crowd).1
      (register home dialled 5 crowd).0
register_lem_example = register_lem home dialled 5 crowd crowd-Inv

broadcast_lem_example : broadcast (7 ∷ []) (crowd, channels) ≡ (
  length (reachable channels crowd.peers),
  (
    record crowd { peers = reachable channels crowd.peers },
    delivered_to (7 ∷ []) (reachable channels crowd.peers) channels,
  ),
)
unfolding has_sender
broadcast_lem_example = broadcast_lem (7 ∷ []) crowd channels crowd-Inv (refl, (refl, tt))

-- The map gives the peers in the other order.
broadcast-order_example : broadcast (7 ∷ []) (crowd, channels) ≡ (
  (broadcast_loop (7 ∷ []) shuffled channels).0,
  (
    record crowd { peers = erase_all (broadcast_loop (7 ∷ []) shuffled channels).1 crowd.peers },
    (broadcast_loop (7 ∷ []) shuffled channels).2,
  ),
)
unfolding has_sender
broadcast-order_example =
    broadcast-order (7 ∷ []) crowd channels shuffled (refl, (refl, tt)) (Permᴰ.swap refl refl)

-- The node of the crowd.
abbrev world : World
world = record {
  node = record {
    config = record { host_address = home; addresses_to_connect = [] };
    peers = crowd;
    log = record { entries = []; capacity = 4 };
    nonce = 3;
  };
  channels = channels;
}

abbrev session : Registered
session = record { id = 0; address = home }
