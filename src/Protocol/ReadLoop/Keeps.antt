-- ===== src/Protocol/ReadLoop/Keeps.antt =====
-- The peer table after the read loop.
use avicoin.Prelude.{Option, none, some, List, [], ◌∷◌, All}
use avicoin.Outcome.{Result}
use avicoin.Util.{Sha256}
use avicoin.Node.Peers.Invariant.{Inv}
use avicoin.Protocol.Session.{World, Registered}
use avicoin.Protocol.ReadLoop.{
  ReadTurn, Reading, Progress, goes_on, returns, out_of_fuel, proceed, read_loop,
}
use avicoin.Protocol.Table.{Tends}
use avicoin.Protocol.Table.Turn.{Ends, read_once-Tends, check_deadline-Ends}

-- What the other threads do in the meantime keeps the table well formed.
abbrev pub Orderly : ReadTurn → Type 0
Orderly t = (w : World) → Inv w.node.peers → Inv (t.meanwhile w).node.peers

abbrev pub Tidy : Option (Result (Unit {0}) × World) → Type 0
Tidy none = Unit {0}
Tidy (some (result, w)) = Inv w.node.peers

proceed-Tidy :
    (self : Registered) (next : Reading → Option (Result (Unit {0}) × World))
    (meanwhile : World → World) (w : World) (p : Progress)
    → Ends (Tends self w) p
    → ((w : World) → Inv w.node.peers → Inv (meanwhile w).node.peers)
    → ((r : Reading) → Inv r.world.node.peers → Tidy (next r))
    → Tidy (proceed next meanwhile p)
proceed-Tidy self next meanwhile w (goes_on r) t keeps h = h _ (keeps r.world t.inv)
proceed-Tidy self next meanwhile w (returns result w') t keeps h = t.inv
proceed-Tidy self next meanwhile w out_of_fuel t keeps h = tt

pub read_loop-Tidy :
    (sha : Sha256) (self : Registered) (turns : List ReadTurn) (r : Reading)
    → All Orderly turns
    → Inv r.world.node.peers
    → Tidy (read_loop sha self turns r)
unfolding read_loop
read_loop-Tidy sha self [] r o v = tt
read_loop-Tidy sha self (t ∷ turns) r o v =
    proceed-Tidy self (read_loop sha self turns) t.meanwhile r.world _
      (check_deadline-Ends (Tends self r.world) self t.late _
        (read_once-Tends sha self t.arrival r v))
      o.0 (λ r' v'. read_loop-Tidy sha self turns r' o.1 v')
