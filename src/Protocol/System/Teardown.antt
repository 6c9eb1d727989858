-- ===== src/Protocol/System/Teardown.antt =====
-- A connection whose socket was shut down, or that has left its read loop, comes to its end.
use avicoin.Prelude.{ℕ, suc, ◌+◌, ◌≤◌, ◌≡◌, ◌⊎◌, List, Bool, ◌&&◌, ◌==◌, if◌then◌else◌}
use avicoin.Net.{Sender}
use avicoin.Protocol.Session.{World}
use avicoin.Protocol.System.{ended, Conn, System, turns_of}
use avicoin.Protocol.System.Turns.{IsClosing, turns_left}

-- The connection has ended, or it is closing, and its turns so far and those it has left are within a
-- bound, which a timeout of its writer raises.
abbrev Ending : Sender → ℕ → List Sender → Conn → World → Type 0
Ending c bound turns conn w =
    (conn.reader ≡ ended)
    ⊎ (IsClosing conn.reader conn.shut
        × (turns_of c turns + turns_left conn.reader conn.writer (w.channels c).queued ≤ bound))

-- How many timeouts there are with one more turn.
abbrev further : Sender → Sender → Bool → ℕ → ℕ
further c d timeout n = if (d == c) && timeout then suc n else n
