-- ===== src/Protocol/System/Turns.antt =====
-- One turn of a connection that comes to its end.
use avicoin.Prelude.{
  ℕ, ◌+◌, ◌<◌, ◌≤◌, true, false, if◌then◌else◌, ◌≡◌, ◌≢◌, ◌⊎◌, inl, inr, refl, sym, ap, Bool, List,
  [], ◌∷◌, arith, length,
}
use avicoin.Outcome.{Result, ok, err, panic}
use avicoin.Words.{Bytes}
use avicoin.Util.{Sha256}
use avicoin.Net.{SocketAddr, Sender, Channel, Channels, set_channel}
use avicoin.Node.Peers.Shrinks.{Unlinked}
use avicoin.Node.{record_entry}
use avicoin.Protocol.Session.{World, Registered, closed, log, drop_registered}
use avicoin.Protocol.ReadLoop.{
  Arrival, end_of_stream, failed, interrupted, would_block, timed_out, other, arrived, Reading,
  goes_on, returns, read_once, check_deadline,
}
use avicoin.Protocol.System.{
  Reader, unborn, joining, ended, opened, leaving, reading, Writer, absent, writing, stopped, Conn,
  System, Move, opens, refuses, set_up_fails, sets_up, reads, stops_reading, drops, unwinds,
  times_out, writes, write_fails, disconnects, joins, IsLast, reported, is_timeout,
}
use avicoin.Protocol.System.Owners.{Fits}

-- The connection is past its last turn that can go on: it has left the read loop, or its socket was
-- shut down under it.
abbrev pub IsClosing : Reader → Bool → Type 0
IsClosing joining shut = Unit {0}
IsClosing (leaving self) shut = Unit {0}
IsClosing (reading self ready buffer) shut = shut ≡ true
IsClosing reader shut = ⊥

-- How many turns of its own such a connection has before it, at most.
abbrev stage : Reader → ℕ
stage joining = 1
stage (leaving self) = 2
stage (reading self ready buffer) = 3
stage reader = 0

abbrev to_write : Writer → List Bytes → ℕ
to_write writing queue = length queue + 1
to_write writer queue = 0

abbrev pub turns_left : Reader → Writer → List Bytes → ℕ
turns_left reader writer queue = stage reader + to_write writer queue

pub turns_left-pos :
    (reader : Reader) (writer : Writer) (shut : Bool) (queue : List Bytes)
    → IsClosing reader shut
    → 0 < turns_left reader writer queue
turns_left-pos joining writer shut queue h = omega arith
turns_left-pos (leaving self) writer shut queue h = omega arith
turns_left-pos (reading self ready buffer) writer shut queue h = omega arith
turns_left-pos unborn writer shut queue h = absurd h
turns_left-pos ended writer shut queue h = absurd h
turns_left-pos (opened self) writer shut queue h = absurd h

abbrev pub rank : Sender → System → ℕ
rank c s = turns_left (s.conns c).reader (s.conns c).writer (s.world.channels c).queued

queue-cases :
    (queue : List Bytes) → (queue ≡ []) ⊎ ((m : Bytes) × (rest : List Bytes) × (queue ≡ m ∷ rest))
queue-cases [] = inl refl
queue-cases (m ∷ rest) = inr (m, rest, refl)

set_channel_self :
    (c : Sender) (channel : Channel) (cs : Channels) → set_channel c channel cs c ≡ channel
set_channel_self c channel cs = ground arith

set_channel_ne :
    (d c : Sender) (channel : Channel) (cs : Channels) → d ≢ c → set_channel d channel cs c ≡ cs c
set_channel_ne d c channel cs ne = ground arith

module _ (sha : Sha256) (c : Sender) (w : World) where
  -- It has a turn to take other than a timeout of its writer.
  abbrev pub Enabled : Conn → Type 0
  Enabled conn =
      (w' : World) × (conn' : Conn) × (m : Move sha c w conn w' conn') × (is_timeout m ≡ false)

  waiting-Enabled :
      (writer : Writer) (shut : Bool)
      → writer ≢ absent
      → Unlinked c w.node.peers
      → Enabled (record { reader = joining; writer = writer; shut = shut })
  waiting-Enabled absent shut present u = absurd (present refl)
  waiting-Enabled stopped shut present u = (_, _, joins (SocketAddr.v4 [] 0) (ok tt), refl)
  waiting-Enabled writing shut present u = elim (queue-cases (w.channels c).queued) [
    | inl e ↦ (_, _, disconnects e u, refl)
    | inr (m, rest, e) ↦ (_, _, writes e, refl)
  ]

  pub closing-Enabled :
      (reader : Reader) (writer : Writer) (shut : Bool)
      → IsClosing reader shut
      → Fits reader writer
      → (reader ≡ joining → Unlinked c w.node.peers)
      → Enabled (record { reader = reader; writer = writer; shut = shut })
  unfolding check_deadline read_once
  closing-Enabled joining writer shut h fit u = waiting-Enabled writer shut fit (u refl)
  closing-Enabled (leaving self) writer shut h fit u = (_, _, unwinds (ok tt), refl)
  closing-Enabled (reading self ready buffer) writer shut h fit u =
      (_, _, stops_reading end_of_stream true (λ e. tt) refl, refl)
  closing-Enabled unborn writer shut h fit u = absurd h
  closing-Enabled ended writer shut h fit u = absurd h
  closing-Enabled (opened self) writer shut h fit u = absurd h

-- On a socket that was shut down the read loop does not go on, and sends nothing.
module _ (sha : Sha256) (self : Registered) (late : Bool) (r : Reading) where
  last_returns :
      (arrival : Arrival) (r' : Reading)
      → IsLast arrival
      → check_deadline self late (read_once sha self arrival r) ≢ goes_on r'
  unfolding check_deadline read_once
  last_returns end_of_stream r' h e = cc
  last_returns (failed other x) r' h e = cc
  last_returns (failed interrupted x) r' h e = absurd h
  last_returns (failed would_block x) r' h e = absurd h
  last_returns (failed timed_out x) r' h e = absurd h
  last_returns (arrived bytes) r' h e = absurd h

  last_quiet :
      (arrival : Arrival) (result : Result (Unit {0})) (w' : World)
      → IsLast arrival
      → check_deadline self late (read_once sha self arrival r) ≡ returns result w'
      → w'.channels ≡ r.world.channels
  unfolding check_deadline read_once record_entry
  last_quiet end_of_stream result w' h e =
      let same : log (closed self.address) r.world ≡ w' = cc e in
      ap (λ (w : World). w.channels) (sym same)
  last_quiet (failed other x) result w' h e =
      let same : r.world ≡ w' = cc e in ap (λ (w : World). w.channels) (sym same)
  last_quiet (failed interrupted x) result w' h e = absurd h
  last_quiet (failed would_block x) result w' h e = absurd h
  last_quiet (failed timed_out x) result w' h e = absurd h
  last_quiet (arrived bytes) result w' h e = absurd h

IsClosing-shut : (reader : Reader) (shut : Bool) → IsClosing reader shut → IsClosing reader true
IsClosing-shut joining shut h = tt
IsClosing-shut (leaving self) shut h = tt
IsClosing-shut (reading self ready buffer) shut h = refl
IsClosing-shut unborn shut h = h
IsClosing-shut ended shut h = h
IsClosing-shut (opened self) shut h = h

-- What a turn takes off the turns left: one, and a timeout none.
abbrev pub cost : Bool → ℕ
cost timeout = if timeout then 0 else 1

-- Fewer turns left, and still closing or at the end.
abbrev pub Closer : Bool → Sender → World → Conn → World → Conn → Type 0
Closer timeout c w conn w' conn' =
    (turns_left conn'.reader conn'.writer (w'.channels c).queued + cost timeout
      ≤ turns_left conn.reader conn.writer (w.channels c).queued)
    × (IsClosing conn'.reader conn'.shut ⊎ (conn'.reader ≡ ended))

same_queue :
    (c : Sender) (w w' : World)
    → w'.channels ≡ w.channels
    → length (w'.channels c).queued ≡ length (w.channels c).queued
same_queue c w w' e = ap (λ (cs : Channels). length (cs c).queued) e

to_write-queue :
    (writer : Writer) (q q' : List Bytes)
    → length q' ≡ length q
    → to_write writer q' ≡ to_write writer q
to_write-queue writing q q' e = omega (arith, e)
to_write-queue absent q q' e = refl
to_write-queue stopped q q' e = refl

reported-channels :
    (peer : SocketAddr) (result : Result (Unit {0})) (w : World)
    → (reported peer result w).channels ≡ w.channels
reported-channels peer (ok _) w = refl
reported-channels peer (err e) w = refl
reported-channels peer panic w = refl

-- A turn of its own, other than a timeout, brings a closing connection closer to its end.
pub Move-Closer :
    {sha : Sha256} {c : Sender} {w : World} {conn : Conn} {w' : World} {conn' : Conn}
    → (m : Move sha c w conn w' conn') → IsClosing conn.reader conn.shut
    → Closer (is_timeout m) c w conn w' conn'
unfolding drop_registered
Move-Closer (opens peer origin h eq) e = absurd e
Move-Closer (refuses peer origin h eq) e = absurd e
Move-Closer (set_up_fails greeted) e = absurd e
Move-Closer sets_up e = absurd e
Move-Closer {sha} (reads {registered = self} {ready} {buffer} arrival late {r} last eq) e =
    absurd (last_returns sha self late _ arrival r (last e) eq)
Move-Closer {sha} {c} {w}
      (stops_reading {registered = self} {ready} {buffer} {writer} arrival late {result} {w'} last
        eq)
      e =
    (
      omega (
        arith,
        to_write-queue writer _ _ (
            same_queue c w w' (
              last_quiet sha self late (record { ready = ready; recv_buffer = buffer; world = w })
                arrival result w' (last e) eq)),
      ),
      inl tt,
    )
Move-Closer (drops present) e = (omega arith, inl tt)
Move-Closer {c = c} {w = w} (unwinds {registered = self} {writer} result) e = (
  omega (
    arith,
    to_write-queue writer _ _ (
        same_queue c w (reported self.address result (drop_registered self w))
          (reported-channels self.address result (drop_registered self w))),
  ),
  inr refl,
)
Move-Closer {c = c} {w = w} (writes {reader} {shut} {message} {rest} q) e = (
  omega (
    arith,
    ap length q,
    ap (λ (x : Channel). length x.queued)
        (set_channel_self c (record (w.channels c) { queued = rest }) w.channels),
  ),
  inl e,
)
Move-Closer (times_out q linked) e = (omega arith, inl e)
Move-Closer {c = c} {w = w} (write_fails {reader} {shut}) e =
    (omega arith, inl (IsClosing-shut reader shut e))
Move-Closer {c = c} {w = w} (disconnects {reader} {shut} q u) e =
    (omega arith, inl (IsClosing-shut reader shut e))
Move-Closer (joins peer result) e = (omega arith, inr refl)

-- A thread that has ended takes no turn again, and its writer does not bring it back.
pub Move-ended :
    {sha : Sha256} {c : Sender} {w : World} {conn : Conn} {w' : World} {conn' : Conn}
    → Move sha c w conn w' conn'
    → conn.reader ≡ ended
    → conn'.reader ≡ ended
Move-ended (opens peer origin h eq) e = cc
Move-ended (refuses peer origin h eq) e = cc
Move-ended (set_up_fails greeted) e = cc
Move-ended sets_up e = cc
Move-ended (reads arrival late last eq) e = cc
Move-ended (stops_reading arrival late last eq) e = cc
Move-ended (drops present) e = cc
Move-ended (unwinds result) e = refl
Move-ended (writes q) e = e
Move-ended (times_out q linked) e = e
Move-ended write_fails e = e
Move-ended (disconnects q u) e = e
Move-ended (joins peer result) e = refl
