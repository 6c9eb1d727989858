-- ===== src/Protocol/System/Reached.antt =====
-- What holds of a node at every moment, in whatever order its threads have taken their turns.
use avicoin.Prelude.{ℕ, ◌≡◌, refl, sym, ap, subst, ◌∙◌, Bool, true, false, some, List}
use avicoin.Outcome.{ok, err, panic, Result}
use avicoin.Util.{Sha256}
use avicoin.Net.{SocketAddr, Sender, Channels}
use avicoin.Node.{Config, shared, record_entry}
use avicoin.Node.Peers.{get, empty_table}
use avicoin.Node.Peers.Invariant.{Inv, empty_table-Inv}
use avicoin.Node.Peers.Shrinks.{Shrinks, Shrinks-refl}
use avicoin.Protocol.Session.{World, Registered, drop_registered}
use avicoin.Protocol.ReadLoop.{Arrival, Reading, read_once, check_deadline}
use avicoin.Protocol.Connection.{with_channel, greet}
use avicoin.Protocol.Table.Turn.{Ends, read_once-Tends, check_deadline-Ends}
use avicoin.Protocol.Table.{Tends, drop_registered-Tends, drop_registered-gone}
use avicoin.Protocol.System.{
  Reader, unborn, joining, ended, opened, leaving, reading, stopped, Conn, unborn_conn, System,
  set_conn, Move, opens, refuses, set_up_fails, sets_up, reads, stops_reading, drops, unwinds,
  times_out, writes, write_fails, disconnects, joins, reported, Step, picks, Run, starts, continues,
  Reach, begins, later,
}
use avicoin.Protocol.System.Opening.{Entered, open_connection-Entered, open_connection-refused}
use avicoin.Protocol.System.Owners.{
  held, Fits, Owned, owner_same, owner-Unlinked, owner-Entered, dropped_Unlinked, Fits-set,
}

-- A turn of the read loop, whatever it leads to.
pub turn-Tends :
    (sha : Sha256) (self : Registered) (arrival : Arrival) (late : Bool) (r : Reading)
    → Inv r.world.node.peers
    → Ends (Tends self r.world) (check_deadline self late (read_once sha self arrival r))
turn-Tends sha self arrival late r v =
    check_deadline-Ends (Tends self r.world) self late (read_once sha self arrival r)
      (read_once-Tends sha self arrival r v)

Fits-present : (reader : Reader) → Fits reader stopped
Fits-present unborn = tt
Fits-present joining = λ e. cc
Fits-present ended = tt
Fits-present (opened self) = tt
Fits-present (leaving self) = tt
Fits-present (reading self ready buffer) = λ e. cc

module _ (sha : Sha256) (c : Sender) (w : World) (conns : Sender → Conn)
    (o : Owned (record { world = w; conns = conns })) where
  -- The connection has moved, and holds what it held, in a world that has come after.
  tended :
      (w' : World) (conn conn' : Conn)
      → conns c ≡ conn
      → Inv w'.node.peers
      → Shrinks w.node.peers w'.node.peers
      → held conn'.reader ≡ held conn.reader
      → Fits conn'.reader conn'.writer
      → Owned (record { world = w'; conns = set_conn c conn' conns })
  tended w' conn conn' e v shrinks same fit = record {
    inv = v;
    owner =
        owner_same c conn' conns w.node.peers w'.node.peers o.owner shrinks
          (same ∙ ap (λ (x : Conn). held x.reader) (sym e));
    fits = Fits-set c conn' conns o.fits fit;
  }

  -- The connection has dropped its registration.
  dropped :
      (self : Registered) (conn conn' : Conn)
      → conns c ≡ conn
      → held conn.reader ≡ some self.id
      → Fits conn'.reader conn'.writer
      → Owned (record { world = drop_registered self w; conns = set_conn c conn' conns })
  dropped self conn conn' e mine fit =
      let t = drop_registered-Tends self w o.inv in
      record {
        inv = t.inv;
        owner =
            owner-Unlinked c conn' conns w.node.peers (drop_registered self w).node.peers o.owner
              t.shrinks
              (dropped_Unlinked c conn' conns self w.node.peers (drop_registered self w).node.peers
                o.owner t.shrinks (ap (λ (x : Conn). held x.reader) e ∙ mine)
                (drop_registered-gone self w o.inv).0);
        fits = Fits-set c conn' conns o.fits fit;
      }

  fit_of : (conn : Conn) → conns c ≡ conn → Fits conn.reader conn.writer
  fit_of conn e = subst (λ (x : Conn). Fits x.reader x.writer) e (o.fits c)

  -- The peers are as they were.
  same_table :
      (w' : World) (conn conn' : Conn)
      → conns c ≡ conn
      → w'.node.peers ≡ w.node.peers
      → held conn'.reader ≡ held conn.reader
      → Fits conn'.reader conn'.writer
      → Owned (record { world = w'; conns = set_conn c conn' conns })
  same_table w' conn conn' e peers same fit =
      tended w' conn conn' e (subst Inv (sym peers) o.inv)
        (subst (Shrinks w.node.peers) (sym peers) (Shrinks-refl w.node.peers)) same fit

  entered :
      (w' : World) (self : Registered) (conn' : Conn)
      → conns c ≡ unborn_conn
      → Entered c (with_channel c w) self w'
      → held conn'.reader ≡ some self.id
      → Fits conn'.reader conn'.writer
      → Owned (record { world = w'; conns = set_conn c conn' conns })
  entered w' self conn' e en holds fit = record {
    inv = en.inv;
    owner =
        owner-Entered c conn' conns (with_channel c w) w' self o.owner
          (ap (λ (x : Conn). held x.reader) e) en holds;
    fits = Fits-set c conn' conns o.fits fit;
  }

reported-Owned :
    (peer : SocketAddr) (result : Result (Unit {0})) (w : World) (conns : Sender → Conn)
    → Owned (record { world = w; conns = conns })
    → Owned (record { world = reported peer result w; conns = conns })
unfolding record_entry
reported-Owned peer (ok _) w conns o = o
reported-Owned peer (err e) w conns o = record { inv = o.inv; owner = o.owner; fits = o.fits }
reported-Owned peer panic w conns o = o

Move-Owned :
    {sha : Sha256} {c : Sender} {w : World} {conn : Conn} {w' : World} {conn' : Conn}
    (conns : Sender → Conn)
    → Move sha c w conn w' conn'
    → conns c ≡ conn
    → Owned (record { world = w; conns = conns })
    → Owned (record { world = w'; conns = set_conn c conn' conns })
unfolding record_entry
Move-Owned {sha} {c} {w} conns (opens peer origin {registered = self} {w'} h eq) e o =
    entered sha c w conns o w' self _ e
      (open_connection-Entered peer origin c (with_channel c w) o.inv self w' h eq) refl tt
Move-Owned {sha} {c} {w} conns (refuses peer origin {refusal} {w'} h eq) e o =
    same_table sha c w conns o _ unborn_conn _ e
      (ap (λ (x : World). x.node.peers)
        (sym (open_connection-refused peer origin c (with_channel c w) o.inv refusal w' eq)))
      refl tt
Move-Owned {sha} {c} {w} conns (set_up_fails {registered = self} {shut} true) e o =
    same_table sha c w conns o _ _ _ e refl refl tt
Move-Owned {sha} {c} {w} conns (set_up_fails {registered = self} {shut} false) e o =
    same_table sha c w conns o _ _ _ e refl refl tt
Move-Owned {sha} {c} {w} conns (sets_up {registered = self} {shut}) e o =
    same_table sha c w conns o (greet self w) _ _ e refl refl (λ x. cc)
Move-Owned {sha} {c} {w} conns
      (reads {registered = self} {ready} {buffer} {writer} {shut} arrival late {r} last eq) e o =
    let t = subst (Ends (Tends self w)) eq (
      turn-Tends sha self arrival late (record { ready = ready; recv_buffer = buffer; world = w })
        o.inv) in
    tended sha c w conns o r.world _ _ e t.inv t.shrinks refl (fit_of sha c w conns o _ e)
Move-Owned {sha} {c} {w} conns
      (stops_reading {registered = self} {ready} {buffer} {writer} {shut} arrival late {result} {w'}
        last eq)
      e o =
    let t = subst (Ends (Tends self w)) eq (
      turn-Tends sha self arrival late (record { ready = ready; recv_buffer = buffer; world = w })
        o.inv) in
    tended sha c w conns o w' _ _ e t.inv t.shrinks refl tt
Move-Owned {sha} {c} {w} conns (drops {registered = self} {writer} {shut} present) e o =
    dropped sha c w conns o self _ _ e refl present
Move-Owned {sha} {c} {w} conns (unwinds {registered = self} {writer} {shut} result) e o =
    reported-Owned self.address result (drop_registered self w) _
      (dropped sha c w conns o self _ _ e refl tt)
Move-Owned {sha} {c} {w} conns (writes {reader} {shut} {message} {rest} q) e o =
    same_table sha c w conns o _ _ _ e refl refl (fit_of sha c w conns o _ e)
Move-Owned {sha} {c} {w} conns (write_fails {reader} {shut}) e o =
    same_table sha c w conns o _ _ _ e refl refl (Fits-present reader)
Move-Owned {sha} {c} {w} conns (times_out {reader} {shut} q linked) e o =
    same_table sha c w conns o w _ _ e refl refl (fit_of sha c w conns o _ e)
Move-Owned {sha} {c} {w} conns (disconnects {reader} {shut} q u) e o =
    same_table sha c w conns o _ _ _ e refl refl (Fits-present reader)
Move-Owned {sha} {c} {w} conns (joins {shut} peer result) e o =
    reported-Owned peer result w _ (same_table sha c w conns o w _ _ e refl refl tt)

pub Step-Owned : {sha : Sha256} {s t : System} → Step sha s t → Owned s → Owned t
Step-Owned {sha} {s} (picks c m) o = Move-Owned s.conns m refl o

-- In every state that a node reaches, whatever its peers send and in whatever order its threads run,
-- the peer table is well formed and each peer in it is held by a connection that has not dropped its
-- registration, and whose channel is the peer's.
pub Reach-Owned :
    {sha : Sha256} {config : Config} {nonce : ℕ} {channels : Channels} {s : System}
    → Reach sha config nonce channels s
    → Owned s
unfolding shared empty_table get
Reach-Owned begins = record { inv = empty_table-Inv; owner = λ i p e. cc; fits = λ c. tt }
Reach-Owned (later r st) = Step-Owned st (Reach-Owned r)

pub Reach-Run :
    {sha : Sha256} {config : Config} {nonce : ℕ} {channels : Channels} {s t : System}
    {turns : List Sender}
    → Reach sha config nonce channels s
    → Run sha s turns t
    → Reach sha config nonce channels t
Reach-Run r starts = r
Reach-Run r (continues c run m) = later (Reach-Run r run) (picks c m)
