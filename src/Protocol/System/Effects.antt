-- ===== src/Protocol/System/Effects.antt =====
-- What a turn of one connection does to the peers and the queues of the others.
use avicoin.Prelude.{
  ◌+◌, ◌≡◌, ◌≢◌, ◌⊎◌, refl, sym, ap, subst, ◌∙◌, Bool, true, false, Option, none, some, arith,
}
use avicoin.Outcome.{Result, ok, err, panic}
use avicoin.Words.{Bytes}
use avicoin.Util.{Sha256}
use avicoin.Net.{SocketAddr, Sender, Channel, Channels, set_channel}
use avicoin.Node.{record_entry}
use avicoin.Node.Peers.{PeerId, PeerHandle, PeerTable, Refused, get}
use avicoin.Node.Peers.Invariant.{Inv}
use avicoin.Protocol.Session.{World, Registered, open_connection, drop_registered}
use avicoin.Protocol.ReadLoop.{Arrival, Progress, read_once, check_deadline}
use avicoin.Protocol.Connection.{with_channel}
use avicoin.Protocol.Table.{Tends, drop_registered-Tends}
use avicoin.Protocol.Table.Turn.{Ends}
use avicoin.Protocol.System.{
  Conn, close, reported, Move, opens, refuses, set_up_fails, sets_up, reads, stops_reading, drops,
  unwinds, times_out, writes, write_fails, disconnects, joins,
}
use avicoin.Protocol.System.Opening.{Entered, open_connection-Entered, open_connection-refused}
use avicoin.Protocol.System.Owners.{held}
use avicoin.Protocol.System.Reached.{turn-Tends}

-- What the connection holds has no peer in the table that leads to the channel.
abbrev pub IsAway : Sender → Conn → PeerTable → Type 0
IsAway d conn t =
    (i : PeerId) (p : PeerHandle)
    → held conn.reader ≡ some i
    → get i t.peers ≡ some p
    → p.outbound ≢ d

-- What the connection holds behind its turn: what it held before, nothing, or the next id.
pub data Holding (before after : Option PeerId) (n n' : PeerId) : Type 0 where
  kept : after ≡ before → n' ≡ n → Holding before after n n'
  let_go : after ≡ none → n' ≡ n → Holding before after n n'
  gained : after ≡ some n → n' ≡ n + 1 → Holding before after n n'

pub record Effect (c : Sender) (w : World) (conn : Conn) (w' : World) (conn' : Conn) : Type 0 where
  pub others :
      (j : PeerId) (p : PeerHandle)
      → held conn.reader ≢ some j
      → get j w.node.peers.peers ≡ some p
      → get j w'.node.peers.peers ≡ some p
  pub untouched : (d : Sender) → c ≢ d → IsAway d conn w.node.peers → w'.channels d ≡ w.channels d
  pub holding :
      Holding (held conn.reader) (held conn'.reader) w.node.peers.next_id w'.node.peers.next_id

-- Only the connection's own channel may have changed.
abbrev ElsewhereSame : Sender → Channels → Channels → Type 0
ElsewhereSame c cs cs' = (d : Sender) → c ≢ d → cs' d ≡ cs d

set_channel-ElsewhereSame :
    (c : Sender) (channel : Channel) (cs : Channels) → ElsewhereSame c cs (set_channel c channel cs)
set_channel-ElsewhereSame c channel cs d ne = ground arith

module _ (c : Sender) (w : World) where
  quiet :
      (w' : World) (conn conn' : Conn)
      → w'.node.peers ≡ w.node.peers
      → held conn'.reader ≡ held conn.reader
      → ElsewhereSame c w.channels w'.channels
      → Effect c w conn w' conn'
  quiet w' conn conn' peers same channels = record {
    others = λ j p ne e. ap (λ (t : PeerTable). get j t.peers) peers ∙ e;
    untouched = λ d ne away. channels d ne;
    holding = kept same (ap (λ (t : PeerTable). t.next_id) peers);
  }

  -- A turn of a registered connection.
  tending :
      (w' : World) (conn conn' : Conn) (self : Registered)
      → held conn.reader ≡ some self.id
      → Tends self w w'
      → Holding (held conn.reader) (held conn'.reader) w.node.peers.next_id w'.node.peers.next_id
      → Effect c w conn w' conn'
  tending w' conn conn' self mine t holds = record {
    others = λ j p ne e. t.others j (λ same. ne (mine ∙ ap some (sym same))) ∙ e;
    untouched = λ d ne away. t.untouched d (λ p e. away self.id p mine e);
    holding = holds;
  }

  entering :
      (w' : World) (self : Registered) (conn conn' : Conn)
      → Entered c (with_channel c w) self w'
      → held conn'.reader ≡ some self.id
      → ElsewhereSame c w.channels w'.channels
      → Effect c w conn w' conn'
  entering w' self conn conn' en holds channels = record {
    others = λ j p ne e.
        en.others j (λ same. cc (e, en.missing, ap (λ k. get k w.node.peers.peers) same)) ∙ e;
    untouched = λ d ne away. channels d ne;
    holding = gained (holds ∙ ap some en.fresh) en.next;
  }

reported-quiet :
    (c : Sender) (peer : SocketAddr) (result : Result (Unit {0})) (w w' : World) (conn conn' : Conn)
    → Effect c w conn w' conn'
    → Effect c w conn (reported peer result w') conn'
unfolding record_entry
reported-quiet c peer (ok _) w w' conn conn' f = f
reported-quiet c peer (err e) w w' conn conn' f = record {
  others = f.others;
  untouched = f.untouched;
  holding = f.holding;
}
reported-quiet c peer panic w w' conn conn' f = f

-- What a turn of the read loop leaves, whether it goes on or returns.
pub turned :
    (sha : Sha256) (self : Registered) (ready : Bool) (buffer : Bytes) (w : World)
    (arrival : Arrival) (late : Bool) (p : Progress)
    → Inv w.node.peers
    → check_deadline self late
        (read_once sha self arrival (record { ready = ready; recv_buffer = buffer; world = w }))
      ≡ p
    → Ends (Tends self w) p
turned sha self ready buffer w arrival late p v eq =
    subst (Ends (Tends self w)) eq (
      turn-Tends sha self arrival late (record { ready = ready; recv_buffer = buffer; world = w })
        v)

pub Move-Effect :
    {sha : Sha256} {c : Sender} {w : World} {conn : Conn} {w' : World} {conn' : Conn}
    → Move sha c w conn w' conn'
    → Inv w.node.peers
    → Effect c w conn w' conn'
unfolding open_connection drop_registered record_entry
Move-Effect {sha} {c} {w} (opens peer origin {registered = self} {w'} h eq) v =
    entering c w w' self _ _
      (open_connection-Entered peer origin c (with_channel c w) v self w' h eq) refl
      λ d ne.
        sym (ap (λ (q : (Registered ⊎ Refused) × World). q.1.channels d) eq)
        ∙ set_channel-ElsewhereSame c _ w.channels d ne
Move-Effect {sha} {c} {w} (refuses peer origin {refusal} {w'} h eq) v =
    quiet c w _ _ _
      (ap (λ (x : World). x.node.peers)
        (sym (open_connection-refused peer origin c (with_channel c w) v refusal w' eq)))
      refl
      λ d ne.
        set_channel-ElsewhereSame c (close (w'.channels c)) w'.channels d ne
        ∙ sym (ap (λ (q : (Registered ⊎ Refused) × World). q.1.channels d) eq)
        ∙ set_channel-ElsewhereSame c _ w.channels d ne
Move-Effect {sha} {c} {w} (set_up_fails true) v =
    quiet c w _ _ _ refl refl (set_channel-ElsewhereSame c (close (w.channels c)) w.channels)
Move-Effect {sha} {c} {w} (set_up_fails false) v =
    quiet c w _ _ _ refl refl (set_channel-ElsewhereSame c (close (w.channels c)) w.channels)
Move-Effect {sha} {c} {w} sets_up v = quiet c w _ _ _ refl refl λ d ne. refl
Move-Effect {sha} {c} {w}
      (reads {registered = self} {ready} {buffer} {writer} {shut} arrival late {r} last eq) v =
    let t = turned sha self ready buffer w arrival late _ v eq in
    tending c w r.world _ _ self refl t (kept refl t.shrinks.next_id)
Move-Effect {sha} {c} {w}
      (stops_reading {registered = self} {ready} {buffer} {writer} {shut} arrival late {result} {w'}
        last eq)
      v =
    let t = turned sha self ready buffer w arrival late _ v eq in
    tending c w w' _ _ self refl t (kept refl t.shrinks.next_id)
Move-Effect {sha} {c} {w} (drops {registered = self} present) v =
    let t = drop_registered-Tends self w v in
    tending c w (drop_registered self w) _ _ self refl t (let_go refl t.shrinks.next_id)
Move-Effect {sha} {c} {w} (unwinds {registered = self} result) v =
    let t = drop_registered-Tends self w v in
    reported-quiet c self.address result w (drop_registered self w) _ _
      (tending c w (drop_registered self w) _ _ self refl t (let_go refl t.shrinks.next_id))
Move-Effect {sha} {c} {w} (writes {rest = rest} q) v =
    quiet c w _ _ _ refl refl
      (set_channel-ElsewhereSame c (record (w.channels c) { queued = rest }) w.channels)
Move-Effect {sha} {c} {w} write_fails v =
    quiet c w _ _ _ refl refl (set_channel-ElsewhereSame c (close (w.channels c)) w.channels)
Move-Effect {sha} {c} {w} (times_out q linked) v = quiet c w _ _ _ refl refl λ d ne. refl
Move-Effect {sha} {c} {w} (disconnects q x) v =
    quiet c w _ _ _ refl refl (set_channel-ElsewhereSame c (close (w.channels c)) w.channels)
Move-Effect {sha} {c} {w} (joins peer result) v =
    reported-quiet c peer result w w _ _ (quiet c w w _ _ refl refl λ d ne. refl)
