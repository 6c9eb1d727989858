-- ===== src/Protocol/System/Owners.antt =====
-- Whose the peers in the table are.
use avicoin.Prelude.{◌≡◌, ◌≢◌, sym, ap, subst, ◌∙◌, Option, none, some, arith}
use native.Mathlib.Decide.{ℕ_discrete}
use avicoin.Net.{Sender}
use avicoin.Node.Peers.{PeerId, PeerHandle, PeerTable, get}
use avicoin.Node.Peers.Invariant.{Inv}
use avicoin.Node.Peers.Shrinks.{Shrinks, Unlinked}
use avicoin.Protocol.Session.{World, Registered}
use avicoin.Protocol.System.{
  Reader, unborn, joining, ended, opened, leaving, reading, Writer, absent, Conn, System, set_conn,
}
use avicoin.Protocol.System.Opening.{Entered}

-- The id that a thread's registration holds.
abbrev pub held : Reader → Option PeerId
held unborn = none
held joining = none
held ended = none
held (opened self) = some self.id
held (leaving self) = some self.id
held (reading self ready buffer) = some self.id

-- A reader that waits for its writer has one.
abbrev pub Fits : Reader → Writer → Type 0
Fits joining writer = writer ≢ absent
Fits (reading self ready buffer) writer = writer ≢ absent
Fits reader writer = Unit {0}

abbrev pub Holders : PeerTable → (Sender → Conn) → Type 0
Holders t conns =
    (i : PeerId) (p : PeerHandle) → get i t.peers ≡ some p → held (conns p.outbound).reader ≡ some i

-- The table is well formed, and each of its peers is held by the live connection whose channel it has.
pub record Owned (s : System) : Type 0 where
  pub inv : Inv s.world.node.peers
  pub owner : Holders s.world.node.peers s.conns
  pub fits : (c : Sender) → Fits (s.conns c).reader (s.conns c).writer

module _ (c : Sender) (conn' : Conn) (conns : Sender → Conn) where
  pub set_conn_self : (d : Sender) → d ≡ c → set_conn c conn' conns d ≡ conn'
  set_conn_self d e = ground arith

  pub set_conn_ne : (d : Sender) → d ≢ c → set_conn c conn' conns d ≡ conns d
  set_conn_ne d e = ground arith

  -- Connection `c` has moved, and its channel has no peer in the table.
  pub owner-Unlinked :
      (t t' : PeerTable)
      → Holders t conns
      → Shrinks t t'
      → Unlinked c t'
      → Holders t' (set_conn c conn' conns)
  owner-Unlinked t t' owner h u i p' e' =
      let (p, e, s, d) = h.entries i p' e' in
      ap (λ (x : Conn). held x.reader) (set_conn_ne p'.outbound (u i p' e'))
      ∙ ap (λ x. held (conns x).reader) s
      ∙ owner i p e

  -- It has moved, and holds what it held.
  pub owner_same :
      (t t' : PeerTable)
      → Holders t conns
      → Shrinks t t'
      → held conn'.reader ≡ held (conns c).reader
      → Holders t' (set_conn c conn' conns)
  owner_same t t' owner h same i p' e' =
      let (p, e, s, d) = h.entries i p' e' in
      elim (ℕ_discrete p'.outbound c) [
        | yes mine ↦
            ap (λ (x : Conn). held x.reader) (set_conn_self p'.outbound mine)
            ∙ same
            ∙ ap (λ x. held (conns x).reader) (sym mine ∙ s)
            ∙ owner i p e
        | no other ↦
            ap (λ (x : Conn). held x.reader) (set_conn_ne p'.outbound other)
            ∙ ap (λ x. held (conns x).reader) s
            ∙ owner i p e
      ]

  -- What a connection held was the only entry with its channel.
  pub dropped_Unlinked :
      (self : Registered) (t t' : PeerTable)
      → Holders t conns
      → Shrinks t t'
      → held (conns c).reader ≡ some self.id
      → get self.id t'.peers ≡ none
      → Unlinked c t'
  dropped_Unlinked self t t' owner h mine gone i p' e' leads =
      let (p, e, s, d) = h.entries i p' e' in
      let at_c : held (conns c).reader ≡ some i =
        ap (λ x. held (conns x).reader) (sym leads ∙ s) ∙ owner i p e in
      let same : self.id ≡ i = cc (mine, at_c) in cc (e', gone, ap (λ k. get k t'.peers) same)

  -- A connection without a registration has no entry.
  pub idle_Unlinked :
      (t : PeerTable) → Holders t conns → held (conns c).reader ≡ none → Unlinked c t
  idle_Unlinked t owner mine i p e leads =
      cc (owner i p e, ap (λ x. held (conns x).reader) leads, mine)

  pub owner-Entered :
      (w w' : World) (self : Registered)
      → Holders w.node.peers conns
      → held (conns c).reader ≡ none
      → Entered c w self w'
      → held conn'.reader ≡ some self.id
      → Holders w'.node.peers (set_conn c conn' conns)
  owner-Entered w w' self owner mine en holds i p' e' = elim (ℕ_discrete i self.id) [
    | yes same ↦
        let is_entry : p' ≡ en.entry =
          cc (e', en.entered, ap (λ k. get k w'.node.peers.peers) same) in
        ap (λ (x : Conn). held x.reader)
          (set_conn_self p'.outbound (ap (λ (q : PeerHandle). q.outbound) is_entry ∙ en.leads))
        ∙ holds
        ∙ ap some (sym same)
    | no other ↦
        let before : get i w.node.peers.peers ≡ some p' = sym (en.others i other) ∙ e' in
        ap (λ (x : Conn). held x.reader)
          (set_conn_ne p'.outbound (idle_Unlinked w.node.peers owner mine i p' before))
        ∙ owner i p' before
  ]

  pub Fits-set :
      ((d : Sender) → Fits (conns d).reader (conns d).writer)
      → Fits conn'.reader conn'.writer
      → (d : Sender) → Fits (set_conn c conn' conns d).reader (set_conn c conn' conns d).writer
  Fits-set all new d = elim (ℕ_discrete d c) [
    | yes e ↦ subst (λ (x : Conn). Fits x.reader x.writer) (sym (set_conn_self d e)) new
    | no ne ↦ subst (λ (x : Conn). Fits x.reader x.writer) (sym (set_conn_ne d ne)) (all d)
  ]
