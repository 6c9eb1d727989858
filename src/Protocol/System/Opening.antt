-- ===== src/Protocol/System/Opening.antt =====
-- How `Registered::open` ends.
use avicoin.Prelude.{
  ◌+◌, ◌^◌, ◌<◌, ◌≡◌, ◌≢◌, ◌⊎◌, inl, inr, refl, subst, sym, ap, ◌∙◌, none, some, ◌&&◌, leb, length,
  Bool-cases, arith,
}
use avicoin.Net.{SocketAddr, Sender}
use avicoin.Node.Peers.{
  PeerId, PeerHandle, PeerTable, Origin, Refused, Registration, registered, refused, is_dialled,
  has_dialled, max_peers, get, register,
}
use avicoin.Node.Peers.Invariant.{Inv, register-Inv}
use avicoin.Node.Peers.Delivery.{RegisterOutcome, enters, full, twice, register_lem}
use avicoin.Protocol.Session.{World, Registered, opened, open_connection, with_peers}

-- A connection that was opened has an entry of its own, and only that is new.
pub record Entered (c : Sender) (w : World) (self : Registered) (w' : World) : Type 0 where
  pub inv : Inv w'.node.peers
  pub fresh : self.id ≡ w.node.peers.next_id
  pub next : w'.node.peers.next_id ≡ w.node.peers.next_id + 1
  pub missing : get self.id w.node.peers.peers ≡ none
  pub entry : PeerHandle
  pub entered : get self.id w'.node.peers.peers ≡ some entry
  pub leads : entry.outbound ≡ c
  pub others : (j : PeerId) → j ≢ self.id → get j w'.node.peers.peers ≡ get j w.node.peers.peers

-- A registration takes the next id.
abbrev NextId : PeerTable → PeerTable → Registration → Type 0
NextId t t' (registered id) = (id ≡ t.next_id) × (t'.next_id ≡ t.next_id + 1)
NextId t t' (refused refusal) = Unit {0}

register-NextId :
    (address : SocketAddr) (origin : Origin) (outbound : Sender) (t : PeerTable)
    → t.next_id + 1 < 2 ^ 64
    → NextId t (register address origin outbound t).1 (register address origin outbound t).0
unfolding register
register-NextId address origin outbound t h =
    elim (Bool-cases (is_dialled origin && has_dialled address t.peers)) [
      | inl again ↦ rw (again, register) tt
      | inr once ↦ elim (Bool-cases (leb max_peers (length t.peers))) [
        | inl no_room ↦ rw (once, register) (rw (no_room, register) tt)
        | inr room ↦ rw (once, register) (rw (room, register) (refl, omega arith))
      ]
    ]

module _ (peer : SocketAddr) (origin : Origin) (c : Sender) (w : World) where
  Entered-from :
      (r : Registration) (t : PeerTable) (self : Registered)
      → RegisterOutcome peer origin c w.node.peers t r
      → opened peer r ≡ inl self
      → NextId w.node.peers t r
      → Inv t
      → Entered c w self (with_peers w t)
  Entered-from _ t self (enters id missing here others room undialled more) e (same, next) v =
      let is_self : record { id = id; address = peer } ≡ self = cc e in
      subst (λ (q : Registered). Entered c w q (with_peers w t)) is_self
        (record {
          inv = v;
          fresh = same;
          next = next;
          missing = missing;
          entry = _;
          entered = here;
          leads = refl;
          others = others;
        })
  Entered-from _ t self (full h same) e n v = cc
  Entered-from _ t self (twice d h same) e n v = cc

  refused_from :
      (r : Registration) (t : PeerTable) (refusal : Refused)
      → RegisterOutcome peer origin c w.node.peers t r
      → opened peer r ≡ inr refusal
      → t ≡ w.node.peers
  refused_from _ t refusal (enters id missing here others room undialled more) e = cc
  refused_from _ t refusal (full h same) e = same
  refused_from _ t refusal (twice d h same) e = same

  module _ (v : Inv w.node.peers) where
    pub open_connection-Entered :
        (self : Registered) (w' : World)
        → w.node.peers.next_id + 1 < 2 ^ 64
        → open_connection peer origin c w ≡ (inl self, w')
        → Entered c w self w'
    unfolding open_connection
    open_connection-Entered self w' h e =
        subst (Entered c w self) (ap (λ (q : (Registered ⊎ Refused) × World). q.1) e) (
          Entered-from (register peer origin c w.node.peers).0
            (register peer origin c w.node.peers).1 self (register_lem peer origin c w.node.peers v)
            (ap (λ (q : (Registered ⊎ Refused) × World). q.0) e)
            (register-NextId peer origin c w.node.peers h)
            (register-Inv peer origin c w.node.peers h v))

    pub open_connection-refused :
        (refusal : Refused) (w' : World)
        → open_connection peer origin c w ≡ (inr refusal, w')
        → w ≡ w'
    unfolding open_connection
    open_connection-refused refusal w' e =
        ap (with_peers w) (
          sym (
            refused_from (register peer origin c w.node.peers).0
              (register peer origin c w.node.peers).1 refusal
              (register_lem peer origin c w.node.peers v)
              (ap (λ (q : (Registered ⊎ Refused) × World). q.0) e)))
        ∙ ap (λ (q : (Registered ⊎ Refused) × World). q.1) e
