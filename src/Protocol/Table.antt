-- ===== src/Protocol/Table.antt =====
-- What the handlers do to the peer table.
pub mod Turn
use avicoin.Prelude.{◌≡◌, ◌≢◌, sym, refl, ◌∙◌, Bool, true, false, Option, none, some, if◌then◌else◌}
use avicoin.Outcome.{Result, ok, err, panic, no_handshake}
use avicoin.Words.{Bytes}
use avicoin.Util.{Sha256}
use avicoin.Net.{Sender}
use avicoin.Messages.Kinds.{Verack-Payload, Pong-Payload, verack, new_pong}
use avicoin.Messages.{
  MessageReceived, ping_message, pong_message, version_message, verack_message, framed,
}
use avicoin.Node.{record_entry}
use avicoin.Node.Handshake.{HandshakeEvent}
use avicoin.Node.Peers.{PeerId, PeerHandle, PeerTable, remove, get}
use avicoin.Node.Peers.Delivery.{get-erase_self, get-erase_ne}
use avicoin.Node.Peers.Invariant.{Inv, send_to-Inv, advance_handshake-Inv, remove-Inv}
use avicoin.Node.Peers.Shrinks.{
  Shrinks, Shrinks-refl, Shrinks-trans, send_to-Shrinks, advance_handshake-Shrinks, remove-Shrinks,
  send_to-elsewhere, send_to-others, advance_handshake-others,
}
use avicoin.Node.Peers.Runs.{removes, advances, sends, step}
use avicoin.Node.Peers.Calls.{Concerns, Does, does, does_nothing, Does-trans}
use avicoin.Protocol.{Drained, handle_messages}
use avicoin.Protocol.Buffer.Keeps.{Holds, process_incoming_bytes-Holds}
use avicoin.Protocol.Session.{
  World, Act, and_then, ◌>>=◌, lift, linked, Registered, Entry, record_it, deliver, advance,
  ping_received, drop_registered, log, closed, is_settled,
}
use avicoin.Protocol.ReadLoop.{
  Arrival, end_of_stream, interrupted, would_block, timed_out, other, arrived, failed, Reading,
  Progress, goes_on, returns, out_of_fuel, check_deadline, processed, read_once,
}

module _ (self : Registered) where
  -- The peer of the connection, where the table has it, has another channel.
  abbrev pub Foreign : Sender → PeerTable → Type 0
  Foreign c t = (p : PeerHandle) → get self.id t.peers ≡ some p → p.outbound ≢ c

  -- `w'` comes after `w` by calls that the connection makes for its peer: its table is well formed and
  -- has no peer that the table of `w` has not, the peers of other connections are as they were, and so
  -- are their channels.
  pub record Tends (w w' : World) : Type 0 where
    pub inv : Inv w'.node.peers
    pub shrinks : Shrinks w.node.peers w'.node.peers
    pub others : (j : PeerId) → j ≢ self.id → get j w'.node.peers.peers ≡ get j w.node.peers.peers
    pub untouched : (c : Sender) → Foreign c w.node.peers → w'.channels c ≡ w.channels c
    pub calls : Does (Concerns self.id) (linked w) (linked w')

  pub Tends-refl : (w : World) → Inv w.node.peers → Tends w w
  Tends-refl w v = record {
    inv = v;
    shrinks = Shrinks-refl w.node.peers;
    others = λ j ne. refl;
    untouched = λ c h. refl;
    calls = does_nothing;
  }

  Shrinks-Foreign : (c : Sender) {t t' : PeerTable} → Shrinks t t' → Foreign c t → Foreign c t'
  Shrinks-Foreign c h u p' e' =
      let (p, e, s, d) = h.entries self.id p' e' in λ same. u p e (sym s ∙ same)

  pub Tends-trans : {u v w : World} → Tends u v → Tends v w → Tends u w
  Tends-trans a b = record {
    inv = b.inv;
    shrinks = Shrinks-trans a.shrinks b.shrinks;
    others = λ j ne. b.others j ne ∙ a.others j ne;
    untouched = λ c h. b.untouched c (Shrinks-Foreign c a.shrinks h) ∙ a.untouched c h;
    calls = Does-trans a.calls b.calls;
  }

  record KeepsTable {ℓ} {A : Type ℓ} (act : Act A) : Type 0 where
    keeps : (w : World) → Inv w.node.peers → Tends w (act w).1

  and_then-Tends {ℓ κ} :
      {A : Type ℓ} {B : Type κ} (next : A → Act B) (w : World) (q : Result A × World)
      → ((a : A) → KeepsTable (next a))
      → Tends w q.1
      → Tends w (and_then q next).1
  and_then-Tends next w (ok a, w') h t = Tends-trans t ((h a).keeps w' t.inv)
  and_then-Tends next w (err e, w') h t = t
  and_then-Tends next w (panic, w') h t = t

  KeepsTable-bind {ℓ κ} :
      {A : Type ℓ} {B : Type κ} (act : Act A) (next : A → Act B)
      → KeepsTable act
      → ((a : A) → KeepsTable (next a))
      → KeepsTable (act >>= next)
  KeepsTable-bind act next h h' = record {
    keeps = λ w v. and_then-Tends next w (act w) h' (h.keeps w v);
  }

  KeepsTable-lift {ℓ} : {A : Type ℓ} (m : Result A) → KeepsTable (lift m)
  KeepsTable-lift m = record { keeps = Tends-refl }

  pub log-Tends : (entry : Entry) (w : World) → Inv w.node.peers → Tends w (log entry w)
  unfolding record_entry
  log-Tends entry w v = record {
    inv = v;
    shrinks = Shrinks-refl w.node.peers;
    others = λ j ne. refl;
    untouched = λ c h. refl;
    calls = does_nothing;
  }

  KeepsTable-record : (entry : Entry) → KeepsTable (record_it entry)
  KeepsTable-record entry = record { keeps = log-Tends entry }

  KeepsTable-deliver : (message : Bytes) → KeepsTable (deliver self message)
  unfolding deliver step
  KeepsTable-deliver message = record {
    keeps = λ w v. record {
      inv = send_to-Inv self.id message (linked w) v;
      shrinks = send_to-Shrinks self.id message (linked w) v;
      others = send_to-others self.id message (linked w);
      untouched = λ c h. send_to-elsewhere self.id message (linked w) c h;
      calls = does (sends self.id message) refl does_nothing;
    };
  }

  KeepsTable-advance : (event : HandshakeEvent) → KeepsTable (advance self event)
  unfolding advance step
  KeepsTable-advance event = record {
    keeps = λ w v. record {
      inv = advance_handshake-Inv self.id event w.node.peers v;
      shrinks = advance_handshake-Shrinks self.id event w.node.peers;
      others = advance_handshake-others self.id event w.node.peers;
      untouched = λ c h. refl;
      calls = does (advances self.id event) refl does_nothing;
    };
  }

  handler-KeepsTable :
      (sha : Sha256) (message : MessageReceived) → KeepsTable (handle_messages sha self message)
  unfolding handle_messages
  handler-KeepsTable sha (version_message version) =
      KeepsTable-bind (advance self HandshakeEvent.version) _
        (KeepsTable-advance HandshakeEvent.version)
        (λ h. KeepsTable-bind (record_it _) _ (KeepsTable-record _) (λ u.
          KeepsTable-bind (lift (framed sha verack)) (deliver self) (KeepsTable-lift _)
            KeepsTable-deliver))
  handler-KeepsTable sha verack_message =
      KeepsTable-bind (advance self HandshakeEvent.verack) _
        (KeepsTable-advance HandshakeEvent.verack) (λ h. KeepsTable-record _)
  handler-KeepsTable sha (ping_message ping) =
      KeepsTable-bind (record_it (ping_received ping)) _ (KeepsTable-record _) (λ u.
        KeepsTable-bind (lift (new_pong ping.payload)) _ (KeepsTable-lift _) (λ pong.
          KeepsTable-bind (lift (framed sha pong)) (deliver self) (KeepsTable-lift _)
            KeepsTable-deliver))
  handler-KeepsTable sha (pong_message pong) = KeepsTable-record _

-- Whatever message a peer sends, in whatever state, its handler keeps the table well formed, and
-- brings no peer into it.
pub handle_messages-Tends :
    (sha : Sha256) (self : Registered) (message : MessageReceived) (w : World)
    → Inv w.node.peers
    → Tends self w (handle_messages sha self message w).1
handle_messages-Tends sha self message w v = (handler-KeepsTable self sha message).keeps w v

-- Whatever message a peer sends, in whatever state, its handler keeps the table well formed.
pub handle_messages-Inv :
    (sha : Sha256) (self : Registered) (message : MessageReceived) (w : World)
    → Inv w.node.peers
    → Inv (handle_messages sha self message w).1.node.peers
handle_messages-Inv sha self message w v = (handle_messages-Tends sha self message w v).inv

-- A dropped connection takes its peer out of a well-formed table, which stays well formed.
pub drop_registered-gone :
    (self : Registered) (w : World)
    → Inv w.node.peers
    → (get self.id (drop_registered self w).node.peers.peers ≡ none)
      × Inv (drop_registered self w).node.peers
unfolding drop_registered remove
drop_registered-gone self w v = (
  get-erase_self self.id w.node.peers.next_id w.node.peers.peers v.fresh,
  remove-Inv self.id w.node.peers v,
)

pub drop_registered-Tends :
    (self : Registered) (w : World) → Inv w.node.peers → Tends self w (drop_registered self w)
unfolding drop_registered remove step
drop_registered-Tends self w v = record {
  inv = remove-Inv self.id w.node.peers v;
  shrinks = remove-Shrinks self.id w.node.peers v;
  others = λ j ne. get-erase_ne self.id j w.node.peers.peers ne;
  untouched = λ c h. refl;
  calls = does (removes self.id) refl does_nothing;
}
