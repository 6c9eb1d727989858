-- ===== src/Protocol/Greeting.antt =====
-- The handshake from the bytes that a peer sends: its version and its verack, in whatever chunks.
use avicoin.Prelude.{
  ℕ, suc, ◌≡◌, refl, ap, sym, subst, ◌∙◌, true, Option, some, List, [], ◌∷◌, ◌++◌, length, drop_all,
  append-nil, append_assoc,
}
use avicoin.Outcome.{Result, ok}
use avicoin.Words.{Bytes}
use avicoin.Util.{Sha256}
use avicoin.Net.{accepts, enqueue, set_channel}
use avicoin.Messages.Kinds.{Payload, Version, verack, Version-Payload, Verack-Payload}
use avicoin.Messages.{
  Message, MessageReceived, version_message, verack_message, framed, try_parse_message,
}
use avicoin.Messages.RoundTrip.{IsVersion}
use avicoin.Messages.Carried.{Carried}
use avicoin.Messages.Exchange.{version-Carried, verack-Carried}
use avicoin.Node.{record_entry}
use avicoin.Node.Handshake.{HandshakeEvent, awaiting_version, awaiting_verack, ready, is_ready}
use avicoin.Node.Handshake
use avicoin.Node.Peers.{PeerHandle, get, handshake_of}
use avicoin.Protocol.{handle_messages, Drained, drain, process_incoming_bytes, continued}
use avicoin.Protocol.Buffer.{process_incoming_bytes-append}
use avicoin.Protocol.Session.{World, Registered, speaks, handshake_complete, log, is_settled}
use avicoin.Protocol.Replies.{
  framed-Carried, queueing, advanced_to, deliver_room, advance_peer, advanced_to-get,
}

abbrev pub whole_of : List Bytes → Bytes
whole_of [] = []
whole_of (chunk ∷ chunks) = chunk ++ whole_of chunks

module _ {S : Type 0} (sha : Sha256) (handle : MessageReceived → S → Result (Unit {0}) × S) where
  -- The receive loop on one chunk after the other.
  abbrev pub receive_all : List Bytes → Option (Drained S) → Option (Drained S)
  receive_all [] d = d
  receive_all (chunk ∷ chunks) d = receive_all chunks (continued sha handle d chunk)

  drain_one :
      (fuel : ℕ) (bytes : Bytes) (m : MessageReceived) (s s' : S)
      → try_parse_message sha bytes ≡ ok (some m, length bytes)
      → handle m s ≡ (ok tt, s')
      → drain sha handle (suc (suc fuel)) bytes s ≡ some (ok tt, [], s')
  unfolding drain try_parse_message
  drain_one fuel bytes m s s' e h = rw (e, h, drop_all bytes) refl

  -- Bytes that are one message are handled, and nothing of them is left.
  process_one :
      (bytes : Bytes) (m : MessageReceived) (s s' : S)
      → try_parse_message sha bytes ≡ ok (some m, length bytes)
      → handle m s ≡ (ok tt, s')
      → process_incoming_bytes sha handle [] s bytes ≡ some (ok tt, [], s')
  unfolding process_incoming_bytes try_parse_message
  process_one [] m s s' e h = cc
  process_one (b ∷ bytes) m s s' e h = drain_one (length bytes) (b ∷ bytes) m s s' e h

  receive_all-append :
      (chunks : List Bytes) (s : S) (front : Bytes)
      → receive_all chunks (process_incoming_bytes sha handle [] s front)
        ≡ process_incoming_bytes sha handle [] s (front ++ whole_of chunks)
  receive_all-append [] s front =
      ap (process_incoming_bytes sha handle [] s) (sym (append-nil front))
  receive_all-append (chunk ∷ chunks) s front =
      ap (receive_all chunks) (sym (process_incoming_bytes-append sha handle [] front chunk s))
      ∙ receive_all-append chunks s (front ++ chunk)
      ∙ ap (process_incoming_bytes sha handle [] s) (append_assoc front chunk (whole_of chunks))

  -- One message, in any chunks.
  pub receive_one :
      (bytes : Bytes) (m : MessageReceived) (s s' : S) (chunks : List Bytes)
      → try_parse_message sha bytes ≡ ok (some m, length bytes)
      → handle m s ≡ (ok tt, s')
      → whole_of chunks ≡ bytes
      → receive_all chunks (some (ok tt, [], s)) ≡ some (ok tt, [], s')
  unfolding process_incoming_bytes drain try_parse_message
  receive_one bytes m s s' chunks e h w =
      receive_all-append chunks s []
      ∙ ap (process_incoming_bytes sha handle [] s) w
      ∙ process_one bytes m s s' e h

  -- Two messages, in any chunks.
  pub receive_two :
      (first second : Bytes) (m n : MessageReceived) (s s' s'' : S) (chunks : List Bytes)
      → try_parse_message sha first ≡ ok (some m, length first)
      → try_parse_message sha second ≡ ok (some n, length second)
      → handle m s ≡ (ok tt, s')
      → handle n s' ≡ (ok tt, s'')
      → whole_of chunks ≡ first ++ second
      → receive_all chunks (some (ok tt, [], s)) ≡ some (ok tt, [], s'')
  unfolding process_incoming_bytes drain try_parse_message
  receive_two first second m n s s' s'' chunks e e' h h' w =
      receive_all-append chunks s []
      ∙ ap (process_incoming_bytes sha handle [] s) w
      ∙ process_incoming_bytes-append sha handle [] first second s
      ∙ ap (λ d. continued sha handle d second) (process_one first m s s' e h)
      ∙ process_one second n s' s'' e' h'

module _ (sha : Sha256) (self : Registered) (p : PeerHandle) (w : World) where
  abbrev identified : World
  identified = advanced_to self p awaiting_verack w

  pub handles_version :
      (version : Message Version) (reply : Bytes)
      → get self.id w.node.peers.peers ≡ some p
      → p.handshake ≡ awaiting_version
      → accepts (w.channels p.outbound) ≡ true
      → framed sha verack ≡ ok reply
      → handle_messages sha self (version_message version) w ≡ (
        ok tt,
        queueing p reply (
            log
              (speaks self.address version.payload.protocol_version version.payload.listen_address)
              identified),
      )
  unfolding handle_messages record_entry Handshake.advance
  handles_version version reply e h room r =
      rw
        (
          advance_peer self p w e HandshakeEvent.version awaiting_verack
              (ap (λ x. Handshake.advance x HandshakeEvent.version) h),
          r,
        )
        (deliver_room self (record p { handshake = awaiting_verack }) _
          (advanced_to-get self p w e awaiting_verack) reply room)

  pub handles_verack :
      get self.id w.node.peers.peers ≡ some p
      → p.handshake ≡ awaiting_verack
      → handle_messages sha self verack_message w
        ≡ (ok tt, log (handshake_complete self.address) (advanced_to self p ready w))
  unfolding handle_messages Handshake.advance
  handles_verack e h =
      rw
        (advance_peer self p w e HandshakeEvent.verack ready
          (ap (λ x. Handshake.advance x HandshakeEvent.verack) h))
        refl

-- The bytes of a message, with nothing behind them.
pub alone :
    {T : Type 0} ⦃P : Payload T⦄ (sha : Sha256) (payload : T)
    (received_as : Message T → MessageReceived) (c : Carried sha payload received_as)
    (bytes : Bytes)
    → framed sha payload ≡ ok bytes
    → try_parse_message sha bytes ≡ ok (some (received_as c.message), length bytes)
alone sha payload received_as c bytes e =
    let same : bytes ≡ c.bytes = cc (e, framed-Carried sha payload received_as c) in
    subst (λ bs. try_parse_message sha bs ≡ ok (some (received_as c.message), length bs))
      (append-nil c.bytes ∙ sym same)
      (subst (λ n. try_parse_message sha (c.bytes ++ []) ≡ ok (some (received_as c.message), n))
        (ap length (sym (append-nil c.bytes))) (c.parsed []))

pub settled_if :
    (self : Registered) (p : PeerHandle) (w : World)
    → get self.id w.node.peers.peers ≡ some p
    → p.handshake ≡ ready
    → is_settled self w ≡ true
unfolding is_settled handshake_of is_ready
settled_if self p w e h = rw (e, h) refl

-- Where a peer of the table has sent nothing yet and its queue has room, the version and the verack of
-- another node make it ready, in whatever chunks their bytes arrive: the receive loop ends well with
-- nothing left in its buffer, and a verack is the last message in the peer's queue.
pub greeting_settles :
    (sha : Sha256) (self : Registered) (p : PeerHandle) (w : World) (theirs : Version)
    (opening acknowledgement : Bytes) (chunks : List Bytes)
    → IsVersion theirs
    → framed sha theirs ≡ ok opening
    → framed sha verack ≡ ok acknowledgement
    → whole_of chunks ≡ opening ++ acknowledgement
    → get self.id w.node.peers.peers ≡ some p
    → p.handshake ≡ awaiting_version
    → accepts (w.channels p.outbound) ≡ true
    → (w' : World) × (receive_all sha (handle_messages sha self) chunks (some (ok tt, [], w))
        ≡ some (ok tt, [], w'))
      × (is_settled self w' ≡ true)
      × (w'.channels
          ≡ set_channel p.outbound (enqueue acknowledgement (w.channels p.outbound)) w.channels)
unfolding record_entry
greeting_settles sha self p w theirs opening acknowledgement chunks v e e' all entry h room =
    let c = version-Carried sha theirs v in
    let d = verack-Carried sha in
    let p' : PeerHandle = record p { handshake = awaiting_verack } in
    let w1 : World = queueing p acknowledgement (
      log (speaks self.address c.message.payload.protocol_version c.message.payload.listen_address)
        (advanced_to self p awaiting_verack w)) in
    let entry' : get self.id w1.node.peers.peers ≡ some p' =
      advanced_to-get self p w entry awaiting_verack in
    (
      log (handshake_complete self.address) (advanced_to self p' ready w1),
      receive_two sha (handle_messages sha self) opening acknowledgement (version_message c.message)
          verack_message w w1 _ chunks (alone sha theirs version_message c opening e)
          (alone sha verack (λ m. verack_message) d acknowledgement e')
          (handles_version sha self p w c.message acknowledgement entry h room e')
          (handles_verack sha self p' w1 entry' refl) all,
      settled_if self (record p' { handshake = ready }) _ (advanced_to-get self p' w1 entry' ready)
          refl,
      refl,
    )
