-- ===== src/Protocol/OneEnd.antt =====
-- One end of a connection between two nodes: what it writes, and what it makes of what the other end
-- writes.
use avicoin.Prelude.{
  ℕ, ◌<◌, ◌≤◌, ◌≡◌, refl, ap, ◌∙◌, true, some, List, [], ◌∷◌, ◌++◌, length, lt→ltb, arith,
}
use avicoin.Outcome.{ok}
use avicoin.Words.{Bytes, IsU64}
use avicoin.Util.{Sha256}
use avicoin.Net.{Sender, Channel, Channels, accepts, enqueue, set_channel}
use avicoin.Messages.Kinds.{
  Version, Ping, Pong, verack, new_ping, new_pong, Version-Payload, Verack-Payload, Ping-Payload,
  Pong-Payload,
}
use avicoin.Messages.{Message, version_message, verack_message, ping_message, pong_message, framed}
use avicoin.Messages.RoundTrip.{IsVersion}
use avicoin.Messages.Exchange.{version-Carried, verack-Carried, ping-Carried, pong-Carried}
use avicoin.Node.{record_entry}
use avicoin.Node.Handshake.{awaiting_version, awaiting_verack, ready}
use avicoin.Node.Peers.{PeerHandle, get}
use avicoin.Protocol.{handle_messages}
use avicoin.Protocol.Session.{
  World, Registered, speaks, handshake_complete, ping_received, pong_received, log, is_settled,
}
use avicoin.Protocol.Replies.{queueing, advanced_to, advanced_to-get, deliver_room}
use avicoin.Protocol.Greeting.{
  whole_of, receive_all, receive_two, alone, handles_version, handles_verack, settled_if,
}

-- A connection on which nothing has happened yet: its peer waits for a version, and its queue is empty
-- and has room for two messages.
pub record Fresh (self : Registered) (p : PeerHandle) (w : World) : Type 0 where
  pub entry : get self.id w.node.peers.peers ≡ some p
  pub waits : p.handshake ≡ awaiting_version
  pub live : (w.channels p.outbound).connected ≡ true
  pub room : 2 ≤ (w.channels p.outbound).capacity
  pub idle : (w.channels p.outbound).queued ≡ []

-- The messages of a node at its end: its version, its first ping, its verack, and its pong to a ping of
-- the other.
pub record Says (sha : Sha256) (version : Version) (nonce answered : ℕ) : Type 0 where
  pub opening : Bytes
  pub ping : Bytes
  pub acknowledgement : Bytes
  pub pong : Bytes
  pub opens : framed sha version ≡ ok opening
  pub pings : framed sha (new_ping nonce) ≡ ok ping
  pub acknowledges : framed sha verack ≡ ok acknowledgement
  pub pongs : framed {T = Pong} sha (record { nonce = answered }) ≡ ok pong

-- Its writer has taken all of the queue.
abbrev pub flushed : PeerHandle → World → World
flushed p w = record w {
  channels = set_channel p.outbound (record (w.channels p.outbound) { queued = [] }) w.channels;
}

pub set_channel_self :
    (c : Sender) (channel : Channel) (cs : Channels) → set_channel c channel cs c ≡ channel
set_channel_self c channel cs = ground arith

accepts_room : (c : Channel) → c.connected ≡ true → length c.queued < c.capacity → accepts c ≡ true
accepts_room c live room = rw (live) (lt→ltb (length c.queued) c.capacity room)

module _ (sha : Sha256) (self : Registered) (p : PeerHandle) where
  -- The world that the chunks leave, with none of their bytes left over.
  pub record Receives (chunks : List Bytes) (w w' : World) : Type 0 where
    pub received :
        receive_all sha (handle_messages sha self) chunks (some (ok tt, [], w))
        ≡ some (ok tt, [], w')

  abbrev pub queue_of : World → List Bytes
  queue_of w = (w.channels p.outbound).queued

  queueing-channel :
      (message : Bytes) (w : World)
      → (queueing p message w).channels p.outbound ≡ enqueue message (w.channels p.outbound)
  queueing-channel message w =
      set_channel_self p.outbound (enqueue message (w.channels p.outbound)) w.channels

  handles_ping :
      (q : PeerHandle) (w : World) (ping : Message Ping) (reply : Bytes)
      → get self.id w.node.peers.peers ≡ some q
      → accepts (w.channels q.outbound) ≡ true
      → framed {T = Pong} sha (record { nonce = ping.payload.nonce }) ≡ ok reply
      → handle_messages sha self (ping_message ping) w
        ≡ (ok tt, queueing q reply (log (ping_received ping) w))
  unfolding handle_messages new_pong record_entry
  handles_ping q w ping reply e room r =
      rw (r) (deliver_room self q (log (ping_received ping) w) e reply room)

  handles_pong :
      (w : World) (pong : Message Pong)
      → handle_messages sha self (pong_message pong) w ≡ (ok tt, log (pong_received pong) w)
  unfolding handle_messages
  handles_pong w pong = refl

  -- Behind the version and the ping of the other node: what is queued is a verack and a pong.
  pub record Identified (acknowledgement pong : Bytes) (w' : World) : Type 0 where
    pub entry : get self.id w'.node.peers.peers ≡ some (record p { handshake = awaiting_verack })
    pub queue : queue_of w' ≡ acknowledgement ∷ pong ∷ []

  module _ (w : World) (theirs : Version) (their_nonce our_nonce : ℕ)
      (s : Says sha theirs their_nonce our_nonce) where
    pub identifies :
        (pong : Bytes) (chunks : List Bytes)
        → Fresh self p w
        → IsVersion theirs
        → IsU64 their_nonce
        → framed {T = Pong} sha (record { nonce = their_nonce }) ≡ ok pong
        → whole_of chunks ≡ s.opening ++ s.ping
        → (w' : World) × Receives chunks w w' × Identified s.acknowledgement pong w'
    unfolding record_entry new_ping
    identifies pong chunks f v n e all =
        let c = version-Carried sha theirs v in
        let d = ping-Carried sha (new_ping their_nonce) n in
        let p' : PeerHandle = record p { handshake = awaiting_verack } in
        let w0 : World = advanced_to self p awaiting_verack w in
        let w1 : World = queueing p s.acknowledgement (
          log
            (speaks self.address c.message.payload.protocol_version
              c.message.payload.listen_address)
            w0) in
        let entry' : get self.id w1.node.peers.peers ≡ some p' =
          advanced_to-get self p w f.entry awaiting_verack in
        let one : w1.channels p.outbound ≡ enqueue s.acknowledgement (w.channels p.outbound) =
          queueing-channel s.acknowledgement w0 in
        let first : queue_of w1 ≡ s.acknowledgement ∷ [] =
          ap (λ (x : Channel). x.queued) one ∙ ap (λ q. q ++ s.acknowledgement ∷ []) f.idle in
        let w2 : World = queueing p' pong (log (ping_received d.message) w1) in
        (
          w2,
          record {
            received =
                receive_two sha (handle_messages sha self) s.opening s.ping
                  (version_message c.message) (ping_message d.message) w w1 w2 chunks
                  (alone sha theirs version_message c s.opening s.opens)
                  (alone sha (new_ping their_nonce) ping_message d s.ping s.pings)
                  (handles_version sha self p w c.message s.acknowledgement f.entry f.waits
                    (accepts_room (w.channels p.outbound) f.live
                      (omega (arith, f.room, ap length f.idle)))
                    s.acknowledges)
                  (handles_ping p' w1 d.message pong entry'
                    (accepts_room (w1.channels p.outbound)
                      (ap (λ (x : Channel). x.connected) one ∙ f.live)
                      (omega
                        (arith, f.room, ap length first, ap (λ (x : Channel). x.capacity) one)))
                    (ap (λ (x : Ping). framed {T = Pong} sha (record { nonce = x.nonce }))
                        d.unchanged
                      ∙ e))
                  all;
          },
          record {
            entry = entry';
            queue =
                ap (λ (x : Channel). x.queued) (queueing-channel pong w1)
                ∙ ap (λ q. q ++ pong ∷ []) first;
          },
        )

    pub settles :
        (chunks : List Bytes)
        → get self.id w.node.peers.peers ≡ some (record p { handshake = awaiting_verack })
        → IsU64 our_nonce
        → whole_of chunks ≡ s.acknowledgement ++ s.pong
        → (w' : World) × Receives chunks w w'
          × (is_settled self w' ≡ true)
          × (queue_of w' ≡ queue_of w)
    unfolding record_entry
    settles chunks entry n all =
        let c = pong-Carried sha (record { nonce = our_nonce }) n in
        let p' : PeerHandle = record p { handshake = awaiting_verack } in
        let w1 : World = log (handshake_complete self.address) (advanced_to self p' ready w) in
        (
          log (pong_received c.message) w1,
          record {
            received =
                receive_two sha (handle_messages sha self) s.acknowledgement s.pong verack_message
                  (pong_message c.message) w w1 _ chunks
                  (alone sha verack (λ m. verack_message) (verack-Carried sha) s.acknowledgement
                    s.acknowledges)
                  (alone sha (record { nonce = our_nonce }) pong_message c s.pong s.pongs)
                  (handles_verack sha self p' w entry refl) (handles_pong w1 c.message) all;
          },
          settled_if self (record p' { handshake = ready }) _
              (advanced_to-get self p' w entry ready) refl,
          refl,
        )
