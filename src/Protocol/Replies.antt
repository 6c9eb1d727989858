-- ===== src/Protocol/Replies.antt =====
-- What a message makes of the peer that sent it and of what waits to be sent to it.
use avicoin.Prelude.{◌≡◌, refl, ap, true, some, [], length, append-nil, subst}
use avicoin.Outcome.{ok}
use avicoin.Words.{Bytes, IsU64}
use avicoin.Util.{Sha256}
use avicoin.Net.{accepts, enqueue, set_channel, try_send}
use avicoin.Messages.Kinds.{
  Payload, Ping, Pong, Ping-Payload, Pong-Payload, Version-Payload, Verack-Payload, new_pong,
}
use avicoin.Messages.{
  Message, MessageReceived, ping_message, pong_message, framed, try_parse_message,
}
use avicoin.Messages.Carried.{Carried}
use avicoin.Messages.Exchange.{pong-Carried}
use avicoin.Node.{record_entry}
use avicoin.Node.Handshake.{
  Handshake, HandshakeEvent, awaiting_version, awaiting_verack, ready, is_ready,
}
use avicoin.Node.Handshake
use avicoin.Node.Peers.{PeerHandle, get, assign, send_to, advance_handshake}
use avicoin.Node.Peers.Shrinks.{get-assign_self}
use avicoin.Protocol.{handle_messages}
use avicoin.Protocol.Session.{World, Registered, ping_received, log, with_peers, deliver, advance}

pub framed-Carried :
    {T : Type 0} ⦃P : Payload T⦄ (sha : Sha256) (payload : T)
    (received_as : Message T → MessageReceived) (c : Carried sha payload received_as)
    → framed sha payload ≡ ok c.bytes
framed-Carried sha payload received_as c = rw (c.made) c.printed

-- The message is the last in the peer's queue.
abbrev pub queueing : PeerHandle → Bytes → World → World
queueing p message w = record w {
  channels = set_channel p.outbound (enqueue message (w.channels p.outbound)) w.channels;
}

-- The peer's handshake is another.
abbrev pub advanced_to : Registered → PeerHandle → Handshake → World → World
advanced_to self p h w =
    with_peers w (record w.node.peers {
      peers = assign self.id (record p { handshake = h }) w.node.peers.peers;
    })

module _ (self : Registered) (p : PeerHandle) (w : World)
    (e : get self.id w.node.peers.peers ≡ some p) where
  pub deliver_room :
      (message : Bytes)
      → accepts (w.channels p.outbound) ≡ true
      → deliver self message w ≡ (ok tt, queueing p message w)
  unfolding deliver send_to try_send
  deliver_room message room = rw (e, send_to) (rw (room, try_send) refl)

  pub advance_peer :
      (event : HandshakeEvent) (h : Handshake)
      → Handshake.advance p.handshake event ≡ ok h
      → advance self event w ≡ (ok h, advanced_to self p h w)
  unfolding advance advance_handshake
  advance_peer event h accepted = rw (e, advance_handshake) (rw (accepted, advance_handshake) refl)

  pub advanced_to-get :
      (h : Handshake)
      → get self.id (advanced_to self p h w).node.peers.peers ≡ some (record p { handshake = h })
  advanced_to-get h = get-assign_self self.id p _ w.node.peers.peers e

module _ (self : Registered) (p : PeerHandle) (w : World)
    (e : get self.id w.node.peers.peers ≡ some p) where
  -- A ping is answered: where the queue of the peer has room, a pong with the ping's nonce is the last
  -- message in it, whole and on its own, and the peer table is as it was.
  pub ping-answered :
      (sha : Sha256) (ping : Message Ping)
      → IsU64 ping.payload.nonce
      → accepts (w.channels p.outbound) ≡ true
      → (reply : Bytes) × (pong : Message Pong) × (handle_messages sha self (ping_message ping) w
          ≡ (ok tt, queueing p reply (log (ping_received ping) w)))
        × (try_parse_message sha reply ≡ ok (some (pong_message pong), length reply))
        × (pong.payload.nonce ≡ ping.payload.nonce)
  unfolding handle_messages new_pong record_entry
  ping-answered sha ping h room =
      let c = pong-Carried sha (record { nonce = ping.payload.nonce }) h in
      (
        c.bytes,
        c.message,
        rw (framed-Carried sha (record { nonce = ping.payload.nonce }) pong_message c)
            (deliver_room self p (log (ping_received ping) w) e c.bytes room),
        subst (λ bs. try_parse_message sha bs ≡ ok (some (pong_message c.message), length c.bytes))
            (append-nil c.bytes) (c.parsed []),
        ap (λ (x : Pong). x.nonce) c.unchanged,
      )
