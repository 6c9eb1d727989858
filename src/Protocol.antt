-- ===== src/Protocol.antt =====
-- src/protocol.rs: the receive buffer of a connection and what each message makes the node do.
pub mod Session
pub mod Buffer
pub mod Table
pub mod Replies
pub mod Greeting
pub mod OneEnd
pub mod Pair
pub mod ReadLoop
pub mod WriteLoop
pub mod Connection
pub mod System
use avicoin.Prelude.{
  ℕ, zero, suc, ◌≡◌, Bool, true, false, Option, none, some, List, [], ◌∷◌, ◌++◌, drop, length,
}
use avicoin.Outcome.{Result, ok, err, panic}
use avicoin.Words.{Bytes}
use avicoin.Util.{Sha256}
use avicoin.Net.{SocketAddr}
use avicoin.Messages.Kinds.{
  Payload, Verack, verack, Ping, Pong, Version, new_pong, Verack-Payload, Pong-Payload,
}
use avicoin.Messages.{
  Message, MessageReceived, ping_message, pong_message, version_message, verack_message, framed,
  try_parse_message,
}
use avicoin.Node.Handshake.{HandshakeEvent}
use avicoin.Protocol.Session.{
  World, Act, ◌>>=◌, ◌>>◌, lift, and_then, Registered, Entry, speaks, handshake_complete,
  ping_received, pong_received, record_it, deliver, advance,
}

unfoldable pub handle_messages : Sha256 → Registered → MessageReceived → Act (Unit {0})
handle_messages sha registered (version_message version) = do
  _ ← advance registered HandshakeEvent.version
  record_it
      (speaks registered.address version.payload.protocol_version version.payload.listen_address)
  reply ← lift (framed sha verack)
  deliver registered reply
handle_messages sha registered verack_message = do
  _ ← advance registered HandshakeEvent.verack
  record_it (handshake_complete registered.address)
handle_messages sha registered (ping_message ping) = do
  record_it (ping_received ping)
  pong ← lift (new_pong ping.payload)
  reply ← lift (framed sha pong)
  deliver registered reply
handle_messages sha registered (pong_message pong) = record_it (pong_received pong)

-- What the loop holds: the result so far, the receive buffer, and the state that the handler works on.
abbrev pub Drained : Type 0 → Type 0
Drained S = Result (Unit {0}) × Bytes × S

module _ {S : Type 0} (sha : Sha256) (handle : MessageReceived → S → Result (Unit {0}) × S) where
  abbrev pub handled :
      (Bytes → S → Option (Drained S)) → Bytes → Result (Unit {0}) × S → Option (Drained S)
  handled next rest (ok _, s) = next rest s
  handled next rest (err e, s) = some (err e, rest, s)
  handled next rest (panic, s) = some (panic, rest, s)

  abbrev pub turn :
      (Bytes → S → Option (Drained S))
      → Bytes
      → S
      → Result (Option MessageReceived × ℕ)
      → Option (Drained S)
  turn next buffer s (ok (none, n)) = some (ok tt, buffer, s)
  turn next buffer s (ok (some m, n)) = handled next (drop n buffer) (handle m s)
  turn next buffer s (err e) = some (err e, buffer, s)
  turn next buffer s panic = some (panic, buffer, s)

  -- The `while let` loop; `none` when the fuel runs out.
  unfoldable pub drain : ℕ → Bytes → S → Option (Drained S)
  drain zero buffer s = none
  drain (suc fuel) buffer s = turn (drain fuel) buffer s (try_parse_message sha buffer)

  -- `process_incoming_bytes`: a message takes 24 bytes at least, so fuel beyond the length is enough.
  unfoldable pub process_incoming_bytes : Bytes → S → Bytes → Option (Drained S)
  process_incoming_bytes recv_buffer s buffer =
      drain (suc (length (recv_buffer ++ buffer))) (recv_buffer ++ buffer) s

  -- What becomes of the loop when `more` arrives later: a loop that ended well goes on with it.
  abbrev pub continued : Option (Drained S) → Bytes → Option (Drained S)
  continued none more = none
  continued (some (ok _, buffer, s)) more = process_incoming_bytes buffer s more
  continued (some (err e, buffer, s)) more = some (err e, buffer ++ more, s)
  continued (some (panic, buffer, s)) more = some (panic, buffer ++ more, s)
