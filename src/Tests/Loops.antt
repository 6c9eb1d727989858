-- ===== src/Tests/Loops.antt =====
-- The theorems on the handlers, the two loops and the connection at concrete inputs.
use avicoin.Prelude.{
  ℕ, ◌≡◌, refl, ap, true, false, none, some, List, [], ◌∷◌, ◌++◌, length, arith, append-nil,
}
use avicoin.Outcome.{Result, ok, io_error}
use avicoin.Words.{Bytes, IsU64}
use avicoin.Net.{enqueue, set_channel}
use avicoin.Messages.Kinds.{
  Ping, Pong, Version, verack, new_ping, Ping-Payload, Pong-Payload, Version-Payload,
  Verack-Payload,
}
use avicoin.Messages.{
  Message, ping_message, pong_message, version_message, verack_message, try_parse_message,
}
use avicoin.Messages.Frame.{magic}
use avicoin.Messages.RoundTrip.{IsVersion}
use avicoin.Messages.Carried.{Carried}
use avicoin.Messages.Exchange.{ping-Carried, pong-Carried, version-Carried, verack-Carried}
use avicoin.Node.Peers.{get}
use avicoin.Node.Peers.Invariant.{Inv}
use avicoin.Protocol.{handle_messages}
use avicoin.Protocol.Session.{World, open_connection, ping_received, log, is_settled}
use avicoin.Protocol.ReadLoop.{ReadTurn, Reading, end_of_stream, failed, would_block, read_loop}
use avicoin.Protocol.ReadLoop.Deadline.{read_loop-returns}
use avicoin.Protocol.WriteLoop.{WriteTurn, queued, disconnected, write_loop, write_turns}
use avicoin.Protocol.WriteLoop.Order.{Written, write_loop-Written}
use avicoin.Protocol.Connection.{Socket, handle_connection}
use avicoin.Protocol.Connection.Cleanup.{handle_connection-ends}
use avicoin.Protocol.Replies.{framed-Carried, queueing, ping-answered}
use avicoin.Protocol.Greeting.{greeting_settles, receive_all, whole_of}
use avicoin.Protocol.OneEnd.{Fresh, Says}
use avicoin.Protocol.Pair.{Settles, pair-Settles}
use avicoin.Tests.{zero_sha}
use avicoin.Tests.System.{
  home, session, peer, with_peer, entered, entered-Inv, has_room, home-IsPlain,
}

abbrev ping : Message Ping
ping = record {
  header = record { magic_bytes = magic; command_name = []; payload_size = 8; checksum = [] };
  payload = record { nonce = 5 };
}

ping-answered_example :
    (reply : Bytes) × (pong : Message Pong) × (handle_messages zero_sha session
        (ping_message ping)
        with_peer.world
      ≡ (ok tt, queueing peer reply (log (ping_received ping) with_peer.world)))
    × (try_parse_message zero_sha reply ≡ ok (some (pong_message pong), length reply))
    × (pong.payload.nonce ≡ 5)
ping-answered_example =
    ping-answered session peer with_peer.world entered zero_sha ping (omega arith) has_room

abbrev theirs : Version
theirs = record { protocol_version = 1; nonce = 9; listen_address = home }

theirs-IsVersion : IsVersion theirs
theirs-IsVersion = record {
  protocol_version = omega arith;
  nonce = omega arith;
  listen_address = home-IsPlain;
}

abbrev opening : Carried zero_sha theirs version_message
opening = version-Carried zero_sha theirs theirs-IsVersion

abbrev reply : Carried zero_sha verack (λ m. verack_message)
reply = verack-Carried zero_sha

greeting_settles_example :
    (w' : World) × (receive_all zero_sha
        (handle_messages zero_sha session)
        (opening.bytes ∷ reply.bytes ∷ [])
        (some (ok tt, [], with_peer.world))
      ≡ some (ok tt, [], w'))
    × (is_settled session w' ≡ true)
    × (w'.channels
        ≡ set_channel 0 (enqueue reply.bytes (with_peer.world.channels 0)) with_peer.world.channels)
greeting_settles_example =
    greeting_settles zero_sha session peer with_peer.world theirs opening.bytes reply.bytes
      (opening.bytes ∷ reply.bytes ∷ []) theirs-IsVersion
      (framed-Carried zero_sha theirs version_message opening)
      (framed-Carried zero_sha verack (λ m. verack_message) reply)
      (ap (◌++◌ opening.bytes) (append-nil reply.bytes)) entered refl has_room

abbrev ours : Version
ours = record theirs { nonce = 11 }

ours-IsVersion : IsVersion ours
ours-IsVersion = record {
  protocol_version = omega arith;
  nonce = omega arith;
  listen_address = home-IsPlain;
}

abbrev our_opening : Carried zero_sha ours version_message
our_opening = version-Carried zero_sha ours ours-IsVersion

with_peer-Fresh : Fresh session peer with_peer.world
unfolding open_connection
with_peer-Fresh = record {
  entry = entered;
  waits = refl;
  live = refl;
  room = omega arith;
  idle = refl;
}

abbrev ping_of :
    (nonce : ℕ) → IsU64 nonce → Carried {T = Ping} zero_sha (record { nonce = nonce }) ping_message
ping_of nonce n = ping-Carried zero_sha (record { nonce = nonce }) n

abbrev pong_of :
    (nonce : ℕ) → IsU64 nonce → Carried {T = Pong} zero_sha (record { nonce = nonce }) pong_message
pong_of nonce n = pong-Carried zero_sha (record { nonce = nonce }) n

we_say : Says zero_sha ours 5 6
unfolding new_ping
we_say = record {
  opening = our_opening.bytes;
  ping = (ping_of 5 (omega arith)).bytes;
  acknowledgement = reply.bytes;
  pong = (pong_of 6 (omega arith)).bytes;
  opens = framed-Carried zero_sha ours version_message our_opening;
  pings = framed-Carried zero_sha (record { nonce = 5 }) ping_message (ping_of 5 (omega arith));
  acknowledges = framed-Carried zero_sha verack (λ m. verack_message) reply;
  pongs = framed-Carried zero_sha (record { nonce = 6 }) pong_message (pong_of 6 (omega arith));
}

they_say : Says zero_sha theirs 6 5
unfolding new_ping
they_say = record {
  opening = opening.bytes;
  ping = (ping_of 6 (omega arith)).bytes;
  acknowledgement = reply.bytes;
  pong = (pong_of 5 (omega arith)).bytes;
  opens = framed-Carried zero_sha theirs version_message opening;
  pings = framed-Carried zero_sha (record { nonce = 6 }) ping_message (ping_of 6 (omega arith));
  acknowledges = framed-Carried zero_sha verack (λ m. verack_message) reply;
  pongs = framed-Carried zero_sha (record { nonce = 5 }) pong_message (pong_of 5 (omega arith));
}

abbrev chunks_of : Bytes → Bytes → List Bytes
chunks_of first second = first ∷ second ∷ []

chunked : (first second : Bytes) → whole_of (chunks_of first second) ≡ first ++ second
chunked first second = ap (◌++◌ first) (append-nil second)

pair-Settles_example :
    Settles zero_sha session peer we_say
      (chunks_of they_say.opening they_say.ping)
      (chunks_of they_say.acknowledgement they_say.pong)
      (chunks_of we_say.opening we_say.ping)
      (chunks_of we_say.acknowledgement we_say.pong)
      with_peer.world
    × Settles zero_sha session peer they_say
        (chunks_of we_say.opening we_say.ping)
        (chunks_of we_say.acknowledgement we_say.pong)
        (chunks_of they_say.opening they_say.ping)
        (chunks_of they_say.acknowledgement they_say.pong)
        with_peer.world
pair-Settles_example =
    pair-Settles zero_sha session session peer peer with_peer.world with_peer.world ours theirs 5 6
      we_say they_say (chunks_of they_say.opening they_say.ping)
      (chunks_of they_say.acknowledgement they_say.pong) (chunks_of we_say.opening we_say.ping)
      (chunks_of we_say.acknowledgement we_say.pong) with_peer-Fresh with_peer-Fresh ours-IsVersion
      theirs-IsVersion (omega arith) (omega arith) (chunked we_say.opening we_say.ping)
      (chunked we_say.acknowledgement we_say.pong) (chunked they_say.opening they_say.ping)
      (chunked they_say.acknowledgement they_say.pong)

abbrev settled_reading : Reading
settled_reading = record { ready = true; recv_buffer = []; world = with_peer.world }

abbrev quiet_turn : ReadTurn
quiet_turn = record { arrival = failed would_block io_error; late = false; meanwhile = λ w. w }

abbrev last_turn : ReadTurn
last_turn = record { arrival = end_of_stream; late = false; meanwhile = λ w. w }

read_loop-returns_example :
    (result : Result (Unit {0}) × World) × (read_loop zero_sha session
        (quiet_turn ∷ last_turn ∷ [])
        (record { ready = false; recv_buffer = []; world = with_peer.world })
      ≡ some result)
read_loop-returns_example =
    read_loop-returns zero_sha session (quiet_turn ∷ []) last_turn
      (record { ready = false; recv_buffer = []; world = with_peer.world }) tt

abbrev sends : WriteTurn
sends = record {
  now = 3;
  random = 7;
  ping_written = ok tt;
  pinged_at = 4;
  received = queued (1 ∷ 2 ∷ []);
  written = ok tt;
}

abbrev finds_no_sender : WriteTurn
finds_no_sender = record {
  now = 5;
  random = 8;
  ping_written = ok tt;
  pinged_at = 5;
  received = disconnected;
  written = ok tt;
}

seven-IsU64 : IsU64 (new_ping 7).nonce
unfolding new_ping
seven-IsU64 = omega arith

abbrev first_ping : Carried zero_sha (new_ping 7) ping_message
first_ping = ping-Carried zero_sha (new_ping 7) seven-IsU64

writes_three :
    write_loop zero_sha 11 (8 ∷ []) (ok tt) 3 (sends ∷ finds_no_sender ∷ [])
    ≡ (some (ok tt), (8 ∷ []) ∷ first_ping.bytes ∷ (1 ∷ 2 ∷ []) ∷ [])
unfolding write_loop write_turns
writes_three = rw (framed-Carried zero_sha (new_ping 7) ping_message first_ping) refl

write_loop-Written_example :
    (rest : List Bytes) × (◌≡◌ {A = List Bytes}
      ((8 ∷ []) ∷ first_ping.bytes ∷ (1 ∷ 2 ∷ []) ∷ [])
      ((8 ∷ []) ∷ rest))
    × Written zero_sha 11 3 5 ((1 ∷ 2 ∷ []) ∷ []) rest
write_loop-Written_example =
    write_loop-Written zero_sha 11 5 (8 ∷ []) (ok tt) 3 (sends ∷ finds_no_sender ∷ [])
      ((8 ∷ []) ∷ first_ping.bytes ∷ (1 ∷ 2 ∷ []) ∷ [])
      (omega arith, omega arith, (omega arith, omega arith, omega arith)) writes_three

abbrev socket : Socket
socket = record {
  try_clone = ok tt;
  set_write_timeout = ok tt;
  set_read_timeout = ok tt;
  reads = quiet_turn ∷ last_turn ∷ [];
  opened = ok tt;
  started = 3;
  writes = sends ∷ finds_no_sender ∷ [];
}

handle_connection-ends_example :
    (result : Result (Unit {0})) × (w' : World) × ((handle_connection zero_sha session socket
        with_peer.world).0
      ≡ some (result, w'))
    × (get session.id w'.node.peers.peers ≡ none)
    × Inv w'.node.peers
handle_connection-ends_example =
    handle_connection-ends session zero_sha socket with_peer.world (quiet_turn ∷ []) last_turn
      (sends ∷ []) finds_no_sender refl tt refl refl ((λ w v. v), ((λ w v. v), tt)) entered-Inv
