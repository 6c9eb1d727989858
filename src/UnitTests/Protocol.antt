-- ===== src/UnitTests/Protocol.antt =====
-- The tests of src/protocol.rs on the handlers. A queue is what `try_recv` would receive.
use avicoin.Prelude.{
  ℕ, ◌-◌, ◌^◌, ◌≡◌, refl, Bool, true, false, Option, none, some, List, [], ◌∷◌, ◌++◌, bytes_eq,
}
use avicoin.Outcome.{Result, ok, err, panic, ◌>>=◌}
use avicoin.Words.{Bytes, to_le_bytes, from_le_bytes}
use avicoin.Text.{is_ascii, is_utf8, from_utf8}
use avicoin.Reader.{
  new, take_bytes, take_array, read_u16, read_u32, read_u64, read_array, read_bytes,
}
use avicoin.Util.{get_hash, command_12, parse_command_12, cleaned_bytes, position}
use avicoin.Net.{SocketAddr, address_eq, to_ipv4_mapped, try_send}
use avicoin.Messages.Kinds.{
  verack, new_ping, new_pong, read_ping, parse_ping, read_pong, parse_pong, new_version,
  version_bytes, write_address, read_address, read_version, parse_version, parse_verack,
  Ping-Payload, Pong-Payload, Version-Payload, Verack-Payload,
}
use avicoin.Messages.Frame.{header_bytes, read_header, from_raw_format}
use avicoin.Messages.{
  from_payload, new_message, message_bytes, framed, parse_payload, open_frame, parse_frame,
  try_parse_message,
}
use avicoin.Node.{shared, record_entry}
use avicoin.Node.Log.{push, evict}
use avicoin.Node.Handshake.{is_ready}
use avicoin.Node.Handshake
use avicoin.Node.Peers.{
  accepted, empty_table, get, erase, insert, assign, has_dialled, register, advance_handshake,
  handshake_of, send_to,
}
use avicoin.Protocol.{Drained, handle_messages, drain, process_incoming_bytes}
use avicoin.Protocol.Session.{World, Registered, open_connection, deliver, advance, is_settled}
use avicoin.Protocol.Connection.{with_channel}
use avicoin.UnitTests.{is_ok, is_err}
use avicoin.UnitTests.Messages.{sum_sha, header_claiming}

abbrev pub local : ℕ → SocketAddr
local port = SocketAddr.v4 (127 ∷ 0 ∷ 0 ∷ 1 ∷ []) port

abbrev pub a_node : World
a_node = record {
  node = shared (record { host_address = local 34352; addresses_to_connect = [] }) 3;
  channels = λ c. record { capacity = 0; queued = []; connected = false };
}

abbrev pub registered : Registered
registered = record { id = 0; address = local 5000 }

-- The node behind `Registered::open`, whose peer is `registered`.
abbrev pub a_registered_peer : World
a_registered_peer = (open_connection (local 5000) accepted 0 (with_channel 0 a_node)).1

abbrev pub framed_ping : Result Bytes
framed_ping = framed sum_sha (new_ping 5)

abbrev pub framed_pong : Result Bytes
framed_pong = do pong ← new_pong (new_ping 5); framed sum_sha pong

abbrev pub framed_version : Result Bytes
framed_version = framed sum_sha (new_version 7 (local 5000))

abbrev pub framed_verack : Result Bytes
framed_verack = framed sum_sha verack

-- `process_incoming_bytes` on an empty buffer, for bytes that could be made.
abbrev pub processed_in : World → Result Bytes → Option (Drained World)
processed_in w (ok bytes) =
    process_incoming_bytes sum_sha (handle_messages sum_sha registered) [] w bytes
processed_in w (err e) = none
processed_in w panic = none

abbrev pub world_of : Option (Drained World) → World
world_of none = a_node
world_of (some (result, buffer, w)) = w

-- What the tests look at: whether the result is `Ok`, the buffer, the queue of the peer, `is_ready()`.
abbrev pub seen : Option (Drained World) → Option (Bool × Bytes × List Bytes × Bool)
seen none = none
seen (some (result, buffer, w)) =
    some (is_ok result, buffer, (w.channels 0).queued, is_settled registered w)

abbrev pub with_queue : Bool → Bool → List Bytes → Option (Bool × Bytes × List Bytes × Bool)
with_queue good ready queue = some (good, [], queue, ready)

-- What the tests look at where the call fails.
abbrev pub failed_with : Option (Drained World) → Option (Bool × List Bytes × Bool)
failed_with none = none
failed_with (some (result, buffer, w)) =
    some (is_err result, (w.channels 0).queued, is_settled registered w)

abbrev AnInboundPingIsAnsweredWithAPongOnTheOutboundChannel : Type 0
AnInboundPingIsAnsweredWithAPongOnTheOutboundChannel =
    (do pong ← framed_pong; ok (with_queue true false (pong ∷ [])))
    ≡ ok (seen (processed_in a_registered_peer framed_ping))

abbrev AnOversizedHeaderFailsTheConnectionRatherThanBeingAwaited : Type 0
AnOversizedHeaderFailsTheConnectionRatherThanBeingAwaited =
    failed_with (processed_in a_registered_peer (header_claiming (2 ^ 32 - 1)))
    ≡ some (true, [], false)

abbrev AVersionIsAnsweredWithAVerackAndOnlyTheirVerackCompletesIt : Type 0
AVersionIsAnsweredWithAVerackAndOnlyTheirVerackCompletesIt =
    let first = processed_in a_registered_peer framed_version in
    ((do reply ← framed_verack; ok (with_queue true false (reply ∷ []))) ≡ ok (seen first))
    × ((do reply ← framed_verack; ok (with_queue true true (reply ∷ [])))
        ≡ ok (seen (processed_in (world_of first) framed_verack)))

abbrev AVerackBeforeAnyVersionIsRefused : Type 0
AVerackBeforeAnyVersionIsRefused =
    failed_with (processed_in a_registered_peer framed_verack) ≡ some (true, [], false)

-- What a peer sends to be counted: its version, then a verack for ours.
abbrev pub identify : World → World
identify w =
    world_of
      (processed_in w (do version ← framed_version; reply ← framed_verack; ok (version ++ reply)))

-- `while queued.try_recv().is_ok() {}`.
abbrev pub drained : World → World
drained w = record w { channels = λ c. record (w.channels c) { queued = [] } }

abbrev ASecondVersionAfterTheHandshakeIsAProtocolError : Type 0
ASecondVersionAfterTheHandshakeIsAProtocolError =
    failed_with (processed_in (drained (identify a_registered_peer)) framed_version)
    ≡ some (true, [], true)

-- They pass.
protocol_tests_pass :
    AnInboundPingIsAnsweredWithAPongOnTheOutboundChannel
    × AnOversizedHeaderFailsTheConnectionRatherThanBeingAwaited
    × AVersionIsAnsweredWithAVerackAndOnlyTheirVerackCompletesIt × AVerackBeforeAnyVersionIsRefused
    × ASecondVersionAfterTheHandshakeIsAProtocolError
unfolding command_12 is_ascii to_le_bytes from_le_bytes bytes_eq try_parse_message from_raw_format
    read_header new take_bytes take_array read_u32 read_array read_bytes new_ping new_message
    from_payload message_bytes header_bytes get_hash Ping-Payload parse_frame open_frame
    parse_command_12 cleaned_bytes position from_utf8 is_utf8 parse_payload parse_ping read_ping
    read_u64 new_version version_bytes write_address Version-Payload parse_version read_version
    read_address to_ipv4_mapped read_u16 Verack-Payload parse_verack Pong-Payload new_pong
    parse_pong read_pong shared empty_table register has_dialled address_eq insert erase
    open_connection process_incoming_bytes drain handle_messages advance deliver advance_handshake
    send_to try_send get assign Handshake.advance handshake_of is_ready is_settled record_entry push
    evict
protocol_tests_pass = (refl, refl, (refl, refl), refl, refl)
