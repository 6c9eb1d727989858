-- ===== src/UnitTests/Loops.antt =====
-- The tests of src/protocol.rs on the loops and the connection that need no socket: the readers and
-- writers that the tests define are lists of what they do at each turn.
use avicoin.Prelude.{
  ℕ, zero, suc, ◌+◌, ◌≡◌, refl, Bool, true, false, Option, none, some, List, [], ◌∷◌, bytes_eq,
}
use avicoin.Outcome.{Result, ok, err, ◌>>=◌, no_handshake, io_error}
use avicoin.Words.{Bytes, to_le_bytes, from_le_bytes}
use avicoin.Text.{is_ascii, is_utf8, from_utf8}
use avicoin.Reader.{
  new, take_bytes, take_array, read_u16, read_u32, read_u64, read_array, read_bytes,
}
use avicoin.Util.{get_hash, command_12, parse_command_12, cleaned_bytes, position}
use avicoin.Net.{address_eq, to_ipv4_mapped, try_send}
use avicoin.Messages.Kinds.{
  new_ping, new_pong, read_ping, parse_ping, read_pong, parse_pong, new_version, version_bytes,
  write_address, read_address, read_version, parse_version, parse_verack, Ping-Payload,
  Pong-Payload, Version-Payload, Verack-Payload,
}
use avicoin.Messages.Frame.{header_bytes, read_header, from_raw_format}
use avicoin.Messages.{
  from_payload, new_message, message_bytes, parse_payload, open_frame, parse_frame,
  try_parse_message,
}
use avicoin.Node.{shared, record_entry}
use avicoin.Node.Log.{push, evict}
use avicoin.Node.Handshake.{is_ready}
use avicoin.Node.Handshake
use avicoin.Node.Peers.{
  accepted, empty_table, get, erase, insert, assign, has_dialled, register, remove, len,
  advance_handshake, handshake_of, send_to, max_peers,
}
use avicoin.Protocol.{handle_messages, drain, process_incoming_bytes}
use avicoin.Protocol.Session.{World, open_connection, drop_registered, deliver, advance, is_settled}
use avicoin.Protocol.ReadLoop.{
  Arrival, arrived, failed, would_block, interrupted, end_of_stream, ReadTurn, read_once,
  check_deadline, read_loop,
}
use avicoin.Protocol.WriteLoop.{
  WriteTurn, Received, queued, timeout, disconnected, write_loop, write_turns,
}
use avicoin.Protocol.Connection.{Socket, with_channel, handle_connection, spawn_connection}
use avicoin.UnitTests.Messages.{sum_sha}
use avicoin.UnitTests.Protocol.{
  local, a_node, registered, a_registered_peer, framed_ping, framed_pong, framed_version, identify,
  drained,
}

abbrev pub reading_turn : Bool → Arrival → ReadTurn
reading_turn late arrival = record { arrival = arrival; late = late; meanwhile = λ w. w }

-- `read_loop` on such turns, and its result and the peer's queue.
abbrev pub looped : World → List ReadTurn → Option (Result (Unit {0}) × List Bytes)
looped w turns =
    elim (read_loop sum_sha registered turns
      (record { ready = false; recv_buffer = []; world = w })) [
        | none ↦ none
        | some (result, w') ↦ some (result, (w'.channels 0).queued)
      ]

abbrev AnInterruptedReadDoesNotEndTheConnection : Type 0
AnInterruptedReadDoesNotEndTheConnection =
    (do pong ← framed_pong; ok (some (ok tt, pong ∷ []))) ≡ (do
      ping ← framed_ping
      ok (
          looped a_registered_peer (
            reading_turn false (failed interrupted io_error)
            ∷ reading_turn false (arrived ping)
            ∷ reading_turn false end_of_stream
            ∷ [])))

-- Connected and silent, until the deadline has passed.
abbrev pub says_nothing : ℕ → List ReadTurn
says_nothing zero = reading_turn true (failed would_block io_error) ∷ []
says_nothing (suc n) = reading_turn false (failed would_block io_error) ∷ says_nothing n

-- Legal traffic, and no handshake.
abbrev chatters : ℕ → Bytes → List ReadTurn
chatters zero pong = reading_turn true (arrived pong) ∷ []
chatters (suc n) pong = reading_turn false (arrived pong) ∷ chatters n pong

abbrev APeerThatNeverIdentifiesItselfLosesItsConnection : Type 0
APeerThatNeverIdentifiesItselfLosesItsConnection =
    looped a_registered_peer (says_nothing 10) ≡ some (err no_handshake, [])

abbrev APeerThatTalksWithoutIdentifyingItselfStillLosesItsConnection : Type 0
APeerThatTalksWithoutIdentifyingItselfStillLosesItsConnection =
    (do pong ← framed_pong; ok (looped a_registered_peer (chatters 10 pong)))
    ≡ ok (some (err no_handshake, []))

abbrev APeerThatDidIdentifyItselfSurvivesAReadThatExpires : Type 0
APeerThatDidIdentifyItselfSurvivesAReadThatExpires =
    looped (drained (identify a_registered_peer))
      (reading_turn true (failed would_block io_error) ∷ reading_turn true end_of_stream ∷ [])
    ≡ some (ok tt, [])

-- A turn of the writer at the start of an hour without pings.
abbrev pub writes : ℕ → Received → Result (Unit {0}) → WriteTurn
writes now received written = record {
  now = now;
  random = 5;
  ping_written = ok tt;
  pinged_at = now;
  received = received;
  written = written;
}

abbrev never : ℕ
never = 3600

abbrev TheOpeningMessagePrecedesTheFirstPingWhichDoesNotWaitForTheInterval : Type 0
TheOpeningMessagePrecedesTheFirstPingWhichDoesNotWaitForTheInterval =
    (do
      opening ← framed_version
      ok (write_loop sum_sha never opening (ok tt) 0 (writes 0 disconnected (ok tt) ∷ [])))
    ≡ (do opening ← framed_version; ping ← framed_ping; ok (some (ok tt), opening ∷ ping ∷ []))

abbrev AMessageEnqueuedFromAnotherThreadIsWrittenToThePeer : Type 0
AMessageEnqueuedFromAnotherThreadIsWrittenToThePeer =
    (do
      pong ← framed_pong
      ok (
          write_loop sum_sha never [] (ok tt) 0 (
            writes 0 timeout (ok tt)
            ∷ writes 1 (queued pong) (ok tt)
            ∷ writes 1 disconnected (ok tt)
            ∷ [])))
    ≡ (do ping ← framed_ping; pong ← framed_pong; ok (some (ok tt), [] ∷ ping ∷ pong ∷ []))

abbrev AStalledWriteEndsTheConnectionRatherThanBlockingForever : Type 0
AStalledWriteEndsTheConnectionRatherThanBlockingForever =
    (write_loop sum_sha never [] (ok tt) 0 (writes 0 (queued (1 ∷ [])) (err io_error) ∷ [])).0
    ≡ some (err io_error)

abbrev filled : ℕ → ℕ → World → World
filled zero index w = w
filled (suc n) index w =
    filled n (index + 1)
      (open_connection (local (5000 + index)) accepted index (with_channel index w)).1

-- A socket whose peer hangs up at once.
abbrev pub quiet : Socket
quiet = record {
  try_clone = ok tt;
  set_write_timeout = ok tt;
  set_read_timeout = ok tt;
  reads = reading_turn false end_of_stream ∷ [];
  opened = ok tt;
  started = 0;
  writes = writes 0 disconnected (ok tt) ∷ [];
}

abbrev pub peers_in : Option World → Option ℕ
peers_in none = none
peers_in (some w) = some (len w.node.peers)

abbrev ARefusedConnectionLeavesTheTableAsItFoundIt : Type 0
ARefusedConnectionLeavesTheTableAsItFoundIt =
    let w = filled max_peers 0 a_node in
    let spawned = spawn_connection sum_sha (ok (local 6000)) accepted max_peers quiet w in
    (len w.node.peers ≡ max_peers) × (peers_in spawned ≡ some max_peers)

abbrev AConnectionRegistersAPeerAndClosingItRemovesThem : Type 0
AConnectionRegistersAPeerAndClosingItRemovesThem =
    (len (open_connection (local 6000) accepted 0 (with_channel 0 a_node)).1.node.peers ≡ 1)
    × (peers_in (spawn_connection sum_sha (ok (local 6000)) accepted 0 quiet a_node) ≡ some 0)

-- They pass.
loop_tests_pass :
    AnInterruptedReadDoesNotEndTheConnection × APeerThatNeverIdentifiesItselfLosesItsConnection
    × APeerThatTalksWithoutIdentifyingItselfStillLosesItsConnection
    × APeerThatDidIdentifyItselfSurvivesAReadThatExpires
    × TheOpeningMessagePrecedesTheFirstPingWhichDoesNotWaitForTheInterval
    × AMessageEnqueuedFromAnotherThreadIsWrittenToThePeer
    × AStalledWriteEndsTheConnectionRatherThanBlockingForever
    × ARefusedConnectionLeavesTheTableAsItFoundIt × AConnectionRegistersAPeerAndClosingItRemovesThem
unfolding command_12 is_ascii to_le_bytes from_le_bytes bytes_eq try_parse_message from_raw_format
    read_header new take_bytes take_array read_u32 read_array read_bytes new_ping new_message
    from_payload message_bytes header_bytes get_hash Ping-Payload parse_frame open_frame
    parse_command_12 cleaned_bytes position from_utf8 is_utf8 parse_payload parse_ping read_ping
    read_u64 new_version version_bytes write_address Version-Payload parse_version read_version
    read_address to_ipv4_mapped read_u16 Verack-Payload parse_verack Pong-Payload new_pong
    parse_pong read_pong shared empty_table register has_dialled address_eq insert erase
    open_connection process_incoming_bytes drain handle_messages advance deliver advance_handshake
    send_to try_send get assign Handshake.advance handshake_of is_ready is_settled record_entry push
    evict read_loop read_once check_deadline write_loop write_turns len spawn_connection remove
    handle_connection drop_registered
loop_tests_pass = (refl, refl, refl, refl, refl, refl, refl, (refl, refl), (refl, refl))
