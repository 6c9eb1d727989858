-- ===== src/UnitTests/Sockets.antt =====
-- The tests of src/protocol.rs over a socket, on what the two ends of the socket do.
use avicoin.Prelude.{
  ℕ, zero, suc, ◌+◌, ◌≡◌, refl, Bool, true, false, Option, none, some, List, [], ◌∷◌, bytes_eq, leb,
  length, if◌then◌else◌,
}
use avicoin.Outcome.{Result, ok, ◌>>=◌}
use avicoin.Words.{Bytes, to_le_bytes, from_le_bytes}
use avicoin.Text.{is_ascii, is_utf8, from_utf8}
use avicoin.Reader.{
  new, take_bytes, take_array, read_u16, read_u32, read_u64, read_array, read_bytes,
}
use avicoin.Util.{get_hash, command_12, parse_command_12, cleaned_bytes, position}
use avicoin.Net.{SocketAddr, address_eq, to_ipv4_mapped, try_send}
use avicoin.Messages.Kinds.{
  new_ping, new_pong, read_ping, parse_ping, read_pong, parse_pong, new_version, version_bytes,
  write_address, read_address, read_version, parse_version, parse_verack, Ping-Payload,
  Pong-Payload, Version-Payload, Verack-Payload,
}
use avicoin.Messages.Frame.{header_bytes, read_header, from_raw_format}
use avicoin.Messages.{
  framed, MessageReceived, ping_message, pong_message, version_message, verack_message,
  from_payload, new_message, message_bytes, parse_payload, open_frame, parse_frame,
  try_parse_message,
}
use avicoin.Node.{shared, record_entry}
use avicoin.Node.Log.{push, evict}
use avicoin.Node.Handshake.{is_ready}
use avicoin.Node.Handshake
use avicoin.Node.Peers.{
  empty_table, get, erase, insert, assign, has_dialled, register, remove, len, advance_handshake,
  handshake_of, send_to,
}
use avicoin.Protocol.{handle_messages, drain, process_incoming_bytes}
use avicoin.Protocol.Session.{World, open_connection, drop_registered, deliver, advance, is_settled}
use avicoin.Protocol.ReadLoop.{
  arrived, end_of_stream, ReadTurn, read_once, check_deadline, read_loop,
}
use avicoin.Protocol.WriteLoop.{
  Writing, WriteTurn, queued, timeout, disconnected, write_loop, write_turns,
}
use avicoin.Protocol.Connection.{Socket, Served, handle_connection, spawn_connection}
use avicoin.UnitTests.Messages.{sum_sha}
use avicoin.UnitTests.Protocol.{
  local, a_node, registered, a_registered_peer, framed_ping, framed_pong, framed_version,
  framed_verack,
}
use avicoin.Protocol.Session.{Entry, handling, ping_received}
use avicoin.UnitTests.Loops.{reading_turn, looped, says_nothing, writes, quiet, peers_in}

-- A connection whose reader and writer have these turns.
abbrev over : List ReadTurn → List WriteTurn → Socket
over incoming outgoing = record quiet { reads = incoming; writes = outgoing }

-- What a writer does with a queue, at these times.
abbrev takes : ℕ → List Bytes → List WriteTurn
takes now [] = writes now disconnected (ok tt) ∷ []
takes now (message ∷ messages) = writes now (queued message) (ok tt) ∷ takes now messages

abbrev ended_world : Served → Option World
ended_world (none, out) = none
ended_world (some (result, w), out) = some w

abbrev APeerThatNeverIdentifiesItselfGivesItsSlotBack : Type 0
APeerThatNeverIdentifiesItselfGivesItsSlotBack =
    (len a_registered_peer.node.peers ≡ 1)
    × (peers_in (
          ended_world (
            handle_connection sum_sha registered
              (over (says_nothing 10) (writes 0 disconnected (ok tt) ∷ [])) a_registered_peer))
        ≡ some 0)

-- Turns that last an interval each, so many of them.
abbrev waits : ℕ → ℕ → ℕ → List WriteTurn
waits zero now interval = writes now disconnected (ok tt) ∷ []
waits (suc n) now interval = writes now timeout (ok tt) ∷ waits n (now + interval) interval

-- How many messages follow the first, which is empty here.
abbrev pings_of : Writing → ℕ
pings_of (result, []) = 0
pings_of (result, first ∷ out) = length out

abbrev PingsRecurAtTheConfiguredInterval : Type 0
PingsRecurAtTheConfiguredInterval =
    let pings = pings_of (write_loop sum_sha 20 [] (ok tt) 0 (waits 15 0 20)) in
    (leb 5 pings ≡ true) × (leb pings 40 ≡ true)

abbrev replies_in : Option (Result (Unit {0}) × List Bytes) → List Bytes
replies_in none = []
replies_in (some (result, replies)) = replies

-- The reader takes a ping, and the writer what is then in the queue.
abbrev AConnectionPingsItsPeerAndAnswersThePeersPing : Type 0
AConnectionPingsItsPeerAndAnswersThePeersPing =
    (do
      ping ← framed_ping
      let turns = reading_turn false (arrived ping) ∷ reading_turn false end_of_stream ∷ [] in
          ok
            (handle_connection sum_sha registered
              (over turns (takes 0 (replies_in (looped a_registered_peer turns))))
              a_registered_peer).1)
    ≡ (do
      opening ← framed sum_sha (new_version 3 (local 34352))
      ping ← framed_ping
      pong ← framed_pong
      ok (opening ∷ ping ∷ pong ∷ []))

-- The nonce and the address of a message that is a version.
abbrev told_by : Option MessageReceived × ℕ → Option (ℕ × SocketAddr)
told_by (some (version_message m), n) = some (m.payload.nonce, m.payload.listen_address)
told_by (some (ping_message m), n) = none
told_by (some (pong_message m), n) = none
told_by (some verack_message, n) = none
told_by (none, n) = none

abbrev first_message : List Bytes → Result (Option MessageReceived × ℕ)
first_message [] = ok (none, 0)
first_message (message ∷ messages) = try_parse_message sum_sha message

abbrev TheVersionAConnectionOpensWithCarriesTheNodesNonceAndListenAddress : Type 0
TheVersionAConnectionOpensWithCarriesTheNodesNonceAndListenAddress =
    (do
      received ← first_message (handle_connection sum_sha registered quiet a_registered_peer).1
      ok (told_by received))
    ≡ ok (some (a_node.node.nonce, a_node.node.config.host_address))

-- Whether the peer is ready where the loop has returned.
abbrev ready_at_end : Option (Result (Unit {0}) × World) → Bool
ready_at_end none = false
ready_at_end (some (result, w)) = is_settled registered w

abbrev APeerThatExchangesVersionAndVerackOverASocketReachesReady : Type 0
APeerThatExchangesVersionAndVerackOverASocketReachesReady =
    (do
      version ← framed_version
      reply ← framed_verack
      ok (
          ready_at_end (
            read_loop sum_sha registered
              (reading_turn false (arrived version)
                ∷ reading_turn false (arrived reply)
                ∷ reading_turn false end_of_stream
                ∷ [])
              (record { ready = false; recv_buffer = []; world = a_registered_peer }))))
    ≡ ok true

abbrev says_handling : Entry → Bool
says_handling (handling ours theirs peers) = true
says_handling _ = false

abbrev says_ping_received : Entry → Bool
says_ping_received (ping_received ping) = true
says_ping_received _ = false

abbrev any_says : (Entry → Bool) → List Entry → Bool
any_says says [] = false
any_says says (entry ∷ entries) = if says entry then true else any_says says entries

-- Whether the log has each of the two entries.
abbrev reports : Option World → Bool × Bool
reports none = (false, false)
reports (some w) =
    (any_says says_handling w.node.log.entries, any_says says_ping_received w.node.log.entries)

abbrev WhatAConnectionReportsReachesTheNodesLog : Type 0
WhatAConnectionReportsReachesTheNodesLog =
    (do
      ping ← framed_ping
      ok (
          reports (
            ended_world (
              handle_connection sum_sha registered
                (over (reading_turn false (arrived ping) ∷ reading_turn false end_of_stream ∷ [])
                  (writes 0 disconnected (ok tt) ∷ []))
                a_registered_peer))))
    ≡ ok (true, true)

abbrev BothThreadsEndWhenThePeerDisconnects : Type 0
BothThreadsEndWhenThePeerDisconnects =
    peers_in (ended_world (handle_connection sum_sha registered quiet a_registered_peer)) ≡ some 0

-- They pass.
socket_tests_pass :
    APeerThatNeverIdentifiesItselfGivesItsSlotBack × PingsRecurAtTheConfiguredInterval
    × AConnectionPingsItsPeerAndAnswersThePeersPing
    × TheVersionAConnectionOpensWithCarriesTheNodesNonceAndListenAddress
    × APeerThatExchangesVersionAndVerackOverASocketReachesReady
    × WhatAConnectionReportsReachesTheNodesLog × BothThreadsEndWhenThePeerDisconnects
unfolding command_12 is_ascii to_le_bytes from_le_bytes bytes_eq try_parse_message from_raw_format
    read_header new take_bytes take_array read_u32 read_array read_bytes new_ping new_message
    from_payload message_bytes header_bytes get_hash Ping-Payload parse_frame open_frame
    parse_command_12 cleaned_bytes position from_utf8 is_utf8 parse_payload parse_ping read_ping
    read_u64 new_version version_bytes write_address Version-Payload parse_version read_version
    read_address to_ipv4_mapped read_u16 Verack-Payload parse_verack Pong-Payload new_pong
    parse_pong read_pong shared empty_table register has_dialled address_eq insert erase
    open_connection process_incoming_bytes drain handle_messages advance deliver advance_handshake
    send_to try_send get assign Handshake.advance handshake_of is_ready is_settled record_entry push
    evict read_loop read_once check_deadline write_loop write_turns len spawn_connection remove
    handle_connection drop_registered
socket_tests_pass = ((refl, refl), (refl, refl), refl, refl, refl, refl, refl)
