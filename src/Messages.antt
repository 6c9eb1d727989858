-- ===== src/Messages.antt =====
-- src/messages/message.rs: the frame of a message, and the parse of a receive buffer.
pub mod Kinds
pub mod Frame
pub mod Stream
pub mod RoundTrip
pub mod Carried
pub mod Exchange
pub mod Canonical
pub mod Headers
pub mod Bodies
pub mod Written
use avicoin.Prelude.{
  ℕ, ◌+◌, ◌*◌, ◌%◌, ◌^◌, ◌≡◌, Bool, true, false, not, Option, none, some, List, [], ◌∷◌, ◌++◌, ltb,
  if◌then◌else◌, length, bytes_eq,
}
use avicoin.Outcome.{
  Result, ok, err, panic, ◌>>=◌, ◌>>◌, refuse_if, expect, payload_too_large, invalid_checksum,
  unknown_command,
}
use avicoin.Words.{Bytes, to_le_bytes}
use avicoin.Reader.{new, first_chunk, slice, read_bytes}
use avicoin.Util.{Sha256, get_hash, parse_command_12}
use avicoin.Messages.Frame.{
  magic, header_length, max_payload_size, Header, header_bytes, from_raw_format,
}
use avicoin.Messages.Kinds.{
  Payload, Ping, Pong, Version, parse_ping, parse_pong, parse_version, parse_verack,
  ping_command_name, pong_command_name, version_command_name, verack_command_name,
}

pub record Message (T : Type 0) : Type 0 where
  pub header : Header
  pub payload : T

pub data MessageReceived : Type 0 where
  ping_message : Message Ping → MessageReceived
  pong_message : Message Pong → MessageReceived
  version_message : Message Version → MessageReceived
  verack_message : MessageReceived

-- `Header::from_payload`.
unfoldable pub from_payload : {T : Type 0} → ⦃p : Payload T⦄ → Sha256 → T → Result Header
from_payload ⦃p⦄ sha payload = do
  payload_bytes ← p.get_raw_format payload
  checksum ← expect (first_chunk 4 (get_hash sha payload_bytes))
  command_name ← p.get_command_name payload
  ok (record {
    magic_bytes = magic;
    command_name = command_name;
    payload_size = length payload_bytes % 2 ^ 32;
    checksum = checksum;
  })

-- `Message::new`.
unfoldable pub new_message : {T : Type 0} → ⦃p : Payload T⦄ → Sha256 → T → Result (Message T)
new_message sha payload = do
  header ← from_payload sha payload
  ok (record { header = header; payload = payload })

-- `Message::get_raw_format`.
unfoldable pub message_bytes : {T : Type 0} → ⦃p : Payload T⦄ → Message T → Result Bytes
message_bytes ⦃p⦄ m = do
  payload_bytes ← p.get_raw_format m.payload
  ok (header_bytes m.header ++ payload_bytes)

-- `Message::new(payload)?.get_raw_format()?`.
abbrev pub framed : {T : Type 0} → ⦃p : Payload T⦄ → Sha256 → T → Result Bytes
framed sha payload = do message ← new_message sha payload; message_bytes message

-- The match on the name of the command.
unfoldable pub parse_payload : Header → Bytes → Bytes → Result MessageReceived
parse_payload header command_name bytes =
    if bytes_eq command_name ping_command_name
    then (do p ← parse_ping bytes; ok (ping_message (record { header = header; payload = p })))
    else if bytes_eq command_name pong_command_name
    then (do p ← parse_pong bytes; ok (pong_message (record { header = header; payload = p })))
    else if bytes_eq command_name version_command_name
    then (do
      p ← parse_version bytes
      ok (version_message (record { header = header; payload = p })))
    else if bytes_eq command_name verack_command_name
    then (do _ ← parse_verack bytes; ok verack_message)
    else err (unknown_command command_name)

-- What follows once the whole payload has arrived.
unfoldable pub open_frame : Sha256 → Header → Bytes → Result (Option MessageReceived × ℕ)
open_frame sha header payload = do
  bytes ← (read_bytes header.payload_size (new payload)).0
  checksum ← expect (first_chunk 4 (get_hash sha bytes))
  refuse_if (not (bytes_eq header.checksum checksum)) invalid_checksum
  command_name ← parse_command_12 header.command_name
  message ← parse_payload header command_name bytes
  ok (some message, header_length + header.payload_size)

unfoldable pub parse_frame : Sha256 → Header → Bytes → Result (Option MessageReceived × ℕ)
parse_frame sha header buffer =
    if ltb (length buffer) (header_length + header.payload_size)
    then ok (none, 0)
    else open_frame sha header (slice header_length (header.payload_size + header_length) buffer)

unfoldable pub try_parse_message : Sha256 → Bytes → Result (Option MessageReceived × ℕ)
try_parse_message sha buffer = if ltb (length buffer) header_length then ok (none, 0) else (do
  header ← from_raw_format (slice 0 header_length buffer)
  refuse_if (ltb max_payload_size header.payload_size) (payload_too_large header.payload_size)
  parse_frame sha header buffer)
