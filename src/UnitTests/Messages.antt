-- ===== src/UnitTests/Messages.antt =====
-- The tests of src/messages. The hash is the sum of the bytes, so that a changed byte changes it; the
-- nonce of a ping is not random.
use avicoin.Prelude.{
  ℕ, zero, suc, ◌+◌, ◌-◌, ◌%◌, ◌/◌, ◌^◌, ◌≡◌, refl, Bool, true, false, Option, none, some, [], ◌∷◌,
  ◌++◌, length, take, drop, replicate, arith, bytes_eq, ◌&&◌,
}
use avicoin.Outcome.{Result, ok, err, ◌>>=◌, invalid_checksum, payload_too_large}
use avicoin.Words.{Bytes, to_le_bytes, from_le_bytes}
use avicoin.Text.{is_ascii, is_utf8, from_utf8}
use avicoin.Reader.{
  new, take_bytes, take_array, read_u16, read_u32, read_u64, read_array, read_bytes,
}
use avicoin.Util.{Sha256, get_hash, command_12, parse_command_12, cleaned_bytes, position}
use avicoin.Net.{SocketAddr, to_ipv4_mapped}
use avicoin.Messages.Kinds.{
  Version, verack, new_ping, read_ping, parse_ping, new_version, version_bytes, write_address,
  read_address, read_version, parse_version, parse_verack, ping_command_name, Ping-Payload,
  Version-Payload, Verack-Payload,
}
use avicoin.Messages.Frame.{
  magic, header_length, max_payload_size, header_bytes, read_header, from_raw_format,
}
use avicoin.Messages.{
  MessageReceived, ping_message, from_payload, new_message, message_bytes, framed, parse_payload,
  open_frame, parse_frame, try_parse_message,
}
use avicoin.Tests.{zeros-IsByte}
use avicoin.UnitTests.{is_err}

abbrev pub sum : Bytes → ℕ
sum [] = 0
sum (b ∷ bs) = b + sum bs

abbrev pub sum_sha : Sha256
sum_sha = record {
  digest = λ bs. (sum bs % 256) ∷ replicate 31 0;
  digest-IsArray = λ bs. (refl, (omega arith, zeros-IsByte 31));
}

-- `header_claiming`.
abbrev pub header_claiming : ℕ → Result Bytes
header_claiming payload_size = do
  name ← command_12 ping_command_name
  ok (magic ++ (name ++ (to_le_bytes 4 payload_size ++ replicate 4 0)))

abbrev parsed : Bytes → Result (Option MessageReceived × ℕ)
parsed = try_parse_message sum_sha

abbrev a_real_ping : Result Bytes
a_real_ping = framed sum_sha (new_ping 5)

abbrev AnOversizedPayloadIsRejectedOnTheHeaderAlone : ℕ → Type 0
AnOversizedPayloadIsRejectedOnTheHeaderAlone claimed =
    ((do header ← header_claiming claimed; ok (length header)) ≡ ok header_length)
    × ((do header ← header_claiming claimed; parsed header) ≡ err (payload_too_large claimed))

abbrev APayloadAtTheLimitIsNotRejectedForBeingTooLarge : Type 0
APayloadAtTheLimitIsNotRejectedForBeingTooLarge =
    (do header ← header_claiming max_payload_size; parsed header) ≡ ok (none, 0)

abbrev AnIncompleteMessageAsksForMoreBytes : ℕ → Type 0
AnIncompleteMessageAsksForMoreBytes available =
    (do message ← a_real_ping; parsed (take available message)) ≡ ok (none, 0)

-- The nonce of a ping that was parsed, and how many bytes it took.
abbrev nonce_and_length : Option MessageReceived × ℕ → Option ℕ × ℕ
nonce_and_length (some (ping_message ping), consumed) = (some ping.payload.nonce, consumed)
nonce_and_length (_, consumed) = (none, consumed)

abbrev ACompleteMessageParsesBackToWhatWasSerialized : Type 0
ACompleteMessageParsesBackToWhatWasSerialized =
    (do message ← a_real_ping; result ← parsed message; ok (nonce_and_length result))
    ≡ ok (some 5, 32)

abbrev TrailingBytesOfASecondMessageAreLeftAlone : Type 0
TrailingBytesOfASecondMessageAreLeftAlone =
    (do
      first ← a_real_ping
      second ← framed sum_sha (new_ping 6)
      result ← parsed (first ++ second)
      ok (nonce_and_length result))
    ≡ ok (some 5, 32)

-- `message[i] ^= 0xff`.
abbrev flipped : ℕ → Bytes → Bytes
flipped i [] = []
flipped zero (b ∷ bs) = (255 - b) ∷ bs
flipped (suc i) (b ∷ bs) = b ∷ flipped i bs

abbrev ForeignMagicBytesAreRejected : Type 0
ForeignMagicBytesAreRejected = is_err (do message ← a_real_ping; parsed (flipped 0 message)) ≡ true

abbrev ACorruptedPayloadFailsItsChecksum : Type 0
ACorruptedPayloadFailsItsChecksum =
    (do message ← a_real_ping; parsed (flipped (length message - 1) message)) ≡ err invalid_checksum

abbrev AnUnknownCommandIsRejected : Type 0
AnUnknownCommandIsRejected =
    is_err (do
      message ← a_real_ping
      name ← command_12 (110 ∷ 111 ∷ 116 ∷ 97 ∷ 99 ∷ 111 ∷ 109 ∷ 109 ∷ 97 ∷ 110 ∷ 100 ∷ [])
      parsed (take 4 message ++ (name ++ drop 16 message)))
    ≡ true

-- src/messages/version.rs.
abbrev through_the_wire : Version → Result Version
through_the_wire version = parse_version (version_bytes version)

abbrev AVersionSurvivesARoundTrip : SocketAddr → Type 0
AVersionSurvivesARoundTrip listen_address =
    let original = new_version 0xdead_beef_cafe_f00d listen_address in
    through_the_wire original ≡ ok original

abbrev is_ipv4 : SocketAddr → Bool
is_ipv4 (SocketAddr.v4 octets port) = true
is_ipv4 (SocketAddr.v6 octets port flowinfo scope_id) = false

abbrev Av4AddressDoesNotComeBackAsAMappedV6One : Type 0
Av4AddressDoesNotComeBackAsAMappedV6One =
    (do
      version ← through_the_wire (new_version 1 (SocketAddr.v4 (127 ∷ 0 ∷ 0 ∷ 1 ∷ []) 34352))
      ok (is_ipv4 version.listen_address))
    ≡ ok true

abbrev complete : Bytes
complete = version_bytes (new_version 1 (SocketAddr.v4 (127 ∷ 0 ∷ 0 ∷ 1 ∷ []) 1))

-- The loop over all lengths below one.
abbrev all_refused : ℕ → Bool
all_refused zero = true
all_refused (suc length) = is_err (parse_version (take length complete)) && all_refused length

abbrev ATruncatedVersionIsRefusedRatherThanFilledIn : Type 0
ATruncatedVersionIsRefusedRatherThanFilledIn = all_refused (length complete) ≡ true

abbrev AVersionWithBytesToSpareIsRefusedRatherThanTruncated : Type 0
AVersionWithBytesToSpareIsRefusedRatherThanTruncated =
    is_err (parse_version (complete ++ 0 ∷ [])) ≡ true

abbrev AVerackSurvivesARoundTrip : Type 0
AVerackSurvivesARoundTrip =
    (do raw ← Verack-Payload.get_raw_format verack; parse_verack raw) ≡ ok verack

abbrev AVerackCarryingAPayloadIsRefused : Type 0
AVerackCarryingAPayloadIsRefused = is_err (parse_verack (0 ∷ [])) ≡ true

-- They pass.
message_tests_pass :
    (AnOversizedPayloadIsRejectedOnTheHeaderAlone (max_payload_size + 1)
      × AnOversizedPayloadIsRejectedOnTheHeaderAlone (2 ^ 32 - 1))
    × APayloadAtTheLimitIsNotRejectedForBeingTooLarge
    × (AnIncompleteMessageAsksForMoreBytes 0
        × AnIncompleteMessageAsksForMoreBytes (header_length / 2)
        × AnIncompleteMessageAsksForMoreBytes (header_length - 1)
        × AnIncompleteMessageAsksForMoreBytes header_length
        × AnIncompleteMessageAsksForMoreBytes (header_length + 4))
    × ACompleteMessageParsesBackToWhatWasSerialized
    × TrailingBytesOfASecondMessageAreLeftAlone
    × ForeignMagicBytesAreRejected
    × ACorruptedPayloadFailsItsChecksum
    × AnUnknownCommandIsRejected
    × (AVersionSurvivesARoundTrip (SocketAddr.v4 (127 ∷ 0 ∷ 0 ∷ 1 ∷ []) 34352)
        × AVersionSurvivesARoundTrip (SocketAddr.v4 (replicate 4 0) 1)
        × AVersionSurvivesARoundTrip (SocketAddr.v4 (192 ∷ 168 ∷ 1 ∷ 10 ∷ []) 65535)
        × AVersionSurvivesARoundTrip (SocketAddr.v6 (replicate 15 0 ++ 1 ∷ []) 34352 0 0)
        × AVersionSurvivesARoundTrip (
            SocketAddr.v6
              (0x20 ∷ 0x01 ∷ 0x0d ∷ 0xb8 ∷ replicate 8 0 ++ 0xde ∷ 0xad ∷ 0xbe ∷ 0xef ∷ [])
              8333
              0
              0))
    × Av4AddressDoesNotComeBackAsAMappedV6One
    × ATruncatedVersionIsRefusedRatherThanFilledIn
    × AVersionWithBytesToSpareIsRefusedRatherThanTruncated
    × AVerackSurvivesARoundTrip
    × AVerackCarryingAPayloadIsRefused
unfolding command_12 is_ascii to_le_bytes from_le_bytes bytes_eq try_parse_message from_raw_format
    read_header new take_bytes take_array read_u32 read_array read_bytes parse_frame new_ping
    new_message from_payload message_bytes header_bytes get_hash Ping-Payload open_frame
    parse_command_12 cleaned_bytes position from_utf8 is_utf8 parse_payload parse_ping read_ping
    read_u64 new_version version_bytes write_address parse_version read_version read_address
    to_ipv4_mapped read_u16 parse_verack Verack-Payload
message_tests_pass = (
  ((refl, refl), (refl, refl)),
  refl,
  (refl, refl, refl, refl, refl),
  refl,
  refl,
  refl,
  refl,
  refl,
  (refl, refl, refl, refl, refl),
  refl,
  refl,
  refl,
  refl,
  refl,
)
