-- ===== src/Tests/Wire.antt =====
-- The theorems on bytes at concrete inputs.
use avicoin.Prelude.{
  ℕ, ◌+◌, ◌^◌, ◌≡◌, ◌⊎◌, refl, some, [], ◌∷◌, ◌++◌, arith, length, ◌<◌, replicate,
}
use avicoin.Outcome.{Result, ok, err, panic, invalid_command_padding}
use avicoin.Words.{Bytes, to_le_bytes}
use avicoin.Reader.{new}
use avicoin.Util.{parse_command_12, get_compact_int}
use avicoin.Util.Command.{parse_command_12_cases, IsPadded}
use avicoin.Net.{SocketAddr}
use avicoin.Messages.Kinds.{Ping-Payload, Version-Payload, Verack-Payload, Version}
use avicoin.Messages.Frame.{header_length, max_payload_size}
use avicoin.Messages.{MessageReceived, version_message, verack_message, try_parse_message}
use avicoin.Messages.Stream.{Parsed, try_parse_message-append, try_parse_message-Parsed}
use avicoin.Messages.RoundTrip.{IsVersion}
use avicoin.Messages.Carried.{Carried}
use avicoin.Messages.Exchange.{version-Carried, verack-Carried}
use avicoin.Protocol.{drain, process_incoming_bytes, continued}
use avicoin.Protocol.Buffer.Left.{process_incoming_bytes-bounded}
use avicoin.Protocol.Buffer.{process_incoming_bytes-append}
use avicoin.Transaction.{get_raw_format, parse_raw, input_bytes, string_bytes, output_bytes}
use avicoin.Transaction.RoundTrip.{parse_raw-get_raw_format, get_raw_format-prefix_free}
use avicoin.Transaction.Hostile.{parse_raw_panics}
use avicoin.Tests.{zero_sha, payment, payment-IsTransaction}

parse_command_12_cases_example :
    ((name : Bytes) × (parse_command_12 (replicate 12 7) ≡ ok name)
      × IsPadded name (replicate 12 7))
    ⊎ (parse_command_12 (replicate 12 7) ≡ err invalid_command_padding)
parse_command_12_cases_example = parse_command_12_cases (replicate 12 7) refl

parse_raw-get_raw_format_example : parse_raw (new (get_raw_format payment ++ 7 ∷ [])) ≡ (
  ok payment,
  record { bytes = get_raw_format payment ++ 7 ∷ []; position = length (get_raw_format payment) },
)
unfolding get_raw_format get_compact_int to_le_bytes input_bytes string_bytes output_bytes
parse_raw-get_raw_format_example =
    parse_raw-get_raw_format payment (7 ∷ []) payment-IsTransaction (omega arith)

get_raw_format-prefix_free_example : payment ≡ payment
unfolding get_raw_format get_compact_int to_le_bytes input_bytes string_bytes output_bytes
get_raw_format-prefix_free_example =
    get_raw_format-prefix_free payment payment (7 ∷ []) (7 ∷ []) payment-IsTransaction
      payment-IsTransaction (omega arith) refl

parse_raw_panics_example :
    (parse_raw (new (to_le_bytes 4 1 ++ (get_compact_int (2 ^ 60) ++ [])))).0 ≡ panic
unfolding get_compact_int to_le_bytes
parse_raw_panics_example =
    parse_raw_panics 1 (2 ^ 60) [] (omega arith) (omega arith) (omega arith) (omega arith)

abbrev pub hello : Version
hello = record {
  protocol_version = 1;
  nonce = 9;
  listen_address = SocketAddr.v4 (127 ∷ 0 ∷ 0 ∷ 1 ∷ []) 34352;
}

pub hello-IsVersion : IsVersion hello
hello-IsVersion = record {
  protocol_version = omega arith;
  nonce = omega arith;
  listen_address =
      ((refl, (omega arith, (omega arith, (omega arith, (omega arith, tt))))), omega arith);
}

version-Carried_example : Carried zero_sha hello version_message
version-Carried_example = version-Carried zero_sha hello hello-IsVersion

-- The bytes of a verack.
abbrev farewell : Bytes
farewell = (verack-Carried zero_sha).bytes ++ []

try_parse_message-append_example :
    try_parse_message zero_sha (farewell ++ 7 ∷ []) ≡ try_parse_message zero_sha farewell
try_parse_message-append_example =
    try_parse_message-append zero_sha farewell (7 ∷ [])
      (λ e. cc (e, (verack-Carried zero_sha).parsed []))

try_parse_message-Parsed_example :
    Parsed farewell (some verack_message) (length (verack-Carried zero_sha).bytes)
try_parse_message-Parsed_example =
    try_parse_message-Parsed zero_sha farewell (some verack_message)
      (length (verack-Carried zero_sha).bytes) ((verack-Carried zero_sha).parsed [])

-- A handler that counts.
abbrev count : MessageReceived → ℕ → Result (Unit {0}) × ℕ
count m n = (ok tt, n + 1)

process_incoming_bytes-append_example :
    process_incoming_bytes zero_sha count [] 0 (farewell ++ 7 ∷ [])
    ≡ continued zero_sha count (process_incoming_bytes zero_sha count [] 0 farewell) (7 ∷ [])
process_incoming_bytes-append_example =
    process_incoming_bytes-append zero_sha count [] farewell (7 ∷ []) 0

process_incoming_bytes-bounded_example : 2 < header_length + max_payload_size
unfolding process_incoming_bytes drain try_parse_message
process_incoming_bytes-bounded_example =
    process_incoming_bytes-bounded zero_sha count (5 ∷ []) (6 ∷ []) (5 ∷ 6 ∷ []) 0 0 refl
