-- ===== src/Tests/Accepted.antt =====
-- The theorems on what the parsers accept, at concrete inputs.
use avicoin.Prelude.{
  ◌≤◌, length, ◌≡◌, refl, ap, [], ◌∷◌, ◌++◌, arith, some, take, replicate, bytes_eq,
}
use avicoin.Prelude.Int.{bits_of_i32}
use avicoin.Outcome.{ok}
use avicoin.Reader.{new}
use avicoin.Words.{Bytes, to_le_bytes, from_le_bytes}
use avicoin.Reader.{new, read_array, take_array, take_bytes, read_u32, read_bytes}
use avicoin.Util.{get_hash, get_compact_int, parse_command_12, cleaned_bytes, position}
use avicoin.Text.{is_ascii, is_utf8, from_utf8}
use avicoin.Transaction
use avicoin.Transaction.{
  IsTransaction, parse_string, parse_input, parse_output, input_bytes, string_bytes, output_bytes,
}
use avicoin.Transaction.RoundTrip.{parse_raw-get_raw_format}
use avicoin.Transaction.Typed.{parse_raw-IsTransaction}
use avicoin.Block.{IsBlock}
use avicoin.Block.RoundTrip.{block_bytes, parse_raw-mine}
use avicoin.Block.Typed.{parse_raw-IsBlock}
use avicoin.Messages.Kinds.{version_bytes, verack_command_name, write_address}
use avicoin.Messages.Frame.{magic, from_raw_format, read_header}
use avicoin.Messages.{verack_message, try_parse_message, parse_frame, open_frame, parse_payload}
use avicoin.Messages.Kinds.{parse_verack}
use avicoin.Messages.RoundTrip.{IsVersion, parse_version-version_bytes}
use avicoin.Messages.Canonical.{parse_version-inverts}
use avicoin.Messages.Written.{Written, try_parse_message-Written}
use avicoin.Tests.Wire.{hello, hello-IsVersion}
use avicoin.Tests.Chain.{root, mined, mined-Mined, received}
use avicoin.Tests.{
  zero_sha, zeros-IsByte, candidate, candidate-IsBlock, payment, payment-IsTransaction, are_bytes,
}

parse_raw-IsTransaction_example :
    IsTransaction payment
    × (length (Transaction.get_raw_format payment)
        ≤ length (Transaction.get_raw_format payment ++ 7 ∷ []))
    × ((Transaction.parse_raw (new (Transaction.get_raw_format payment))).0 ≡ ok payment)
unfolding Transaction.get_raw_format get_compact_int to_le_bytes input_bytes string_bytes
    output_bytes
parse_raw-IsTransaction_example =
    parse_raw-IsTransaction (Transaction.get_raw_format payment ++ 7 ∷ []) payment (omega arith)
      (are_bytes (Transaction.get_raw_format payment ++ 7 ∷ []) refl)
      (ap (λ q. q.0)
        (parse_raw-get_raw_format payment (7 ∷ []) payment-IsTransaction (omega arith)))

parse_raw-IsBlock_example : IsBlock received
unfolding Transaction.get_raw_format get_compact_int to_le_bytes input_bytes string_bytes
    output_bytes mined-Mined bits_of_i32
parse_raw-IsBlock_example =
    parse_raw-IsBlock (block_bytes candidate root 0 ++ 7 ∷ []) received (omega arith)
      (are_bytes (block_bytes candidate root 0 ++ 7 ∷ []) refl)
      (parse_raw-mine zero_sha candidate mined root (7 ∷ []) candidate-IsBlock
        (refl, zeros-IsByte 32) mined-Mined (omega arith)).1

parse_version-inverts_example : (version_bytes hello ≡ version_bytes hello) × IsVersion hello
unfolding version_bytes write_address to_le_bytes
parse_version-inverts_example =
    parse_version-inverts (version_bytes hello) hello (are_bytes (version_bytes hello) refl)
      (parse_version-version_bytes hello hello-IsVersion)

abbrev verack_frame : Bytes
verack_frame = magic ++ (verack_command_name ++ replicate 14 0)

verack_frame_parses :
    try_parse_message zero_sha (verack_frame ++ 7 ∷ []) ≡ ok (some verack_message, 24)
unfolding try_parse_message from_raw_format read_header read_array take_array take_bytes new
    bytes_eq read_u32 from_le_bytes parse_frame open_frame read_bytes get_hash parse_command_12
    cleaned_bytes position is_ascii is_utf8 from_utf8 parse_payload parse_verack
verack_frame_parses = refl

try_parse_message-Written_example :
    Written zero_sha verack_message (take 24 (verack_frame ++ 7 ∷ []))
try_parse_message-Written_example =
    try_parse_message-Written zero_sha (verack_frame ++ 7 ∷ []) verack_message 24
      (are_bytes (verack_frame ++ 7 ∷ []) refl) verack_frame_parses
