-- ===== src/Messages/Frame.antt =====
-- src/messages/message.rs: the constants of the frame and its `Header`.
use avicoin.Prelude.{ℕ, ◌*◌, not, [], ◌∷◌, ◌++◌, ltb, if◌then◌else◌, length, bytes_eq}
use avicoin.Outcome.{Result, err, refuse_if, header_too_short, invalid_magic_bytes}
use avicoin.Words.{Bytes, to_le_bytes}
use avicoin.Reader.{Read, ◌>>=◌, ◌>>◌, pure, lift, new, read_u32, read_array}

abbrev pub magic : Bytes
magic = 0xf9 ∷ 0xbe ∷ 0xb4 ∷ 0xd9 ∷ []

abbrev pub header_length : ℕ
header_length = 24

abbrev pub max_payload_size : ℕ
max_payload_size = 32 * 1024 * 1024

pub record Header : Type 0 where
  pub magic_bytes : Bytes
  pub command_name : Bytes
  pub payload_size : ℕ
  pub checksum : Bytes

-- `Header::get_raw_format`: the four fields fill the array from its front.
unfoldable pub header_bytes : Header → Bytes
header_bytes h = h.magic_bytes ++ (h.command_name ++ (to_le_bytes 4 h.payload_size ++ h.checksum))

unfoldable pub read_header : Read Header
read_header = do
  magic_bytes ← read_array 4
  lift (refuse_if (not (bytes_eq magic_bytes magic)) invalid_magic_bytes)
  command_name ← read_array 12
  payload_size ← read_u32
  checksum ← read_array 4
  pure (record {
    magic_bytes = magic_bytes;
    command_name = command_name;
    payload_size = payload_size;
    checksum = checksum;
  })

-- `Header::from_raw_format`.
unfoldable pub from_raw_format : Bytes → Result Header
from_raw_format bytes =
    if ltb (length bytes) header_length then err header_too_short else (read_header (new bytes)).0
