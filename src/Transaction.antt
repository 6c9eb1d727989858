-- ===== src/Transaction.antt =====
-- src/transaction.rs: transactions and their bytes. A `String` is its bytes, which are valid UTF-8.
pub mod Format
pub mod RoundTrip
pub mod Hostile
pub mod Typed
use avicoin.Prelude.{ℕ, ◌*◌, ◌-◌, ◌^◌, ◌≤◌, ◌<◌, ◌≡◌, true, List, [], ◌∷◌, ◌++◌, leb, length, All}
use avicoin.Outcome.{Result, assert}
use avicoin.Words.{Bytes, IsArray, IsU32, IsU64, to_le_bytes, extend_all}
use avicoin.Text.{is_utf8, from_utf8}
use avicoin.Reader.{
  Read, ◌>>=◌, ◌>>◌, lift, pure, repeat, read_byte, read_u32, read_u64, read_array, read_compact,
}
use avicoin.Util.{Sha256, get_hash, get_compact_int}

pub record Outpoint : Type 0 where
  pub tx_id : Bytes
  pub v_out : ℕ

pub record TxIn : Type 0 where
  pub previous_output : Outpoint
  pub signature : Bytes
  pub sequence : ℕ

pub record TxOut : Type 0 where
  pub value : ℕ
  pub destiny_pub_key : Bytes

pub record Transaction : Type 0 where
  pub version : ℕ
  pub inputs : List TxIn
  pub outputs : List TxOut
  pub lock_time : ℕ

-- `isize::MAX` on 64 bits, and the sizes of the values that vectors hold.
abbrev pub isize_max : ℕ
isize_max = 2 ^ 63 - 1

abbrev pub size_of_u8 : ℕ
size_of_u8 = 1

abbrev pub size_of_tx_in : ℕ
size_of_tx_in = 64

abbrev pub size_of_tx_out : ℕ
size_of_tx_out = 32

-- `Vec::with_capacity(count)` panics when the vector would take more than `isize::MAX` bytes.
abbrev pub with_capacity : ℕ → ℕ → Result (Unit {0})
with_capacity size count = assert (leb (count * size) isize_max)

-- A string is written behind its length.
unfoldable pub string_bytes : Bytes → Bytes
string_bytes s = get_compact_int (length s) ++ s

unfoldable pub input_bytes : TxIn → Bytes
input_bytes tx =
    tx.previous_output.tx_id
    ++ (to_le_bytes 4 tx.previous_output.v_out
        ++ (string_bytes tx.signature ++ to_le_bytes 4 tx.sequence))

unfoldable pub output_bytes : TxOut → Bytes
output_bytes tx = to_le_bytes 8 tx.value ++ string_bytes tx.destiny_pub_key

unfoldable pub get_raw_format : Transaction → Bytes
get_raw_format tx =
    to_le_bytes 4 tx.version
    ++ (get_compact_int (length tx.inputs)
        ++ (extend_all input_bytes tx.inputs
            ++ (get_compact_int (length tx.outputs)
                ++ (extend_all output_bytes tx.outputs ++ to_le_bytes 4 tx.lock_time))))

unfoldable pub get_tx_id : Sha256 → Transaction → Bytes
get_tx_id sha tx = get_hash sha (get_raw_format tx)

-- A length, that many bytes, and the check that they are UTF-8.
unfoldable pub parse_string : Read Bytes
parse_string = do
  string_length ← read_compact
  lift (with_capacity size_of_u8 string_length)
  string_bytes ← repeat string_length read_byte
  lift (from_utf8 string_bytes)

unfoldable pub parse_input : Read TxIn
parse_input = do
  tx_id ← read_array 32
  v_out ← read_u32
  signature ← parse_string
  sequence ← read_u32
  pure record {
    previous_output = record { tx_id = tx_id; v_out = v_out };
    signature = signature;
    sequence = sequence;
  }

unfoldable pub parse_output : Read TxOut
parse_output = do
  value ← read_u64
  pub_key ← parse_string
  pure record { value = value; destiny_pub_key = pub_key }

unfoldable pub parse_raw : Read Transaction
parse_raw = do
  version ← read_u32
  input_count ← read_compact
  lift (with_capacity size_of_tx_in input_count)
  inputs ← repeat input_count parse_input
  output_count ← read_compact
  lift (with_capacity size_of_tx_out output_count)
  outputs ← repeat output_count parse_output
  lock_time ← read_u32
  pure record { version = version; inputs = inputs; outputs = outputs; lock_time = lock_time }

-- What Rust's types promise of the values, and that the vectors exist: they fit in memory.
pub record IsString (s : Bytes) : Type 0 where
  pub utf8 : is_utf8 s ≡ true
  pub fits : length s ≤ isize_max

pub record IsTxIn (tx : TxIn) : Type 0 where
  pub tx_id : IsArray 32 tx.previous_output.tx_id
  pub v_out : IsU32 tx.previous_output.v_out
  pub signature : IsString tx.signature
  pub sequence : IsU32 tx.sequence

pub record IsTxOut (tx : TxOut) : Type 0 where
  pub value : IsU64 tx.value
  pub destiny_pub_key : IsString tx.destiny_pub_key

pub record IsTransaction (tx : Transaction) : Type 0 where
  pub version : IsU32 tx.version
  pub inputs : All IsTxIn tx.inputs
  pub outputs : All IsTxOut tx.outputs
  pub lock_time : IsU32 tx.lock_time
  pub inputs_fit : length tx.inputs * size_of_tx_in ≤ isize_max
  pub outputs_fit : length tx.outputs * size_of_tx_out ≤ isize_max
