-- ===== src/UnitTests/Chain.antt =====
-- The tests of src/block.rs and src/transaction.rs that do not need SHA-256 itself. The hash is the
-- value of the bytes as digits, cut to 32 bytes.
use avicoin.Prelude.{
  ℕ, ◌+◌, ◌*◌, ◌≡◌, refl, true, false, Option, none, some, List, [], ◌∷◌, ◌++◌, length, replicate,
  bytes_eq,
}
use avicoin.Prelude.Int.{ℤ, bits_of_i32}
use avicoin.Outcome.{ok}
use avicoin.Words.{Bytes, to_le_bytes, from_le_bytes, length-to_le_bytes, to_le_bytes-IsByte}
use avicoin.Text.{is_utf8, from_utf8}
use avicoin.Reader.{
  new, take_bytes, take_array, read_byte, read_u16, read_u32, read_u64, read_array, read_bytes,
  read_compact, repeat, slice,
}
use avicoin.Util.{Sha256, get_hash, get_compact_int}
use avicoin.Transaction.{
  Transaction, get_raw_format, parse_raw, get_tx_id, input_bytes, output_bytes, string_bytes,
  parse_string, parse_input, parse_output,
}
use avicoin.Merkle.{join, next_level, merkle_loop, merkle_root}
use avicoin.Block.{Block, prepare_for_mining, get_merkle_root_hash}
use avicoin.UnitTests.{is_ok, is_err}

abbrev digits : Bytes → ℕ → ℕ
digits [] n = n
digits (b ∷ bs) n = digits bs (n * 31 + b)

abbrev digit_sha : Sha256
digit_sha = record {
  digest = λ bs. to_le_bytes 32 (digits bs 1);
  digest-IsArray = λ bs. (length-to_le_bytes 32 (digits bs 1), to_le_bytes-IsByte 32 (digits bs 1));
}

abbrev leaf_number : ℕ → Bytes
leaf_number n = n ∷ replicate 31 0

abbrev node : Bytes → Bytes → Bytes
node left right = get_hash digit_sha (left ++ right)

abbrev root_of : List Bytes → Option Bytes
root_of leaves = merkle_root digit_sha leaves

abbrev ASingleTransactionIsItsOwnRoot : Type 0
ASingleTransactionIsItsOwnRoot =
    let coinbase : Bytes =
      (0x3b ∷ 0xa3 ∷ 0xed ∷ 0xfd ∷ 0x7a ∷ 0x7b ∷ 0x12 ∷ 0xb2 ∷ 0x7a ∷ 0xc7 ∷ 0x2c ∷ 0x3e ∷ 0x67
        ∷ 0x76 ∷ 0x8f ∷ 0x61 ∷ 0x7f ∷ 0xc8 ∷ 0x1b ∷ 0xc3 ∷ 0x88 ∷ 0x8a ∷ 0x51 ∷ 0x32 ∷ 0x3a ∷ 0x9f
        ∷ 0xb8 ∷ 0xaa ∷ 0x4b ∷ 0x1e ∷ 0x5e ∷ 0x4a ∷ []) in
    root_of (coinbase ∷ []) ≡ some coinbase

abbrev FourLeavesPairLeftToRight : Type 0
FourLeavesPairLeftToRight =
    some (node (node (leaf_number 1) (leaf_number 2)) (node (leaf_number 3) (leaf_number 4)))
    ≡ root_of (leaf_number 1 ∷ leaf_number 2 ∷ leaf_number 3 ∷ leaf_number 4 ∷ [])

abbrev AnOddLevelDuplicatesItsLastNode : Type 0
AnOddLevelDuplicatesItsLastNode =
    some (node (node (leaf_number 1) (leaf_number 2)) (node (leaf_number 3) (leaf_number 3)))
    ≡ root_of (leaf_number 1 ∷ leaf_number 2 ∷ leaf_number 3 ∷ [])

abbrev DuplicationHappensPerLevelNotByPaddingTheLeaves : Type 0
DuplicationHappensPerLevelNotByPaddingTheLeaves =
    let four = node (node (leaf_number 1) (leaf_number 2)) (node (leaf_number 3) (leaf_number 4)) in
    let per_level =
      node four
        (node (node (leaf_number 5) (leaf_number 6)) (node (leaf_number 5) (leaf_number 6))) in
    let padded =
      node four
        (node (node (leaf_number 5) (leaf_number 6)) (node (leaf_number 6) (leaf_number 6))) in
    (bytes_eq per_level padded ≡ false)
    × (some per_level
        ≡ root_of (
            leaf_number 1
            ∷ leaf_number 2
            ∷ leaf_number 3
            ∷ leaf_number 4
            ∷ leaf_number 5
            ∷ leaf_number 6
            ∷ []))

abbrev NoTransactionsHasNoRoot : Type 0
NoTransactionsHasNoRoot = root_of [] ≡ none

abbrev get_tx : Transaction
get_tx = record {
  version = 1;
  inputs =
      record {
        previous_output = record { tx_id = replicate 32 0; v_out = 0 };
        signature = (109 ∷ 121 ∷ 95 ∷ 115 ∷ 105 ∷ 103 ∷ 110 ∷ 97 ∷ 116 ∷ 117 ∷ 114 ∷ 101 ∷ []);
        sequence = 0xffff_ffff;
      }
      ∷ [];
  outputs = record { value = 10_000; destiny_pub_key = (49 ∷ 50 ∷ 51 ∷ 52 ∷ 53 ∷ []) } ∷ [];
  lock_time = 0;
}

abbrev get_block : ℕ → Block
get_block number_of_transactions = record {
  version = ℤ.pos 1;
  previous_block_hash = replicate 32 0;
  merkle_root_hash = some (
      0x3b ∷ 0xa3 ∷ 0xed ∷ 0xfd ∷ 0x7a ∷ 0x7b ∷ 0x12 ∷ 0xb2 ∷ 0x7a ∷ 0xc7 ∷ 0x2c ∷ 0x3e ∷ 0x67
      ∷ 0x76 ∷ 0x8f ∷ 0x61 ∷ 0x7f ∷ 0xc8 ∷ 0x1b ∷ 0xc3 ∷ 0x88 ∷ 0x8a ∷ 0x51 ∷ 0x32 ∷ 0x3a ∷ 0x9f
      ∷ 0xb8 ∷ 0xaa ∷ 0x4b ∷ 0x1e ∷ 0x5e ∷ 0x4a ∷ []);
  time = 0x495f_ab29;
  n_bits = 0x1d00_ffff;
  nonce = 0x7c2b_ac1d;
  hash = none;
  mine_array = replicate 80 0;
  transactions = replicate number_of_transactions get_tx;
}

abbrev a_transaction : ℕ → Transaction
a_transaction marker = record get_tx {
  outputs =
      record { value = 10_000 + marker; destiny_pub_key = (49 ∷ 50 ∷ 51 ∷ 52 ∷ 53 ∷ []) } ∷ [];
}

abbrev ABlocksLeavesAreItsTransactionIdsInOrder : Type 0
ABlocksLeavesAreItsTransactionIdsInOrder =
    let first = get_tx_id digit_sha (a_transaction 1) in
    let second = get_tx_id digit_sha (a_transaction 2) in
    let block = record (get_block 0) { transactions = a_transaction 1 ∷ a_transaction 2 ∷ [] } in
    (bytes_eq first second ≡ false)
    × (ok (node first second) ≡ get_merkle_root_hash digit_sha block)

abbrev ABlockWithNoTransactionsHasNoRootRatherThanZeroes : Type 0
ABlockWithNoTransactionsHasNoRootRatherThanZeroes =
    is_err (get_merkle_root_hash digit_sha (get_block 0)) ≡ true

abbrev PreHashCorrectlyAssembled : Type 0
PreHashCorrectlyAssembled =
    let (result, block) = prepare_for_mining (record (get_block 0) { nonce = 0 }) in
    (is_ok result ≡ true)
    × (length block.mine_array ≡ 80)
    × (slice 0 4 block.mine_array ≡ 1 ∷ 0 ∷ 0 ∷ 0 ∷ [])
    × (slice 4 36 block.mine_array ≡ replicate 32 0)
    × (slice 36 68 block.mine_array ≡ (
        0x3b ∷ 0xa3 ∷ 0xed ∷ 0xfd ∷ 0x7a ∷ 0x7b ∷ 0x12 ∷ 0xb2 ∷ 0x7a ∷ 0xc7 ∷ 0x2c ∷ 0x3e ∷ 0x67
        ∷ 0x76 ∷ 0x8f ∷ 0x61 ∷ 0x7f ∷ 0xc8 ∷ 0x1b ∷ 0xc3 ∷ 0x88 ∷ 0x8a ∷ 0x51 ∷ 0x32 ∷ 0x3a ∷ 0x9f
        ∷ 0xb8 ∷ 0xaa ∷ 0x4b ∷ 0x1e ∷ 0x5e ∷ 0x4a ∷ []))
    × (slice 68 72 block.mine_array ≡ 0x29 ∷ 0xab ∷ 0x5f ∷ 0x49 ∷ [])
    × (slice 72 76 block.mine_array ≡ 0xff ∷ 0xff ∷ 0x00 ∷ 0x1d ∷ [])

abbrev original_tx : Transaction
original_tx = record {
  version = 42;
  inputs =
      record {
        previous_output = record { tx_id = replicate 32 0; v_out = 123 };
        signature =
            (102 ∷ 105 ∷ 114 ∷ 115 ∷ 116 ∷ 95 ∷ 115 ∷ 105 ∷ 103 ∷ 110 ∷ 97 ∷ 116 ∷ 117 ∷ 114 ∷ 101
              ∷ []);
        sequence = 0xffff_ffff;
      }
      ∷ record {
        previous_output = record { tx_id = replicate 32 255; v_out = 456 };
        signature =
            (115 ∷ 101 ∷ 99 ∷ 111 ∷ 110 ∷ 100 ∷ 95 ∷ 115 ∷ 105 ∷ 103 ∷ 110 ∷ 97 ∷ 116 ∷ 117 ∷ 114
              ∷ 101 ∷ []);
        sequence = 0xffff_fffe;
      }
      ∷ [];
  outputs =
      record {
        value = 1_000_000;
        destiny_pub_key =
            (102 ∷ 105 ∷ 114 ∷ 115 ∷ 116 ∷ 95 ∷ 112 ∷ 117 ∷ 98 ∷ 108 ∷ 105 ∷ 99 ∷ 95 ∷ 107 ∷ 101
              ∷ 121 ∷ []);
      }
      ∷ record {
        value = 500_000;
        destiny_pub_key =
            (115 ∷ 101 ∷ 99 ∷ 111 ∷ 110 ∷ 100 ∷ 95 ∷ 112 ∷ 117 ∷ 98 ∷ 108 ∷ 105 ∷ 99 ∷ 95 ∷ 107
              ∷ 101 ∷ 121 ∷ 95 ∷ 108 ∷ 111 ∷ 110 ∷ 103 ∷ 101 ∷ 114 ∷ []);
      }
      ∷ [];
  lock_time = 7890;
}

abbrev TestTransactionRoundTripConversion : Type 0
TestTransactionRoundTripConversion =
    (parse_raw (new (get_raw_format original_tx))).0 ≡ ok original_tx

-- They pass.
chain_tests_pass :
    ASingleTransactionIsItsOwnRoot × FourLeavesPairLeftToRight × AnOddLevelDuplicatesItsLastNode
    × DuplicationHappensPerLevelNotByPaddingTheLeaves × NoTransactionsHasNoRoot
    × ABlocksLeavesAreItsTransactionIdsInOrder × ABlockWithNoTransactionsHasNoRootRatherThanZeroes
    × PreHashCorrectlyAssembled × TestTransactionRoundTripConversion
unfolding merkle_root merkle_loop next_level join get_hash to_le_bytes bytes_eq get_merkle_root_hash
    get_tx_id get_raw_format get_compact_int input_bytes output_bytes string_bytes
    prepare_for_mining bits_of_i32 parse_raw parse_input parse_output parse_string new take_bytes
    take_array read_byte read_u16 read_u32 read_u64 read_array read_bytes read_compact repeat
    from_le_bytes from_utf8 is_utf8
chain_tests_pass = (
  refl,
  refl,
  refl,
  (refl, refl),
  refl,
  (refl, refl),
  refl,
  (refl, refl, refl, refl, refl, refl, refl),
  refl,
)
