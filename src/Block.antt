-- ===== src/Block.antt =====
-- src/block.rs: blocks, their bytes and their mining.
-- A method on `&mut self` returns its result with the block that it leaves behind.
pub mod Header
pub mod Root
pub mod Target
pub mod Search
pub mod Mining
pub mod RoundTrip
pub mod Parsed
pub mod Typed
use avicoin.Prelude.{
  ltb, ℕ, zero, suc, ◌+◌, ◌-◌, ◌*◌, ◌/◌, ◌%◌, ◌^◌, ◌≤◌, ◌<◌, ◌≡◌, Bool, true, false, Option, none,
  some, List, [], ◌∷◌, ◌++◌, map, length, take, drop, replicate, All,
}
use avicoin.Prelude.Int.{ℤ, IsI32, bits_of_i32}
use avicoin.Outcome.{
  Result, ok, err, panic, ok_or, hash_is_empty, merkle_root_required, no_transaction,
}
use avicoin.Words.{from_le_bytes, Bytes, IsArray, IsU32, to_le_bytes, extend_all}
use avicoin.Reader.{
  Read, ◌>>=◌, ◌>>◌, lift, pure, new, repeat, read_i32, read_u32, read_array, read_compact,
}
use avicoin.Util.{Sha256, get_hash, get_compact_int}
use avicoin.Merkle.{merkle_root}
use avicoin.Transaction
use avicoin.Transaction.{Transaction, IsTransaction, with_capacity, isize_max, get_tx_id}

-- `U256` of the `primitive-types` crate: 256-bit words, and what they stand for.
pub record U256Crate : Type 1 where
  pub U256 : Type 0
  pub from : ℕ → U256
  pub shl : U256 → ℕ → U256
  pub from_little_endian : Bytes → U256
  pub lt : U256 → U256 → Bool
  pub value : U256 → ℕ
  pub value-from : (n : ℕ) → IsU32 n → value (from n) ≡ n
  pub value-shl : (u : U256) (k : ℕ) → value (shl u k) ≡ value u * 2 ^ k % 2 ^ 256
  pub value-from_little_endian :
      (bs : Bytes) → IsArray 32 bs → value (from_little_endian bs) ≡ from_le_bytes bs
  pub lt-value : (u v : U256) → lt u v ≡ ltb (value u) (value v)

pub record Block : Type 0 where
  pub version : ℤ
  pub previous_block_hash : Bytes
  pub merkle_root_hash : Option Bytes
  pub time : ℕ
  pub n_bits : ℕ
  pub nonce : ℕ
  pub hash : Option Bytes
  pub mine_array : Bytes
  pub transactions : List Transaction

pub new_block : ℤ → Bytes → ℕ → ℕ → List Transaction → Block
new_block version previous_block_hash time n_bits transactions = record {
  version = version;
  previous_block_hash = previous_block_hash;
  merkle_root_hash = none;
  time = time;
  n_bits = n_bits;
  nonce = 0;
  hash = none;
  mine_array = replicate 80 0;
  transactions = transactions;
}

-- `xs[lo..lo + bs.len()].copy_from_slice(bs)`.
abbrev pub write_at : ℕ → Bytes → Bytes → Bytes
write_at lo bs xs = take lo xs ++ (bs ++ drop (lo + length bs) xs)

-- The two writes before the root is asked for, and the four from the root on.
abbrev write_front : Block → Bytes
write_front b =
    write_at 4 b.previous_block_hash
      (write_at 0 (to_le_bytes 4 (bits_of_i32 b.version)) b.mine_array)

abbrev write_back : Block → Bytes → Bytes → Bytes
write_back b root mine_array = write_at 76 (to_le_bytes 4 b.nonce) (
    write_at 72 (to_le_bytes 4 b.n_bits)
      (write_at 68 (to_le_bytes 4 b.time) (write_at 36 root mine_array)))

-- Without a root the front of the array has been written when the call fails.
pub write_root : Option Bytes → Block → Result (Unit {0}) × Block
write_root none b = (err merkle_root_required, record b { mine_array = write_front b })
write_root (some root) b = (ok tt, record b { mine_array = write_back b root (write_front b) })

unfoldable pub prepare_for_mining : Block → Result (Unit {0}) × Block
unfolding write_root
prepare_for_mining b = write_root b.merkle_root_hash b

unfoldable pub get_merkle_root_hash : Sha256 → Block → Result Bytes
get_merkle_root_hash sha b =
    ok_or (merkle_root sha (map (get_tx_id sha) b.transactions)) no_transaction

-- `0..u32::MAX` leaves `u32::MAX` itself out.
abbrev pub u32_max : ℕ
u32_max = 2 ^ 32 - 1

module _ (sha : Sha256) (crate : U256Crate) where
  open crate use {U256, from, shl, from_little_endian, lt}

  -- `target >> 24` and `target & 0x007FFFFF` are a quotient and a remainder.
  unfoldable pub get_target_256 : Block → U256
  get_target_256 b =
      let exponent = b.n_bits / 2 ^ 24 in
      let mantissa = b.n_bits % 2 ^ 23 in shl (from mantissa) (exponent * 8)

  -- The proof of work that an array makes.
  abbrev pub wins : U256 → Bytes → Bool
  wins target mine_array = lt (from_little_endian (get_hash sha mine_array)) target

  -- `for nonce in nonce..nonce + left`.
  pub search_nonce : ℕ → ℕ → U256 → Block → Bool × Block
  search_nonce zero nonce target b = (false, b)
  search_nonce (suc left) nonce target b =
      let mine_array = write_at 76 (to_le_bytes 4 nonce) b.mine_array in
      elim (wins target mine_array) [
        | true ↦ (
          true,
          record b {
            nonce = nonce;
            hash = some (get_hash sha mine_array);
            mine_array = mine_array;
          },
        )
        | false ↦ search_nonce left (nonce + 1) target (record b { mine_array = mine_array })
      ]

  mine_prepared : Result (Unit {0}) × Block → Result Bool × Block
  mine_prepared (ok _, b) =
      let (found, b') = search_nonce u32_max 0 (get_target_256 b) b in (ok found, b')
  mine_prepared (err e, b) = (err e, b)
  mine_prepared (panic, b) = (panic, b)

  mine_rooted : Result Bytes → Block → Result Bool × Block
  mine_rooted (ok root) b =
      mine_prepared (prepare_for_mining (record b { merkle_root_hash = some root }))
  mine_rooted (err e) b = (err e, b)
  mine_rooted panic b = (panic, b)

  pub mine : Block → Result Bool × Block
  mine b = mine_rooted (get_merkle_root_hash sha b) b

unfoldable pub get_raw_format : Block → Result Bytes
get_raw_format b = elim b.hash [
  | none ↦ err hash_is_empty
  | some _ ↦ ok (
      b.mine_array
      ++ (get_compact_int (length b.transactions)
          ++ extend_all Transaction.get_raw_format b.transactions))
]

abbrev pub size_of_transaction : ℕ
size_of_transaction = 56

pub parse_block : Read Block
parse_block = do
  version ← read_i32
  previous_block_hash ← read_array 32
  merkle_root_hash ← read_array 32
  time ← read_u32
  n_bits ← read_u32
  nonce ← read_u32
  tx_count ← read_compact
  lift (with_capacity size_of_transaction tx_count)
  transactions ← repeat tx_count Transaction.parse_raw
  pure record {
    version = version;
    previous_block_hash = previous_block_hash;
    merkle_root_hash = some merkle_root_hash;
    time = time;
    n_bits = n_bits;
    nonce = nonce;
    hash = none;
    mine_array = replicate 80 0;
    transactions = transactions;
  }

-- Bytes behind the last transaction are not looked at.
pub parse_raw : Bytes → Result Block
unfolding parse_block
parse_raw bytes = (parse_block (new bytes)).0

abbrev pub IsRootHash : Option Bytes → Type 0
IsRootHash none = Unit {0}
IsRootHash (some root) = IsArray 32 root

-- What Rust's types promise of a block, and that its vector exists.
pub record IsBlock (b : Block) : Type 0 where
  pub version : IsI32 b.version
  pub previous_block_hash : IsArray 32 b.previous_block_hash
  pub merkle_root_hash : IsRootHash b.merkle_root_hash
  pub time : IsU32 b.time
  pub n_bits : IsU32 b.n_bits
  pub nonce : IsU32 b.nonce
  pub mine_array : length b.mine_array ≡ 80
  pub transactions : All IsTransaction b.transactions
  pub transactions_fit : length b.transactions * size_of_transaction ≤ isize_max
