-- ===== src/Block/Parsed.antt =====
-- A block that comes out of the parser.
use avicoin.Prelude.{◌≡◌, refl, ap, Option, none, some, ◌++◌, length, replicate}
use avicoin.Outcome.{Result, ok, err, hash_is_empty}
use avicoin.Words.{Bytes, extend_all}
use avicoin.Reader.{new, lift, repeat, read_i32, read_u32, read_array, read_compact}
use avicoin.Reader.Yields.{Yields, Yields-bind, Yields-pure}
use avicoin.Util.{get_compact_int}
use avicoin.Transaction
use avicoin.Transaction.{with_capacity}
use avicoin.Block.{Block, size_of_transaction, get_raw_format, parse_block, parse_raw}

record IsBlank (b : Block) : Type 0 where
  hash : b.hash ≡ none
  mine_array : b.mine_array ≡ replicate 80 0

parse_block-IsBlank : Yields IsBlank parse_block
unfolding parse_block
parse_block-IsBlank = Yields-bind IsBlank read_i32 _ λ version.
    Yields-bind IsBlank (read_array 32) _ λ previous. Yields-bind IsBlank (read_array 32) _ λ root.
      Yields-bind IsBlank read_u32 _ λ time. Yields-bind IsBlank read_u32 _ λ n_bits.
        Yields-bind IsBlank read_u32 _ λ nonce. Yields-bind IsBlank read_compact _ λ tx_count.
          Yields-bind IsBlank (lift (with_capacity size_of_transaction tx_count)) _ λ _.
            Yields-bind IsBlank (repeat tx_count Transaction.parse_raw) _
              λ transactions. Yields-pure IsBlank _ (record { hash = refl; mine_array = refl })

-- A block from the parser has no bytes: `get_raw_format` asks for a hash. Given one, as its message
-- suggests, it writes 80 zero bytes where the header was.
pub get_raw_format-parse_raw :
    (bytes : Bytes) (b : Block) (hash : Bytes)
    → parse_raw bytes ≡ ok b
    → (get_raw_format b ≡ err hash_is_empty)
      × (get_raw_format (record b { hash = some hash })
          ≡ ok (
              replicate 80 0
              ++ (get_compact_int (length b.transactions)
                  ++ extend_all Transaction.get_raw_format b.transactions)))
unfolding parse_raw get_raw_format
get_raw_format-parse_raw bytes b hash e =
    let blank = parse_block-IsBlank.value (new bytes) b e in
    (ap raw blank.hash, ap (λ array. ok (array ++ body)) blank.mine_array)
  where
    body : Bytes
    body =
        get_compact_int (length b.transactions)
        ++ extend_all Transaction.get_raw_format b.transactions

    raw : Option Bytes → Result Bytes
    raw h = get_raw_format (record b { hash = h })
