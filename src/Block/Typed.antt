-- ===== src/Block/Typed.antt =====
-- What `parse_raw` makes of bytes is a block of Rust's types.
use avicoin.Prelude.Int.{IsI32}
use avicoin.Prelude.{ℕ, ◌^◌, ◌<◌, ◌≡◌, refl, arith, length, All}
use avicoin.Outcome.{ok}
use avicoin.Words.{Bytes, IsByte}
use avicoin.Reader.{read_i32, read_u32, read_array}
use avicoin.Reader.Gets.Within.{IsWithin, Gets-next, Gets-last, IsWithin-word, IsWithin-taken}
use avicoin.Reader.Gets.{Gets-weaken, Gets, got_new}
use avicoin.Reader.Gets.Primitive.{Gets-read_u32, Gets-read_i32, Gets-read_array}
use avicoin.Transaction
use avicoin.Transaction.{Transaction, IsTransaction}
use avicoin.Transaction.Typed.{Gets-vector, Gets-parse_raw}
use avicoin.Block.{Block, IsBlock, size_of_transaction, parse_block, parse_raw}

-- The printed form of a block is not what is measured.
abbrev unmeasured {ℓ} : {A : Type ℓ} → A → ℕ
unmeasured a = 0

Gets-parse_block : Gets (IsWithin IsBlock unmeasured 0) parse_block
unfolding parse_block
Gets-parse_block =
    Gets-next _ _ _ _ 0 read_i32 _
      (Gets-weaken _ (IsWithin IsI32 unmeasured 0) read_i32 (λ z xs h. (h.1, omega arith))
        Gets-read_i32)
      λ version first.
        Gets-next _ _ _ _ _ (read_array 32) _ (IsWithin-taken 32 _ (Gets-read_array 32))
          λ previous back.
            Gets-next _ _ _ _ _ (read_array 32) _ (IsWithin-taken 32 _ (Gets-read_array 32))
              λ root top.
                Gets-next _ _ _ _ _ read_u32 _ (IsWithin-word 4 _ Gets-read_u32) λ time at.
                  Gets-next _ _ _ _ _ read_u32 _ (IsWithin-word 4 _ Gets-read_u32) λ n_bits bits.
                    Gets-next _ _ _ _ _ read_u32 _ (IsWithin-word 4 _ Gets-read_u32) λ nonce last.
                      Gets-vector IsTransaction Transaction.get_raw_format IsBlock unmeasured _
                        size_of_transaction Transaction.parse_raw _ Gets-parse_raw
                        λ transactions transactions_fit are_transactions.
                          Gets-last IsBlock unmeasured _ _
                            (record {
                              version = first;
                              previous_block_hash = back;
                              merkle_root_hash = top;
                              time = omega (arith, at);
                              n_bits = omega (arith, bits);
                              nonce = omega (arith, last);
                              mine_array = refl;
                              transactions = are_transactions;
                              transactions_fit = transactions_fit;
                            })
                            (omega arith)

-- On any bytes at all, a block that the parser returns is one of Rust's types: its numbers fit their
-- fields, its hashes have 32 bytes, its mining array has 80, each of its transactions is one of Rust's
-- types, and they fit in memory.
pub parse_raw-IsBlock :
    (bytes : Bytes) (b : Block)
    → length bytes < 2 ^ 64
    → All IsByte bytes
    → parse_raw bytes ≡ ok b
    → IsBlock b
unfolding parse_raw
parse_raw-IsBlock bytes b fits are_bytes e =
    (got_new _ parse_block bytes b fits are_bytes Gets-parse_block e).2.0
