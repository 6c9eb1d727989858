-- ===== src/Block/RoundTrip.antt =====
-- Blocks and their bytes.
use avicoin.Prelude.{
  ℕ, ◌^◌, ◌<◌, ◌≡◌, sym, ap, ◌∙◌, subst, none, some, [], ◌++◌, arith, length, replicate,
  append_assoc, append-nil,
}
use avicoin.Prelude.Int.{bits_of_i32}
use avicoin.Outcome.{ok}
use avicoin.Words.{Bytes, IsArray, IsU32, to_le_bytes, extend_all}
use avicoin.Reader.{new, read_array, read_i32, read_u32}
use avicoin.Reader.Take.{new-IsValid, remaining-new}
use avicoin.Reader.Reads.{
  Reads, Reads-bind, Reads-pure, Reads-read_array, Reads-read_u32, Reads-read_i32,
}
use avicoin.Util.{Sha256, get_compact_int}
use avicoin.Transaction
use avicoin.Transaction.{Transaction, IsTransaction}
use avicoin.Transaction.Format.{Reads-parse_raw, Reads-vector, All-map}
use avicoin.Block.{Block, IsBlock, size_of_transaction, get_raw_format, parse_block, parse_raw}
use avicoin.Block.Header.{header}
use avicoin.Block.Mining.{Mined}

-- The bytes of a block with header fields as given.
abbrev pub block_bytes : Block → Bytes → ℕ → Bytes
block_bytes b root nonce =
    header b root nonce
    ++ (get_compact_int (length b.transactions)
        ++ extend_all Transaction.get_raw_format b.transactions)

-- What the parser makes of them.
abbrev pub parsed : Block → Bytes → ℕ → Block
parsed b root nonce = record b {
  merkle_root_hash = some root;
  nonce = nonce;
  hash = none;
  mine_array = replicate 80 0;
}

array_32 : (xs : Bytes) → length xs ≡ 32 → Reads (read_array 32) xs xs
array_32 xs h = subst (λ n. Reads (read_array n) xs xs) h (Reads-read_array xs)

Reads-fields :
    (b : Block) (root : Bytes) (nonce : ℕ)
    → IsBlock b
    → IsArray 32 root
    → IsU32 nonce
    → Reads parse_block
        (to_le_bytes 4 (bits_of_i32 b.version)
          ++ (b.previous_block_hash
              ++ (root
                  ++ (to_le_bytes 4 b.time
                      ++ (to_le_bytes 4 b.n_bits
                          ++ (to_le_bytes 4 nonce
                              ++ (get_compact_int (length b.transactions)
                                  ++ (extend_all Transaction.get_raw_format b.transactions
                                      ++ []))))))))
        (parsed b root nonce)
unfolding parse_block
Reads-fields b root nonce h hr hn =
    Reads-bind read_i32 _ _ _ b.version _ (Reads-read_i32 _ h.version) (
      Reads-bind (read_array 32) _ _ _ b.previous_block_hash _
        (array_32 b.previous_block_hash h.previous_block_hash.0)
        (Reads-bind (read_array 32) _ _ _ root _ (array_32 root hr.0) (
          Reads-bind read_u32 _ _ _ b.time _ (Reads-read_u32 _ h.time) (
            Reads-bind read_u32 _ _ _ b.n_bits _ (Reads-read_u32 _ h.n_bits) (
              Reads-bind read_u32 _ _ _ nonce _ (Reads-read_u32 _ hn) (
                Reads-vector size_of_transaction Transaction.parse_raw Transaction.get_raw_format
                  b.transactions _ [] _ (omega arith) h.transactions_fit
                  (All-map b.transactions Reads-parse_raw h.transactions) (Reads-pure _)))))))

Reads-parse_block :
    (b : Block) (root : Bytes) (nonce : ℕ)
    → IsBlock b
    → IsArray 32 root
    → IsU32 nonce
    → Reads parse_block (block_bytes b root nonce) (parsed b root nonce)
Reads-parse_block b root nonce h hr hn =
    subst (λ bs. Reads parse_block bs (parsed b root nonce)) (simp (append_assoc, append-nil))
      (Reads-fields b root nonce h hr hn)

-- The bytes of a mined block parse, whatever follows them, to that block without its hash and
-- without its array: version, previous hash, root, time, `n_bits`, nonce and transactions are those
-- that were mined.
pub parse_raw-mine :
    (sha : Sha256) (b b' : Block) (root rest : Bytes)
    → IsBlock b
    → IsArray 32 root
    → (m : Mined sha b root b') → length (block_bytes b root m.at ++ rest) < 2 ^ 64
    → (get_raw_format b' ≡ ok (block_bytes b root m.at))
      × (parse_raw (block_bytes b root m.at ++ rest)
          ≡ ok (record b' { hash = none; mine_array = replicate 80 0 }))
unfolding get_raw_format parse_raw
parse_raw-mine sha b b' root rest h hr m fits =
    let bytes = block_bytes b root m.at in
    (
      ap get_raw_format m.block,
      ap (λ q. q.0)
            (Reads-parse_block b root m.at h hr (omega (arith, m.below)) (new (bytes ++ rest)) rest
              (new-IsValid _ fits) (remaining-new (bytes ++ rest)))
          ∙ ap (λ (c : Block). ok (record c { hash = none; mine_array = replicate 80 0 }))
              (sym m.block),
    )
