-- ===== src/Tests/Chain.antt =====
-- The theorems on blocks and Merkle trees at concrete inputs.
use avicoin.Prelude.{ℕ, ◌≡◌, ◌⊎◌, refl, none, some, [], ◌∷◌, ◌++◌, arith, true, false, replicate}
use avicoin.Outcome.{ok, err, hash_is_empty}
use avicoin.Words.{Bytes, to_le_bytes, from_le_bytes, extend_all}
use avicoin.Util.{get_hash, get_compact_int}
use avicoin.Merkle.{merkle_root, merkle_loop}
use avicoin.Merkle.Tree.{IsRoot, merkle_root-IsRoot}
use avicoin.Merkle.Duplicate.{merkle_root-duplicate}
use avicoin.Transaction
use avicoin.Transaction.{input_bytes, string_bytes, output_bytes}
use avicoin.Block.{Block, get_target_256, get_raw_format, parse_raw, mine, get_merkle_root_hash}
use avicoin.Block.Header.{header}
use avicoin.Block.Mining.{Mined, NotMined, mine_cases}
use avicoin.Block.RoundTrip.{block_bytes, parse_raw-mine}
use avicoin.Block.Parsed.{get_raw_format-parse_raw}
use avicoin.Tests.{zero_sha, number_crate, zeros-IsByte, candidate, candidate-IsBlock, payment}

merkle_root-IsRoot_example :
    (top : ℕ) × IsRoot zero_sha
      ((1 ∷ []) ∷ (2 ∷ []) ∷ (3 ∷ []) ∷ [])
      top
      (merkle_root zero_sha ((1 ∷ []) ∷ (2 ∷ []) ∷ (3 ∷ []) ∷ []))
merkle_root-IsRoot_example = merkle_root-IsRoot zero_sha (1 ∷ []) ((2 ∷ []) ∷ (3 ∷ []) ∷ [])

merkle_root-duplicate_example :
    merkle_root zero_sha ((1 ∷ []) ∷ (2 ∷ []) ∷ (3 ∷ []) ∷ (3 ∷ []) ∷ [])
    ≡ merkle_root zero_sha ((1 ∷ []) ∷ (2 ∷ []) ∷ (3 ∷ []) ∷ [])
merkle_root-duplicate_example = merkle_root-duplicate zero_sha (1 ∷ []) (2 ∷ []) [] (3 ∷ []) refl

abbrev pub root : Bytes
root = replicate 32 0

rooted : get_merkle_root_hash zero_sha candidate ≡ ok root
unfolding get_merkle_root_hash merkle_root merkle_loop Transaction.get_tx_id get_hash
rooted = refl

mine_cases_example :
    ((b' : Block) × (mine zero_sha number_crate candidate ≡ (ok true, b'))
      × Mined zero_sha candidate root b')
    ⊎ ((b' : Block) × (mine zero_sha number_crate candidate ≡ (ok false, b'))
        × NotMined zero_sha candidate root b')
mine_cases_example = mine_cases zero_sha number_crate candidate root candidate-IsBlock rooted

abbrev pub mined : Block
mined = record candidate {
  merkle_root_hash = some root;
  nonce = 0;
  hash = some (replicate 32 0);
  mine_array = header candidate root 0;
}

unfoldable pub mined-Mined : Mined zero_sha candidate root mined
unfolding get_target_256 get_hash from_le_bytes
mined-Mined = record {
  at = 0;
  below = omega arith;
  winning = omega arith;
  first = λ j lt. absurd (omega arith);
  block = refl;
}

parse_raw-mine_example :
    (get_raw_format mined ≡ ok (block_bytes candidate root 0))
    × (parse_raw (block_bytes candidate root 0 ++ 7 ∷ [])
        ≡ ok (record mined { hash = none; mine_array = replicate 80 0 }))
unfolding Transaction.get_raw_format get_compact_int to_le_bytes input_bytes string_bytes
    output_bytes mined-Mined
parse_raw-mine_example =
    parse_raw-mine zero_sha candidate mined root (7 ∷ []) candidate-IsBlock (refl, zeros-IsByte 32)
      mined-Mined (omega arith)

abbrev pub received : Block
received = record mined { hash = none; mine_array = replicate 80 0 }

get_raw_format-parse_raw_example :
    (get_raw_format received ≡ err hash_is_empty)
    × (get_raw_format (record received { hash = some root })
        ≡ ok (
            replicate 80 0
            ++ (get_compact_int 1 ++ extend_all Transaction.get_raw_format (payment ∷ []))))
get_raw_format-parse_raw_example =
    get_raw_format-parse_raw (block_bytes candidate root 0 ++ 7 ∷ []) received root
      parse_raw-mine_example.1
