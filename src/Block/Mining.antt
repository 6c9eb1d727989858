-- ===== src/Block/Mining.antt =====
-- `mine`: the nonce that it finds, and what it leaves when it finds none.
use avicoin.Prelude.{
  ℕ, ◌<◌, ◌≤◌, ◌≡◌, ◌⊎◌, sym, ltb→lt, ltb→le, inl, inr, refl, ap, ◌∙◌, Bool, true, false, some, [],
  arith,
}
use avicoin.Outcome.{Result, ok, err, no_transaction}
use avicoin.Words.{Bytes, IsArray, from_le_bytes, to_le_bytes, length-to_le_bytes}
use avicoin.Util.{Sha256, get_hash}
use avicoin.Block.Root.{get_merkle_root_hash-IsArray, get_merkle_root_hash_empty}
use avicoin.Block.{
  Block, IsBlock, U256Crate, get_merkle_root_hash, get_target_256, wins, search_nonce, u32_max,
  mine, mine_rooted, mine_prepared,
}
use avicoin.Block.Header.{header, header_front, length-header_front, prepare_for_mining-header}
use avicoin.Block.Target.{threshold, wins-threshold}
use avicoin.Block.Search.{search_nonce_cases}

-- The hash of the header with a nonce, as a number.
abbrev pub work : Sha256 → Block → Bytes → ℕ → ℕ
work sha b root nonce = from_le_bytes (get_hash sha (header b root nonce))

-- What `mine` leaves on success: the block with its root, the first winning nonce, the header with
-- that nonce in its array, and the hash of the header.
pub record Mined (sha : Sha256) (b : Block) (root : Bytes) (b' : Block) : Type 0 where
  pub at : ℕ
  pub below : at < u32_max
  pub winning : work sha b root at < threshold b.n_bits
  pub first : (j : ℕ) → j < at → threshold b.n_bits ≤ work sha b root j
  pub block : b' ≡ record b {
    merkle_root_hash = some root;
    nonce = at;
    hash = some (get_hash sha (header b root at));
    mine_array = header b root at;
  }

-- What it leaves when no nonce wins: the block with its root, and the nonce and the hash that it had.
pub record NotMined (sha : Sha256) (b : Block) (root : Bytes) (b' : Block) : Type 0 where
  pub losing : (j : ℕ) → j < u32_max → threshold b.n_bits ≤ work sha b root j
  pub hash : b'.hash ≡ b.hash
  pub nonce : b'.nonce ≡ b.nonce
  pub merkle_root_hash : b'.merkle_root_hash ≡ some root

module _ (sha : Sha256) (crate : U256Crate) where
  open crate use {U256}

  abbrev finish : Bool × Block → Result Bool × Block
  finish p = (ok p.0, p.1)

  -- The block as the loop finds it.
  abbrev prepared : Block → Bytes → Block
  prepared b root = record b { merkle_root_hash = some root; mine_array = header b root b.nonce }

  -- What the test of the search says of a nonce.
  abbrev Outcome : Block → Bytes → ℕ → Bool → Type 0
  Outcome b root j won = wins sha crate (get_target_256 sha crate b) (header b root j) ≡ won

  rooted-IsBlock :
      (b : Block) (root : Bytes)
      → IsBlock b
      → IsArray 32 root
      → IsBlock (record b { merkle_root_hash = some root })
  rooted-IsBlock b root h hr = record {
    version = h.version;
    previous_block_hash = h.previous_block_hash;
    merkle_root_hash = hr;
    time = h.time;
    n_bits = h.n_bits;
    nonce = h.nonce;
    mine_array = h.mine_array;
    transactions = h.transactions;
    transactions_fit = h.transactions_fit;
  }

  mine-search :
      (b : Block) (root : Bytes)
      → IsBlock b
      → IsArray 32 root
      → get_merkle_root_hash sha b ≡ ok root
      → mine sha crate b
        ≡ finish (search_nonce sha crate u32_max 0 (get_target_256 sha crate b) (prepared b root))
  unfolding mine mine_rooted mine_prepared get_target_256
  mine-search b root h hr e =
      ap (λ m. mine_rooted sha crate m b) e
      ∙ ap (mine_prepared sha crate) (
          prepare_for_mining-header (record b { merkle_root_hash = some root }) root
            (rooted-IsBlock b root h hr) hr.0 refl)

  beats :
      (b : Block) (root : Bytes) (j : ℕ)
      → IsBlock b
      → Outcome b root j true
      → work sha b root j < threshold b.n_bits
  beats b root j h e = ltb→lt _ _ (sym (wins-threshold sha crate b (header b root j) h.n_bits) ∙ e)

  fails :
      (b : Block) (root : Bytes) (j : ℕ)
      → IsBlock b
      → Outcome b root j false
      → threshold b.n_bits ≤ work sha b root j
  fails b root j h e = ltb→le _ _ (sym (wins-threshold sha crate b (header b root j) h.n_bits) ∙ e)

  -- Mining ends. With the root of the block's transactions it either finds the first nonce below
  -- `u32::MAX` whose header hashes, as a number, below the threshold that `n_bits` stands for, and
  -- leaves the block with the root, that nonce, that header and its hash; or no such nonce does, and it
  -- says so and leaves the block with the root, and the nonce and the hash that it had.
  pub mine_cases :
      (b : Block) (root : Bytes)
      → IsBlock b
      → get_merkle_root_hash sha b ≡ ok root
      → ((b' : Block) × (mine sha crate b ≡ (ok true, b')) × Mined sha b root b')
        ⊎ ((b' : Block) × (mine sha crate b ≡ (ok false, b')) × NotMined sha b root b')
  mine_cases b root h e =
      let hr = get_merkle_root_hash-IsArray sha b root e in
      let target = get_target_256 sha crate b in
      let front = header_front b root in
      elim (search_nonce_cases sha crate target front (length-header_front b root h hr.0) u32_max 0
        (prepared b root) (to_le_bytes 4 b.nonce) (length-to_le_bytes 4 b.nonce) refl) [
          | inl f ↦ inl (
            _,
            mine-search b root h hr e ∙ ap finish f.result,
            record {
              at = f.at;
              below = f.below;
              winning = beats b root f.at h f.winning;
              first = λ j lt. fails b root j h (f.first j (omega arith) lt);
              block = refl;
            },
          )
          | inr m ↦ inr (
            _,
            mine-search b root h hr e ∙ ap finish m.result,
            record {
              losing = λ j lt. fails b root j h (m.losing j (omega arith) (omega arith));
              hash = refl;
              nonce = refl;
              merkle_root_hash = refl;
            },
          )
        ]

  -- A block without transactions is not mined: the call fails, and leaves the block as it was.
  pub mine_empty : (b : Block) → b.transactions ≡ [] → mine sha crate b ≡ (err no_transaction, b)
  unfolding mine mine_rooted
  mine_empty b e = ap (λ m. mine_rooted sha crate m b) (get_merkle_root_hash_empty sha b e)
