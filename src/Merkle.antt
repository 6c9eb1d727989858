-- ===== src/Merkle.antt =====
-- src/block.rs, `merkle_root`: the root of a list of leaves, each level built from the one below it.
pub mod Tree
pub mod Duplicate
pub mod Shape
use avicoin.Prelude.{
  ℕ, zero, suc, ◌<◌, Bool, true, false, Option, none, some, List, [], ◌∷◌, ◌++◌, ltb, length,
  lt→ltb, ◌≡◌,
}
use avicoin.Words.{Bytes}
use avicoin.Util.{Sha256, get_hash}

abbrev first : List Bytes → Option Bytes
first [] = none
first (a ∷ level) = some a

module _ (sha : Sha256) where
  -- `get_hash(&joined)`, for `joined` the two halves behind one another.
  unfoldable pub join : Bytes → Bytes → Bytes
  join left right = get_hash sha (left ++ right)

  -- `level.chunks(2).map(…)`: the last chunk may have one element, which then stands for both.
  unfoldable pub next_level : List Bytes → List Bytes
  next_level [] = []
  next_level (a ∷ []) = join a a ∷ []
  next_level (a ∷ b ∷ rest) = join a b ∷ next_level rest

  -- `while level.len() > 1`, and `level[0]` behind it. `none`: out of fuel, or no `level[0]`.
  unfoldable pub merkle_loop : ℕ → List Bytes → Option Bytes
  merkle_loop zero level = none
  merkle_loop (suc fuel) level = elim (ltb 1 (length level)) [
    | true ↦ merkle_loop fuel (next_level level)
    | false ↦ first level
  ]

  pub merkle_loop_step :
      (fuel : ℕ) (level : List Bytes)
      → 1 < length level
      → merkle_loop (suc fuel) level ≡ merkle_loop fuel (next_level level)
  unfolding merkle_loop
  merkle_loop_step fuel level h = rw (lt→ltb 1 (length level) h, merkle_loop)

  -- Each round halves the level, so its length is fuel enough.
  unfoldable pub merkle_root : List Bytes → Option Bytes
  merkle_root [] = none
  merkle_root (leaf ∷ leaves) = merkle_loop (length (leaf ∷ leaves)) (leaf ∷ leaves)
