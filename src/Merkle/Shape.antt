-- ===== src/Merkle/Shape.antt =====
-- The root is a hash: 32 bytes.
use avicoin.Prelude.{ℕ, zero, suc, ◌≡◌, sym, ◌∙◌, subst, some, List, [], ◌∷◌, ◌++◌, arith, All}
use avicoin.Words.{Bytes, IsArray}
use avicoin.Util.{Sha256, get_hash-IsArray}
use avicoin.Merkle.{join, next_level, merkle_loop, merkle_loop_step, merkle_root}

module _ (sha : Sha256) where
  join-IsArray : (a b : Bytes) → IsArray 32 (join sha a b)
  unfolding join
  join-IsArray a b = get_hash-IsArray sha (a ++ b)

  next_level-IsArray : (level : List Bytes) → All (IsArray 32) (next_level sha level)
  unfolding next_level
  next_level-IsArray [] = tt
  next_level-IsArray (a ∷ []) = (join-IsArray a a, tt)
  next_level-IsArray (a ∷ b ∷ rest) = (join-IsArray a b, next_level-IsArray rest)

  merkle_loop-IsArray :
      (fuel : ℕ) (level : List Bytes) (root : Bytes)
      → All (IsArray 32) level
      → merkle_loop sha fuel level ≡ some root
      → IsArray 32 root
  unfolding merkle_loop
  merkle_loop-IsArray zero level root h e = cc
  merkle_loop-IsArray (suc fuel) [] root h e = cc
  merkle_loop-IsArray (suc fuel) (a ∷ []) root h e = subst (IsArray 32) (cc) h.0
  merkle_loop-IsArray (suc fuel) (a ∷ b ∷ rest) root h e =
      merkle_loop-IsArray fuel (next_level sha (a ∷ b ∷ rest)) root
        (next_level-IsArray (a ∷ b ∷ rest))
        (sym (merkle_loop_step sha fuel (a ∷ b ∷ rest) (omega arith)) ∙ e)

  pub merkle_root-IsArray :
      (leaves : List Bytes) (root : Bytes)
      → All (IsArray 32) leaves
      → merkle_root sha leaves ≡ some root
      → IsArray 32 root
  unfolding merkle_root
  merkle_root-IsArray [] root h e = cc
  merkle_root-IsArray (leaf ∷ leaves) root h e = merkle_loop-IsArray _ (leaf ∷ leaves) root h e
