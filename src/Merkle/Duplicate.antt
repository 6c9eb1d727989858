-- ===== src/Merkle/Duplicate.antt =====
-- Duplicating the last of an odd number of leaves does not change the root.
use avicoin.Prelude.{
  ℕ, zero, suc, ◌%◌, ◌≤◌, ◌<◌, ◌≡◌, refl, sym, ap, ◌∙◌, List, [], ◌∷◌, ◌++◌, arith, length,
  length-append,
}
use mathlib.Core.Path.{ap₂}
use avicoin.Words.{Bytes}
use avicoin.Util.{Sha256}
use avicoin.Merkle.Tree.{length-next_level}
use avicoin.Merkle.{join, next_level, merkle_loop, merkle_loop_step, merkle_root}

module _ (sha : Sha256) where
  next_level-duplicate :
      (front : List Bytes) (last : Bytes)
      → length front % 2 ≡ 0
      → next_level sha (front ++ last ∷ last ∷ []) ≡ next_level sha (front ++ last ∷ [])
  unfolding next_level
  next_level-duplicate [] last even = refl
  next_level-duplicate (a ∷ []) last even = absurd (omega arith)
  next_level-duplicate (a ∷ b ∷ front) last even =
      ap (◌∷◌ (join sha a b)) (next_level-duplicate front last (omega arith))

  -- The fuel is enough for either: one unit more changes nothing once the loop has ended.
  merkle_loop-fuel :
      (fuel : ℕ) (level : List Bytes)
      → length level ≤ fuel
      → 0 < length level
      → merkle_loop sha (suc fuel) level ≡ merkle_loop sha fuel level
  unfolding merkle_loop
  merkle_loop-fuel zero level le pos = absurd (omega arith)
  merkle_loop-fuel (suc fuel) [] le pos = absurd (omega arith)
  merkle_loop-fuel (suc fuel) (a ∷ []) le pos = refl
  merkle_loop-fuel (suc fuel) (a ∷ b ∷ rest) le pos =
      rw
        (
          merkle_loop_step sha (suc fuel) (a ∷ b ∷ rest) (omega arith),
          merkle_loop_step sha fuel (a ∷ b ∷ rest) (omega arith),
        )
        (merkle_loop-fuel fuel (next_level sha (a ∷ b ∷ rest))
          (omega (arith, length-next_level sha (a ∷ b ∷ rest)))
          (omega (arith, length-next_level sha (a ∷ b ∷ rest))))

  -- A list of three or more leaves, odd in number, has the root of the list with its last leaf twice.
  pub merkle_root-duplicate :
      (a b : Bytes) (front : List Bytes) (last : Bytes)
      → length front % 2 ≡ 0
      → merkle_root sha (a ∷ b ∷ (front ++ last ∷ last ∷ []))
        ≡ merkle_root sha (a ∷ b ∷ (front ++ last ∷ []))
  unfolding merkle_root
  merkle_root-duplicate a b front last even =
      let leaves = a ∷ b ∷ (front ++ last ∷ []) in
      let twice = a ∷ b ∷ (front ++ last ∷ last ∷ []) in
      let same : next_level sha twice ≡ next_level sha leaves =
        next_level-duplicate (a ∷ b ∷ front) last (omega arith) in
      merkle_loop_step sha (suc (length (front ++ last ∷ last ∷ []))) twice (omega arith)
      ∙ ap₂ (merkle_loop sha) (one_more front last) same
      ∙ merkle_loop-fuel (suc (length (front ++ last ∷ []))) (next_level sha leaves)
          (omega (arith, length-next_level sha leaves))
          (omega (arith, length-next_level sha leaves))
      ∙ sym (merkle_loop_step sha (suc (length (front ++ last ∷ []))) leaves (omega arith))
    where
      one_more :
          (front : List Bytes) (last : Bytes)
          → suc (length (front ++ last ∷ last ∷ [])) ≡ suc (suc (length (front ++ last ∷ [])))
      one_more front last =
          omega (arith, length-append front (last ∷ last ∷ []), length-append front (last ∷ []))
