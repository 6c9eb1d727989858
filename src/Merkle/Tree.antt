-- ===== src/Merkle/Tree.antt =====
-- The root against the tree that it is the root of, described node by node.
use avicoin.Prelude.{
  ℕ, zero, suc, ◌+◌, ◌*◌, ◌/◌, ◌≤◌, ◌<◌, ◌≡◌, refl, sym, ap, ◌∙◌, subst, Option, some, List, [],
  ◌∷◌, arith, ltb, length, if◌then◌else◌,
}
use mathlib.Core.Path.{ap₂}
use avicoin.Words.{Bytes}
use avicoin.Util.{Sha256}
use avicoin.Merkle.{join, next_level, merkle_loop, merkle_loop_step, merkle_root}
use native.Mathlib.Decide.{dec_lt}

abbrev pub nth : List Bytes → ℕ → Bytes
nth [] i = []
nth (x ∷ xs) zero = x
nth (x ∷ xs) (suc i) = nth xs i

-- The number of nodes at height `h` over `n` leaves: the half, rounded up, of those below.
pub width : ℕ → ℕ → ℕ
width n zero = n
width n (suc h) = (width n h + 1) / 2

module _ (sha : Sha256) where
  -- Node `i` at height `h`: a leaf, or the hash of its children; a right child that is not there is
  -- the left one again.
  pub node : List Bytes → ℕ → ℕ → Bytes
  node leaves zero i = nth leaves i
  node leaves (suc h) i =
      join sha (node leaves h (2 * i))
        (node leaves h (if ltb (2 * i + 1) (width (length leaves) h) then 2 * i + 1 else 2 * i))

  pub length-next_level :
      (level : List Bytes) → length (next_level sha level) ≡ (length level + 1) / 2
  unfolding next_level
  length-next_level [] = refl
  length-next_level (a ∷ []) = refl
  length-next_level (a ∷ b ∷ rest) = omega (arith, length-next_level rest)

  nth-next_level :
      (level : List Bytes) (i : ℕ)
      → i < (length level + 1) / 2
      → nth (next_level sha level) i
        ≡ join sha
            (nth level (2 * i))
            (nth level (if ltb (2 * i + 1) (length level) then 2 * i + 1 else 2 * i))
  unfolding next_level
  nth-next_level [] i h = absurd (omega arith)
  nth-next_level (a ∷ []) zero h = refl
  nth-next_level (a ∷ []) (suc i) h = absurd (omega arith)
  nth-next_level (a ∷ b ∷ rest) zero h = ground arith
  nth-next_level (a ∷ b ∷ rest) (suc i) h =
      nth-next_level rest i (omega arith)
      ∙ ap₂ (join sha) (ap (nth (a ∷ b ∷ rest)) (left i))
          (ap (nth (a ∷ b ∷ rest)) (right i (length rest)))
    where
      left : (i : ℕ) → suc (suc (2 * i)) ≡ 2 * suc i
      left i = omega arith

      right :
          (i n : ℕ)
          → suc (suc (if ltb (2 * i + 1) n then 2 * i + 1 else 2 * i))
            ≡ (if ltb (2 * suc i + 1) (suc (suc n)) then 2 * suc i + 1 else 2 * suc i)
      right i n = ground arith

  -- A level of the loop is a row of the tree.
  IsRow : List Bytes → ℕ → List Bytes → Type 0
  IsRow leaves h level =
      (length level ≡ width (length leaves) h)
      × ((i : ℕ) → i < length level → nth level i ≡ node leaves h i)

  IsRow-next_level :
      (leaves : List Bytes) (h : ℕ) (level : List Bytes)
      → IsRow leaves h level
      → IsRow leaves (suc h) (next_level sha level)
  unfolding IsRow width node
  IsRow-next_level leaves h level (len, row) = (
    omega (arith, length-next_level level),
    λ i lt.
        let lt' = halves i (length level) (omega (arith, length-next_level level)) in
        nth-next_level level i (omega (arith, length-next_level level))
        ∙ ap₂ (join sha) (row (2 * i) lt'.0) (
            row (if ltb (2 * i + 1) (length level) then 2 * i + 1 else 2 * i) lt'.1
            ∙ ap (λ n. node leaves h (if ltb (2 * i + 1) n then 2 * i + 1 else 2 * i)) len),
  )
    where
      halves :
          (i n : ℕ)
          → i < (n + 1) / 2
          → (2 * i < n) × ((if ltb (2 * i + 1) n then 2 * i + 1 else 2 * i) < n)
      halves i n h = ground arith

  -- Every row below height `h` has more than one node.
  abbrev pub IsWider : List Bytes → ℕ → Type 0
  IsWider leaves h = (j : ℕ) → j < h → 1 < width (length leaves) j

  -- The root is the one node at height `h`, the lowest height with one node.
  abbrev pub IsRoot : List Bytes → ℕ → Option Bytes → Type 0
  IsRoot leaves h root =
      IsWider leaves h × (width (length leaves) h ≡ 1) × (root ≡ some (node leaves h 0))

  IsWider-suc :
      (leaves : List Bytes) (h : ℕ)
      → IsWider leaves h
      → 1 < width (length leaves) h
      → IsWider leaves (suc h)
  IsWider-suc leaves h wider here j lt = elim (dec_lt j h) [
    | yes below ↦ wider j below
    | no above ↦ subst (λ k. 1 < width (length leaves) k) (omega arith) here
  ]

  merkle_loop-IsRoot :
      (fuel : ℕ) (leaves : List Bytes) (h : ℕ) (level : List Bytes)
      → IsRow leaves h level
      → IsWider leaves h
      → 0 < length level
      → length level ≤ fuel
      → (top : ℕ) × IsRoot leaves top (merkle_loop sha fuel level)
  unfolding merkle_loop
  merkle_loop-IsRoot zero leaves h level row wider pos le = absurd (omega arith)
  merkle_loop-IsRoot (suc fuel) leaves h [] row wider pos le = absurd (omega arith)
  merkle_loop-IsRoot (suc fuel) leaves h (a ∷ []) row wider pos le =
      unfold IsRow in (h, (wider, sym row.0, ap some (row.1 0 (omega arith))))
  merkle_loop-IsRoot (suc fuel) leaves h (a ∷ b ∷ rest) row wider pos le =
      rw (merkle_loop_step sha fuel (a ∷ b ∷ rest) (omega arith)) (
        merkle_loop-IsRoot fuel leaves (suc h) (next_level sha (a ∷ b ∷ rest))
          (IsRow-next_level leaves h (a ∷ b ∷ rest) row)
          (IsWider-suc leaves h wider (unfold IsRow in omega (arith, row.0)))
          (omega (arith, length-next_level (a ∷ b ∷ rest)))
          (omega (arith, length-next_level (a ∷ b ∷ rest))))

  -- The loop ends on every list of leaves that is not empty, and its result is the node at the top of
  -- the tree over them.
  pub merkle_root-IsRoot :
      (leaf : Bytes) (leaves : List Bytes)
      → (top : ℕ) × IsRoot (leaf ∷ leaves) top (merkle_root sha (leaf ∷ leaves))
  unfolding merkle_root
  merkle_root-IsRoot leaf leaves =
      merkle_loop-IsRoot (length (leaf ∷ leaves)) (leaf ∷ leaves) 0 (leaf ∷ leaves)
        (unfold IsRow width node in (refl, λ i lt. refl)) (λ j lt. elim lt [ ]) (omega arith)
        (omega arith)
