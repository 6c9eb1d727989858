-- ===== src/Block/Target.antt =====
-- The threshold that `n_bits` stands for.
use avicoin.Prelude.{ℕ, zero, suc, ◌+◌, ◌-◌, ◌*◌, ◌/◌, ◌%◌, ◌^◌, ◌≤◌, ◌<◌, ◌≡◌, ltb, ap, ◌∙◌, arith}
use avicoin.Words.{Bytes, from_le_bytes}
use avicoin.Util.{Sha256, get_hash, get_hash-IsArray}
use avicoin.Block.{Block, U256Crate, get_target_256, wins}
use native.Mathlib.Nat.{pow-suc, pow-zero, add-zero, add-suc, mul-mod_left}

pow_add : (m k : ℕ) → 2 ^ (m + k) ≡ 2 ^ m * 2 ^ k
pow_add m zero = rw (add-zero, pow-zero) (omega arith)
pow_add m (suc k) =
    rw (add-suc, pow-suc, pow-suc) (omega (arith, ap (λ (t : ℕ). t * 2) (pow_add m k)))

shifted_out : (m e : ℕ) → 32 ≤ e → m * 2 ^ (e * 8) % 2 ^ 256 ≡ 0
shifted_out m e h = rw (split m e h) (mul-mod_left (m * 2 ^ (e * 8 - 256)) (2 ^ 256))
  where
    split : (m e : ℕ) → 32 ≤ e → m * 2 ^ (e * 8) ≡ m * 2 ^ (e * 8 - 256) * 2 ^ 256
    split m e h =
        let k : ℕ = e * 8 - 256 in
        ap (λ t. m * 2 ^ t) (omega arith) ∙ ap (λ t. m * t) (pow_add 256 k) ∙ omega arith

-- The compact form of a target: the low 23 bits of `n_bits`, shifted left by as many bytes as its high 8
-- bits say, in 256 bits.
abbrev pub threshold : ℕ → ℕ
threshold n_bits = n_bits % 2 ^ 23 * 2 ^ (n_bits / 2 ^ 24 * 8) % 2 ^ 256

module _ (sha : Sha256) (crate : U256Crate) where
  open crate use {value, value-from, value-shl, value-from_little_endian, lt-value}

  -- The target is what `n_bits` says.
  pub get_target_256-value :
      (b : Block) → b.n_bits < 2 ^ 32 → value (get_target_256 sha crate b) ≡ threshold b.n_bits
  unfolding get_target_256
  get_target_256-value b h =
      value-shl _ (b.n_bits / 2 ^ 24 * 8)
      ∙ ap (λ m. m * 2 ^ (b.n_bits / 2 ^ 24 * 8) % 2 ^ 256)
          (value-from (b.n_bits % 2 ^ 23) (omega arith))

  -- The test of the search compares the hash, as a number, with that target.
  pub wins-threshold :
      (b : Block) (mine_array : Bytes)
      → b.n_bits < 2 ^ 32
      → wins sha crate (get_target_256 sha crate b) mine_array
        ≡ ltb (from_le_bytes (get_hash sha mine_array)) (threshold b.n_bits)
  wins-threshold b mine_array h =
      lt-value _ _
      ∙ ap (λ n. ltb n (value (get_target_256 sha crate b)))
          (value-from_little_endian _ (get_hash-IsArray sha mine_array))
      ∙ ap (ltb (from_le_bytes (get_hash sha mine_array))) (get_target_256-value b h)

  -- An exponent of 32 or more shifts every bit out: the target is 0.
  pub get_target_256_zero :
      (b : Block)
      → b.n_bits < 2 ^ 32
      → 32 ≤ b.n_bits / 2 ^ 24
      → value (get_target_256 sha crate b) ≡ 0
  get_target_256_zero b h big =
      get_target_256-value b h ∙ shifted_out (b.n_bits % 2 ^ 23) (b.n_bits / 2 ^ 24) big
