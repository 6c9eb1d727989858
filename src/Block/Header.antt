-- ===== src/Block/Header.antt =====
-- The 80 bytes that are hashed.
use avicoin.Prelude.{
  ℕ, ◌≡◌, refl, sym, ap, ◌∙◌, subst, some, [], ◌++◌, arith, length, drop, length-append,
  length-drop, take-append, drop-append, drop-drop, append_assoc, append-nil, nil_of_length,
}
use mathlib.Core.Path.{ap₂}
use avicoin.Prelude.Int.{bits_of_i32}
use avicoin.Outcome.{ok}
use avicoin.Words.{Bytes, to_le_bytes, length-to_le_bytes}
use avicoin.Block.{
  Block, IsBlock, write_at, write_front, write_back, write_root, prepare_for_mining,
}

-- version ‖ previous hash ‖ merkle root ‖ time ‖ n_bits, and the header: those and a nonce.
abbrev pub header_front : Block → Bytes → Bytes
header_front b root =
    ((((to_le_bytes 4 (bits_of_i32 b.version) ++ b.previous_block_hash) ++ root)
        ++ to_le_bytes 4 b.time)
      ++ to_le_bytes 4 b.n_bits)

abbrev pub header : Block → Bytes → ℕ → Bytes
header b root nonce = header_front b root ++ to_le_bytes 4 nonce

-- A write right behind what is written already.
write_at_here :
    (front bs old : Bytes)
    → write_at (length front) bs (front ++ old) ≡ (front ++ bs) ++ drop (length bs) old
write_at_here front bs old =
    ap₂ (λ u v. u ++ (bs ++ v)) (take-append front old)
      (drop-drop (length front) (length bs) (front ++ old)
        ∙ ap (drop (length bs)) (drop-append front old))
    ∙ sym (append_assoc front bs (drop (length bs) old))

pub write_at-append :
    (lo : ℕ) (front bs old xs : Bytes)
    → length front ≡ lo
    → xs ≡ front ++ old
    → write_at lo bs xs ≡ (front ++ bs) ++ drop (length bs) old
write_at-append lo front bs old xs h e =
    ap (write_at lo bs) e
    ∙ subst (λ n. write_at n bs (front ++ old) ≡ (front ++ bs) ++ drop (length bs) old) h
        (write_at_here front bs old)

pub length-header_front :
    (b : Block) (root : Bytes) → IsBlock b → length root ≡ 32 → length (header_front b root) ≡ 76
length-header_front b root h hr =
    simp length-append (omega (arith, length-to_le_bytes, h.previous_block_hash.0))

module _ (b : Block) (root : Bytes) (h : IsBlock b) (hr : length root ≡ 32) where
  version_bytes : Bytes
  version_bytes = to_le_bytes 4 (bits_of_i32 b.version)

  written_front :
      (old : Bytes) × (write_front b ≡ (version_bytes ++ b.previous_block_hash) ++ old)
      × (length old ≡ 44)
  unfolding version_bytes
  written_front = (
    drop (length b.previous_block_hash) (drop (length version_bytes) b.mine_array),
    write_at-append 4 version_bytes b.previous_block_hash (drop (length version_bytes) b.mine_array)
        _ (length-to_le_bytes 4 _)
        (write_at-append 0 [] version_bytes b.mine_array b.mine_array refl refl),
    simp length-drop (omega (arith, length-to_le_bytes, h.previous_block_hash.0, h.mine_array)),
  )

  front_lengths :
      (length (version_bytes ++ b.previous_block_hash) ≡ 36)
      × (length ((version_bytes ++ b.previous_block_hash) ++ root) ≡ 68)
      × (length (((version_bytes ++ b.previous_block_hash) ++ root) ++ to_le_bytes 4 b.time) ≡ 72)
  unfolding version_bytes
  front_lengths =
      let known = h.previous_block_hash.0 in
      (
        simp length-append (omega (arith, length-to_le_bytes)),
        simp length-append (omega (arith, length-to_le_bytes)),
        simp length-append (omega (arith, length-to_le_bytes)),
      )

  written_back :
      (array old : Bytes)
      → array ≡ (version_bytes ++ b.previous_block_hash) ++ old
      → length old ≡ 44
      → write_back b root array ≡ header b root b.nonce
  unfolding version_bytes
  written_back array old e len =
      let (at36, at68, at72) = front_lengths in
      let last =
        write_at-append 76 (header_front b root) (to_le_bytes 4 b.nonce) _ _
          (length-header_front b root h hr)
          (write_at-append 72 _ (to_le_bytes 4 b.n_bits) _ _ at72 (
            write_at-append 68 _ (to_le_bytes 4 b.time) _ _ at68
              (write_at-append 36 _ root old array at36 e))) in
      last
      ∙ ap (λ t. header b root b.nonce ++ t)
          (nil_of_length _ (simp length-drop (omega (arith, length-to_le_bytes))))
      ∙ append-nil (header b root b.nonce)

-- With a root at hand `prepare_for_mining` succeeds, writes the block's fields to the array in the
-- order of the header, all 80 bytes of it, and changes nothing else.
pub prepare_for_mining-header :
    (b : Block) (root : Bytes)
    → IsBlock b
    → length root ≡ 32
    → b.merkle_root_hash ≡ some root
    → prepare_for_mining b ≡ (ok tt, record b { mine_array = header b root b.nonce })
unfolding prepare_for_mining
prepare_for_mining-header b root h hr e =
    let (old, front, len) = written_front b root h hr in
    ap (λ o. write_root o b) e
    ∙ ap (λ a. (ok tt, record b { mine_array = a }))
        (written_back b root h hr (write_front b) old front len)
