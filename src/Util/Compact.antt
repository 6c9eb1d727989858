-- ===== src/Util/Compact.antt =====
-- Compact integers: what `get_compact_int` writes, `read_compact` reads.
use avicoin.Prelude.{
  ◌==◌, ◌+◌, ◌⊎◌, inl, inr, ◌++◌, ap, length-append, ℕ, ◌%◌, ◌^◌, ◌≤◌, ◌<◌, ◌≡◌, [], ◌∷◌, arith,
  length, leb, All, if◌then◌else◌,
}
use avicoin.Words.{Bytes, IsByte, IsU64, to_le_bytes, length-to_le_bytes, to_le_bytes-IsByte}
use avicoin.Reader.{Read, read_byte, read_u16, read_u32, read_u64, read_wide, read_compact}
use avicoin.Reader.Gets.{Gets, Gets-bind, Gets-pure, Gets-weaken, Gets-if}
use avicoin.Reader.Gets.Primitive.{
  IsWord, Gets-read_byte, Gets-read_u16, Gets-read_u32, Gets-read_u64,
}
use avicoin.Reader.Reads.{Reads}
use avicoin.Reader.Wide.{
  Reads-read_compact_small, Reads-read_compact_u16, Reads-read_compact_u32, Reads-read_compact_u64,
}
use avicoin.Util.{get_compact_int}
use native.Mathlib.Decide.{dec_lt}
use native.Mathlib.Nat.{mod-eq_of_lt}

one_byte : (n : ℕ) → n < 256 → to_le_bytes 1 (n % 2 ^ 8) ≡ n ∷ []
unfolding to_le_bytes
one_byte n h = ground arith

-- The form of each width.
form_1 : (n : ℕ) → n < 253 → get_compact_int n ≡ n ∷ []
unfolding get_compact_int
form_1 n h = ground (arith, one_byte n (omega arith))

form_3 : (n : ℕ) → 252 < n → n < 2 ^ 16 → get_compact_int n ≡ 0xfd ∷ to_le_bytes 2 n
unfolding get_compact_int
form_3 n h h' = ground (arith, mod-eq_of_lt h')

form_5 : (n : ℕ) → 2 ^ 16 ≤ n → n < 2 ^ 32 → get_compact_int n ≡ 0xfe ∷ to_le_bytes 4 n
unfolding get_compact_int
form_5 n h h' = ground (arith, mod-eq_of_lt h')

form_9 : (n : ℕ) → 2 ^ 32 ≤ n → get_compact_int n ≡ 0xff ∷ to_le_bytes 8 n
unfolding get_compact_int
form_9 n h = ground arith

-- The reader takes the compact form of any `u64` off the front of its slice, and nothing more.
pub Reads-get_compact_int : (n : ℕ) → IsU64 n → Reads read_compact (get_compact_int n) n
Reads-get_compact_int n h = elim (dec_lt n 253) [
  | yes small ↦ rw (form_1 n small) (Reads-read_compact_small n small)
  | no p ↦ elim (dec_lt n (2 ^ 16)) [
    | yes small ↦ rw (form_3 n (omega arith) small) (Reads-read_compact_u16 n small)
    | no q ↦ elim (dec_lt n (2 ^ 32)) [
      | yes small ↦ rw (form_5 n (omega arith) small) (Reads-read_compact_u32 n small)
      | no q' ↦ rw (form_9 n (omega arith)) (Reads-read_compact_u64 n h)
    ]
  ]
]

-- The width grows with the number: 1, 3, 5 or 9 bytes, and each is a byte.
pub length-get_compact_int :
    (n : ℕ)
    → length (get_compact_int n)
      ≡ (if leb n 252 then 1 else if leb n 0xffff then 3 else if leb n 0xffff_ffff then 5 else 9)
unfolding get_compact_int
length-get_compact_int n = ground (
  arith,
  length-to_le_bytes 1 (n % 2 ^ 8),
  length-to_le_bytes 2 (n % 2 ^ 16),
  length-to_le_bytes 4 (n % 2 ^ 32),
  length-to_le_bytes 8 n,
)

pub get_compact_int-IsByte : (n : ℕ) → All IsByte (get_compact_int n)
unfolding get_compact_int
get_compact_int-IsByte n = ground (
  arith,
  to_le_bytes-IsByte 1 (n % 2 ^ 8),
  to_le_bytes-IsByte 2 (n % 2 ^ 16),
  to_le_bytes-IsByte 4 (n % 2 ^ 32),
  to_le_bytes-IsByte 8 n,
)

compact_le :
    (w n : ℕ)
    → (w ≤ 252) ⊎ (3 ≤ n)
    → (w ≤ 0xffff) ⊎ (5 ≤ n)
    → (w ≤ 0xffff_ffff) ⊎ (9 ≤ n)
    → 1 ≤ n
    → length (get_compact_int w) ≤ n
compact_le w n a b c d = ground (arith, length-get_compact_int w)

-- Behind the byte that says how wide the number is.
wide :
    (k v : ℕ) (xs : Bytes) (p : Read ℕ)
    → length xs ≡ 1
    → ((w : ℕ) → w < 256 ^ k → IsU64 w × (length (get_compact_int w) ≤ 1 + k))
    → Gets (IsWord k) p
    → Gets (λ w ys. IsU64 w × (length (get_compact_int w) ≤ 0 + length (xs ++ ys))) p
wide k v xs p one small h =
    Gets-weaken _ _ p
      (λ w ys word.
        let (is, le) = small w word.1 in
        (is, omega (arith, le, one, length-append xs ys, ap length word.0, length-to_le_bytes k w)))
      h

-- What the reader of compact integers takes: a number of 64 bits, and no fewer bytes than its compact
-- form has.
pub Gets-get_compact_int :
    Gets (λ v xs. IsU64 v × (length (get_compact_int v) ≤ 0 + length xs)) read_compact
unfolding read_compact read_wide
Gets-get_compact_int =
    Gets-bind _ _ _
      (λ v xs h.
        Gets-if _ (v == 0xfd) _ _
          (λ _.
            wide 2 v xs read_u16 h.1
              (λ w lt. (
                omega (arith, lt),
                compact_le w 3 (inr (omega arith)) (inl (omega (arith, lt)))
                    (inl (omega (arith, lt))) (omega arith),
              ))
              Gets-read_u16)
          λ not_2.
            Gets-if _ (v == 0xfe) _ _
              (λ _.
                wide 4 v xs read_u32 h.1
                  (λ w lt. (
                    omega (arith, lt),
                    compact_le w 5 (inr (omega arith)) (inr (omega arith)) (inl (omega (arith, lt)))
                        (omega arith),
                  ))
                  Gets-read_u32)
              λ not_4.
                Gets-if _ (v == 0xff) _ _
                  (λ _.
                    wide 8 v xs read_u64 h.1
                      (λ w lt. (
                        omega (arith, lt),
                        compact_le w 9 (inr (omega arith)) (inr (omega arith)) (inr (omega arith))
                            (omega arith),
                      ))
                      Gets-read_u64)
                  λ not_8.
                    let small : v ≤ 252 = ground (arith, h.0) in
                    Gets-pure _ v (
                      omega (arith, small),
                      omega (
                        arith,
                        compact_le v 1 (inl small) (inl (omega (arith, small)))
                            (inl (omega (arith, small))) (omega arith),
                        h.1,
                        length-append xs [],
                      ),
                    ))
      read_byte Gets-read_byte
