-- ===== src/Transaction/Format.antt =====
-- Each part of a transaction is read back from the bytes that it is written to.
use avicoin.Prelude.{
  ℕ, ◌*◌, ◌^◌, ◌≤◌, ◌<◌, ◌≡◌, refl, ap, subst, List, [], ◌∷◌, ◌++◌, arith, length, All,
}
use avicoin.Outcome.{ok}
use avicoin.Words.{Bytes, extend_all}
use avicoin.Text.{from_utf8, from_utf8_valid}
use avicoin.Reader.{
  Read, ◌>>=◌, ◌>>◌, lift, repeat, read_byte, read_u32, read_u64, read_array, read_compact,
}
use avicoin.Reader.Reads.{
  Reads, Reads-bind, Reads-lift, Reads-last, Reads-repeat, Reads-read_byte, Reads-read_u32,
  Reads-read_u64, Reads-read_array,
}
use avicoin.Util.{get_compact_int}
use avicoin.Util.Compact.{Reads-get_compact_int}
use avicoin.Transaction.{
  TxIn, TxOut, Transaction, IsString, IsTxIn, IsTxOut, IsTransaction, isize_max, size_of_u8,
  size_of_tx_in, size_of_tx_out, with_capacity, string_bytes, input_bytes, output_bytes,
  get_raw_format, parse_string, parse_input, parse_output, parse_raw,
}

with_capacity_fits : (size count : ℕ) → count * size ≤ isize_max → with_capacity size count ≡ ok tt
with_capacity_fits size count h = ground arith

fits_u64 : (n size : ℕ) → 0 < size → n * size ≤ isize_max → n < 2 ^ 64
fits_u64 n size pos h = omega (arith, grow n size pos)
  where
    grow : (n size : ℕ) → 0 < size → n ≤ n * size
    grow n size pos = grind arith

extend_all_bytes : (xs : Bytes) → extend_all (λ b. b ∷ []) xs ≡ xs
extend_all_bytes [] = refl
extend_all_bytes (b ∷ xs) = ap (◌∷◌ b) (extend_all_bytes xs)

Reads-each : (xs : Bytes) → All (λ b. Reads read_byte (b ∷ []) b) xs
Reads-each [] = tt
Reads-each (b ∷ xs) = (Reads-read_byte b, Reads-each xs)

Reads-bytes : (xs : Bytes) → Reads (repeat (length xs) read_byte) xs xs
Reads-bytes xs =
    rw (extend_all_bytes xs) at (Reads-repeat read_byte (λ b. b ∷ []) xs (Reads-each xs))

pub Reads-parse_string : (s : Bytes) → IsString s → Reads parse_string (string_bytes s) s
unfolding parse_string string_bytes
Reads-parse_string s h =
    Reads-bind read_compact _ (get_compact_int (length s)) s (length s) s
      (Reads-get_compact_int (length s) (omega (arith, h.fits)))
      (Reads-lift (with_capacity size_of_u8 (length s)) _ s tt s
        (with_capacity_fits size_of_u8 (length s) (omega (arith, h.fits)))
        (Reads-last (repeat (length s) read_byte) from_utf8 s s s (Reads-bytes s)
          (from_utf8_valid s h.utf8)))

array_32 : (xs : Bytes) → length xs ≡ 32 → Reads (read_array 32) xs xs
array_32 xs h = subst (λ n. Reads (read_array n) xs xs) h (Reads-read_array xs)

pub Reads-parse_input : (tx : TxIn) → IsTxIn tx → Reads parse_input (input_bytes tx) tx
unfolding parse_input input_bytes
Reads-parse_input tx h =
    Reads-bind (read_array 32) _ _ _ tx.previous_output.tx_id tx
      (array_32 tx.previous_output.tx_id h.tx_id.0)
      (Reads-bind read_u32 _ _ _ tx.previous_output.v_out tx (Reads-read_u32 _ h.v_out) (
        Reads-bind parse_string _ _ _ tx.signature tx (Reads-parse_string _ h.signature)
          (Reads-last read_u32 _ _ tx.sequence tx (Reads-read_u32 _ h.sequence) refl)))

pub Reads-parse_output : (tx : TxOut) → IsTxOut tx → Reads parse_output (output_bytes tx) tx
unfolding parse_output output_bytes
Reads-parse_output tx h = Reads-bind read_u64 _ _ _ tx.value tx (Reads-read_u64 _ h.value) (
    Reads-last parse_string _ _ tx.destiny_pub_key tx (Reads-parse_string _ h.destiny_pub_key) refl)

pub All-map {ℓ κ μ} :
    {A : Type ℓ} {P : A → Type κ} {Q : A → Type μ} (xs : List A)
    → ((x : A) → P x → Q x)
    → All P xs
    → All Q xs
All-map [] f h = tt
All-map (x ∷ xs) f (h, hs) = (f x h, All-map xs f hs)

-- A counted vector: its length, the capacity that it takes, and its elements.
pub Reads-vector {ℓ κ} :
    {A : Type ℓ} {B : Type κ} (size : ℕ) (p : Read A) (print : A → Bytes) (xs : List A)
    (f : List A → Read B) (ys : Bytes) (b : B)
    → 0 < size
    → length xs * size ≤ isize_max
    → All (λ x. Reads p (print x) x) xs
    → Reads (f xs) ys b
    → Reads
        (read_compact >>= λ count. lift (with_capacity size count) >> (repeat count p >>= f))
        (get_compact_int (length xs) ++ (extend_all print xs ++ ys))
        b
Reads-vector size p print xs f ys b pos fits each h =
    Reads-bind read_compact _ _ _ (length xs) b
      (Reads-get_compact_int (length xs) (fits_u64 (length xs) size pos fits))
      (Reads-lift (with_capacity size (length xs)) _ _ tt b
        (with_capacity_fits size (length xs) fits)
        (Reads-bind (repeat (length xs) p) f (extend_all print xs) ys xs b
          (Reads-repeat p print xs each) h))

-- A transaction is read off the front of a slice that begins with its bytes.
pub Reads-parse_raw : (tx : Transaction) → IsTransaction tx → Reads parse_raw (get_raw_format tx) tx
unfolding parse_raw get_raw_format
Reads-parse_raw tx h = Reads-bind read_u32 _ _ _ tx.version tx (Reads-read_u32 _ h.version) (
    Reads-vector size_of_tx_in parse_input input_bytes tx.inputs _ _ tx (omega arith) h.inputs_fit
      (All-map tx.inputs Reads-parse_input h.inputs)
      (Reads-vector size_of_tx_out parse_output output_bytes tx.outputs _ _ tx (omega arith)
        h.outputs_fit (All-map tx.outputs Reads-parse_output h.outputs)
        (Reads-last read_u32 _ _ tx.lock_time tx (Reads-read_u32 _ h.lock_time) refl)))
