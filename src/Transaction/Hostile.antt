-- ===== src/Transaction/Hostile.antt =====
-- `parse_raw` on bytes that no transaction has.
use avicoin.Prelude.{ℕ, ◌*◌, ◌^◌, ◌<◌, ◌≡◌, refl, ◌++◌, arith, length}
use avicoin.Outcome.{ok, panic}
use avicoin.Words.{Bytes, IsU32, IsU64, to_le_bytes}
use avicoin.Text.{from_utf8}
use avicoin.Reader.{new, advance, lift, read_byte}
use avicoin.Reader.Take.{new-IsValid}
use avicoin.Reader.Reads.{after_prefix, Reads-read_u32}
use avicoin.Reader.Keeps.{
  Keeps, Keeps-bind, Keeps-pure, Keeps-repeat, Keeps-read_byte, Keeps-read_u32, Keeps-read_u64,
  Keeps-read_array, Keeps-read_compact,
}
use avicoin.Util.{get_compact_int}
use avicoin.Util.Compact.{Reads-get_compact_int}
use avicoin.Transaction.{
  parse_string, parse_input, parse_output, parse_raw, with_capacity, isize_max, size_of_tx_in,
}

Keeps-parse_string : Keeps parse_string
unfolding parse_string
Keeps-parse_string = Keeps-bind _ _ Keeps-read_compact λ n.
    Keeps-bind (lift _) _ (Keeps-pure _)
      λ _. Keeps-bind _ _ (Keeps-repeat n read_byte Keeps-read_byte) λ bs. Keeps-pure (from_utf8 bs)

Keeps-parse_input : Keeps parse_input
unfolding parse_input
Keeps-parse_input = Keeps-bind _ _ (Keeps-read_array 32) λ tx_id.
    Keeps-bind _ _ Keeps-read_u32 λ v_out.
      Keeps-bind _ _ Keeps-parse_string
        λ signature. Keeps-bind _ _ Keeps-read_u32 λ sequence. Keeps-pure (ok _)

Keeps-parse_output : Keeps parse_output
unfolding parse_output
Keeps-parse_output =
    Keeps-bind _ _ Keeps-read_u64
      λ value. Keeps-bind _ _ Keeps-parse_string λ pub_key. Keeps-pure (ok _)

-- On any bytes at all, whatever the outcome, `parse_raw` leaves the bytes alone, does not move the
-- cursor back, and leaves it within the slice.
pub parse_raw-Keeps : Keeps parse_raw
unfolding parse_raw
parse_raw-Keeps = Keeps-bind _ _ Keeps-read_u32 λ version.
    Keeps-bind _ _ Keeps-read_compact λ input_count. Keeps-bind (lift _) _ (Keeps-pure _) λ _.
      Keeps-bind _ _ (Keeps-repeat input_count parse_input Keeps-parse_input) λ inputs.
        Keeps-bind _ _ Keeps-read_compact λ output_count. Keeps-bind (lift _) _ (Keeps-pure _) λ _.
          Keeps-bind _ _ (Keeps-repeat output_count parse_output Keeps-parse_output)
            λ outputs. Keeps-bind _ _ Keeps-read_u32 λ lock_time. Keeps-pure (ok _)

with_capacity_panics : (size n : ℕ) → isize_max < n * size → with_capacity size n ≡ panic
with_capacity_panics size n h = ground arith

-- Bytes that claim more inputs than a vector can hold make the parser panic, also where not one
-- input follows.
pub parse_raw_panics :
    (version n : ℕ) (rest : Bytes)
    → IsU32 version
    → IsU64 n
    → isize_max < n * size_of_tx_in
    → length (to_le_bytes 4 version ++ (get_compact_int n ++ rest)) < 2 ^ 64
    → (parse_raw (new (to_le_bytes 4 version ++ (get_compact_int n ++ rest)))).0 ≡ panic
unfolding parse_raw new
parse_raw_panics version n rest hv hn big fits =
    let start = new (to_le_bytes 4 version ++ (get_compact_int n ++ rest)) in
    let valid = new-IsValid _ fits in
    let (valid', e') =
      after_prefix start (to_le_bytes 4 version) (get_compact_int n ++ rest) valid refl in
    rw (
      Reads-read_u32 version hv start (get_compact_int n ++ rest) valid refl,
      Reads-get_compact_int n hn (advance (length (to_le_bytes 4 version)) start) rest valid' e',
      with_capacity_panics size_of_tx_in n big,
    )
