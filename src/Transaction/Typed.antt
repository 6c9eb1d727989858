-- ===== src/Transaction/Typed.antt =====
-- What `parse_raw` makes of bytes is a transaction of Rust's types, and no longer than they are.
use avicoin.Prelude.{
  ℕ, ◌+◌, ◌*◌, ◌^◌, ◌≤◌, ◌<◌, ◌≡◌, true, List, [], ◌∷◌, ◌++◌, arith, leb, length, All, leb→le,
  Bool-cases, inl, inr, subst, ap, sym, refl, ◌∙◌, suc, append-nil, length-append,
}
use avicoin.Outcome.{ok}
use avicoin.Words.{Bytes, IsByte, IsU64, to_le_bytes, length-to_le_bytes, extend_all}
use avicoin.Text.{from_utf8, is_utf8}
use avicoin.Reader.{
  Read, ◌>>=◌, ◌>>◌, lift, new, remaining, repeat, read_byte, read_u32, read_u64, read_array,
  read_compact,
}
use avicoin.Reader.Gets.{Gets, Gets-lift, Gets-weaken, got_new}
use avicoin.Reader.Gets.Primitive.{Gets-read_byte, Gets-read_u32, Gets-read_u64, Gets-read_array}
use avicoin.Util.{get_compact_int}
use avicoin.Util.Compact.{Gets-get_compact_int}
use avicoin.Transaction.{
  Transaction, IsTransaction, IsTxIn, IsTxOut, IsString, isize_max, size_of_u8, size_of_tx_in,
  size_of_tx_out, with_capacity, parse_string, parse_input, parse_output, parse_raw, string_bytes,
  input_bytes, output_bytes, get_raw_format,
}
use avicoin.Transaction.RoundTrip.{parse_raw-get_raw_format}
use avicoin.Reader.Gets.Within.{
  IsWithin, Gets-next, Gets-last, Gets-repeat, IsWithin-word, IsWithin-taken,
}

-- Room was made for them.
fits : (size n : ℕ) → with_capacity size n ≡ ok tt → n * size ≤ isize_max
fits size n e = elim (Bool-cases (leb (n * size) isize_max)) [
  | inl room ↦ leb→le _ _ room
  | inr none ↦ cc (rw none at e)
]

-- A counted vector, for which room is made first, and what follows it.
pub Gets-vector {ℓ κ μ ν} :
    {A : Type ℓ} {B : Type κ} (P : A → Type μ) (print : A → Bytes) (Q : B → Type ν) (T : B → ℕ)
    (before size : ℕ) (p : Read A) (f : List A → Read B)
    → Gets (IsWithin P (λ a. length (print a)) 0) p
    → ((as' : List A)
        → length as' * size ≤ isize_max
        → All P as'
        → Gets
            (IsWithin Q T
              (before + length (get_compact_int (length as')) + length (extend_all print as')))
            (f as'))
    → Gets
        (IsWithin Q T before)
        (read_compact >>= λ n. lift (with_capacity size n) >> (repeat n p >>= f))
Gets-vector P print Q T before size p f hp hf =
    Gets-next IsU64 (λ n. length (get_compact_int n)) Q T before read_compact _ Gets-get_compact_int
      λ n hn.
        Gets-next (λ _. n * size ≤ isize_max) (λ _. 0) Q T _ (lift (with_capacity size n)) _
          (Gets-lift _ _ λ _ e. (fits size n e, omega arith))
          λ _ room. Gets-next _ _ Q T _ (repeat n p) f (Gets-repeat P print n p hp) λ as' has.
            Gets-weaken _ _ (f as')
              (λ b xs h. (h.0, omega (arith, h.1, ap (λ k. length (get_compact_int k)) has.0)))
              (hf as' (subst (λ k. k * size ≤ isize_max) (sym has.0) room) has.1)

from_utf8-ok : (bs s : Bytes) → from_utf8 bs ≡ ok s → (bs ≡ s) × (is_utf8 s ≡ true)
unfolding from_utf8
from_utf8-ok bs s e = elim (Bool-cases (is_utf8 bs)) [
  | inl good ↦
      let same : bs ≡ s = cc (rw good at e) in (same, subst (λ x. is_utf8 x ≡ true) same good)
  | inr bad ↦ cc (rw bad at e)
]

extend_bytes : (bs : Bytes) → length (extend_all (λ b. b ∷ []) bs) ≡ length bs
extend_bytes [] = refl
extend_bytes (b ∷ bs) = ap suc (extend_bytes bs)

Gets-parse_string : Gets (IsWithin IsString (λ s. length (string_bytes s)) 0) parse_string
unfolding parse_string string_bytes
Gets-parse_string =
    Gets-vector IsByte (λ b. b ∷ []) IsString _ 0 size_of_u8 read_byte _
      (Gets-weaken _ _ read_byte (λ v xs h. (h.0, omega (arith, h.1))) Gets-read_byte)
      λ bs room h. Gets-lift _ _ λ s e.
        let (same, good) = from_utf8-ok bs s e in
        (
          record { utf8 = good; fits = omega (arith, room, ap length same) },
          omega (
            arith,
            length-append (get_compact_int (length s)) s,
            ap (λ t. length (get_compact_int (length t))) same,
            ap length same,
            extend_bytes bs,
          ),
        )

Gets-parse_input : Gets (IsWithin IsTxIn (λ tx. length (input_bytes tx)) 0) parse_input
unfolding parse_input input_bytes
Gets-parse_input =
    Gets-next _ _ _ _ 0 (read_array 32) _ (IsWithin-taken 32 _ (Gets-read_array 32)) λ tx_id id.
      Gets-next _ _ _ _ _ read_u32 _ (IsWithin-word 4 _ Gets-read_u32) λ v_out out.
        Gets-next _ _ _ _ _ parse_string _ Gets-parse_string λ signature signed.
          Gets-next _ _ _ _ _ read_u32 _ (IsWithin-word 4 _ Gets-read_u32) λ sequence last.
            Gets-last _ _ _ _
              (record {
                tx_id = id;
                v_out = omega (arith, out);
                signature = signed;
                sequence = omega (arith, last);
              })
              (omega (
                arith,
                id.0,
                length-append tx_id
                    (to_le_bytes 4 v_out ++ (string_bytes signature ++ to_le_bytes 4 sequence)),
                length-append (to_le_bytes 4 v_out)
                    (string_bytes signature ++ to_le_bytes 4 sequence),
                length-append (string_bytes signature) (to_le_bytes 4 sequence),
                length-to_le_bytes 4 v_out,
                length-to_le_bytes 4 sequence,
              ))

Gets-parse_output : Gets (IsWithin IsTxOut (λ tx. length (output_bytes tx)) 0) parse_output
unfolding parse_output output_bytes
Gets-parse_output = Gets-next _ _ _ _ 0 read_u64 _ (IsWithin-word 8 _ Gets-read_u64) λ value amount.
    Gets-next _ _ _ _ _ parse_string _ Gets-parse_string λ pub_key key.
      Gets-last _ _ _ _ (record { value = omega (arith, amount); destiny_pub_key = key })
        (omega (
          arith,
          length-append (to_le_bytes 8 value) (string_bytes pub_key),
          length-to_le_bytes 8 value,
        ))

length-get_raw_format :
    (tx : Transaction)
    → length (get_raw_format tx)
      ≡ 8
        + length (get_compact_int (length tx.inputs))
        + length (extend_all input_bytes tx.inputs)
        + length (get_compact_int (length tx.outputs))
        + length (extend_all output_bytes tx.outputs)
unfolding get_raw_format
length-get_raw_format tx =
    let end = to_le_bytes 4 tx.lock_time in
    let outputs = extend_all output_bytes tx.outputs ++ end in
    let counted = get_compact_int (length tx.outputs) ++ outputs in
    let inputs = extend_all input_bytes tx.inputs ++ counted in
    omega (
      arith,
      length-append (to_le_bytes 4 tx.version) (get_compact_int (length tx.inputs) ++ inputs),
      length-append (get_compact_int (length tx.inputs)) inputs,
      length-append (extend_all input_bytes tx.inputs) counted,
      length-append (get_compact_int (length tx.outputs)) outputs,
      length-append (extend_all output_bytes tx.outputs) end,
      length-to_le_bytes 4 tx.version,
      length-to_le_bytes 4 tx.lock_time,
    )

pub Gets-parse_raw : Gets (IsWithin IsTransaction (λ tx. length (get_raw_format tx)) 0) parse_raw
unfolding parse_raw
Gets-parse_raw = Gets-next _ _ _ _ 0 read_u32 _ (IsWithin-word 4 _ Gets-read_u32) λ version first.
    Gets-vector IsTxIn input_bytes IsTransaction _ _ size_of_tx_in parse_input _ Gets-parse_input
      λ inputs inputs_fit are_inputs.
        Gets-vector IsTxOut output_bytes IsTransaction _ _ size_of_tx_out parse_output _
          Gets-parse_output
          λ outputs outputs_fit are_outputs.
            Gets-next _ _ _ _ _ read_u32 _ (IsWithin-word 4 _ Gets-read_u32) λ lock_time last.
              Gets-last _ _ _ _
                (record {
                  version = omega (arith, first);
                  inputs = are_inputs;
                  outputs = are_outputs;
                  lock_time = omega (arith, last);
                  inputs_fit = inputs_fit;
                  outputs_fit = outputs_fit;
                })
                (omega (arith, length-get_raw_format _))

-- On any bytes at all, a transaction that the parser returns is one of Rust's types: its numbers fit
-- their fields, its ids have 32 bytes, its strings are UTF-8, and its vectors fit in memory. Written
-- again it is no longer than the bytes were, and it parses to itself.
pub parse_raw-IsTransaction :
    (bytes : Bytes) (tx : Transaction)
    → length bytes < 2 ^ 64
    → All IsByte bytes
    → (parse_raw (new bytes)).0 ≡ ok tx
    → IsTransaction tx
      × (length (get_raw_format tx) ≤ length bytes)
      × ((parse_raw (new (get_raw_format tx))).0 ≡ ok tx)
parse_raw-IsTransaction bytes tx fit b e =
    let (xs, split, (is, le)) = got_new _ parse_raw bytes tx fit b Gets-parse_raw e in
    let shorter : length (get_raw_format tx) ≤ length bytes =
      omega (arith, le, ap length split, length-append xs (remaining (parse_raw (new bytes)).1)) in
    let raw = get_raw_format tx in
    (
      is,
      shorter,
      ap (λ bs. (parse_raw (new bs)).0) (sym (append-nil raw))
          ∙ ap (λ q. q.0)
              (parse_raw-get_raw_format tx [] is
                (omega (arith, shorter, fit, length-append raw []))),
    )
