-- ===== src/Util/Command.antt =====
-- Command names: `command_12` pads a name to twelve bytes, and `parse_command_12` takes the padding off.
use avicoin.Prelude.{
  ℕ, zero, suc, ◌-◌, ◌≤◌, ◌≡◌, ◌≢◌, ◌⊎◌, inl, inr, refl, sym, ap, ◌∙◌, Bool, true, false, not, none,
  some, [], ◌∷◌, ◌++◌, arith, length, replicate, All, ◌==◌, length-append, take-append, Bool-cases,
  append-nil, ==_iff,
}
use avicoin.Outcome.{Result, ok, err, ◌>>=◌, ◌>>◌, refuse_if, invalid_command_padding}
use avicoin.Words.{Bytes}
use avicoin.Text.{is_ascii, from_utf8, from_utf8_valid, is_ascii→is_utf8}
use avicoin.Util.{command_12, parse_command_12, position, cleaned_bytes, is_some}

abbrev pub IsNonNull : ℕ → Type 0
IsNonNull b = b ≢ 0

abbrev is_null : ℕ → Bool
is_null b = b == 0

abbrev is_non_null : ℕ → Bool
is_non_null b = not (b == 0)

position_none : (bs : Bytes) → All IsNonNull bs → position is_null bs ≡ (none, [])
unfolding position
position_none [] h = refl
position_none (b ∷ bs) h = ground (arith, position_none bs h.1)

position_some :
    (front rest : Bytes)
    → All IsNonNull front
    → position is_null (front ++ 0 ∷ rest) ≡ (some (length front), rest)
unfolding position
position_some [] rest h = refl
position_some (b ∷ front) rest h = ground (arith, position_some front rest h.1)

-- Only nulls, or some byte that is not null.
padding_cases :
    (bs : Bytes)
    → ((bs ≡ replicate (length bs) 0) × (is_some (position is_non_null bs).0 ≡ false))
      ⊎ (is_some (position is_non_null bs).0 ≡ true)
unfolding position
padding_cases [] = inl (refl, refl)
padding_cases (b ∷ bs) = ground (arith, padding_cases bs)

padding_none : (n : ℕ) → is_some (position is_non_null (replicate n 0)).0 ≡ false
unfolding position
padding_none zero = refl
padding_none (suc n) = ground (arith, padding_none n)

-- A name without a null, or a name, a null and the rest.
null_cases :
    (bs : Bytes)
    → All IsNonNull bs
      ⊎ ((front : Bytes) × (rest : Bytes) × (bs ≡ front ++ 0 ∷ rest) × All IsNonNull front)
null_cases [] = inl tt
null_cases (b ∷ bs) = elim (Bool-cases (b == 0)) [
  | inl null ↦ inr ([], bs, ap (λ c. c ∷ bs) ((==_iff b 0).0 null), tt)
  | inr other ↦ elim (null_cases bs) [
    | inl h ↦ inl (ground arith, h)
    | inr (front, rest, e, h) ↦ inr (b ∷ front, rest, ap (◌∷◌ b) e, (ground arith, h))
  ]
]

-- What `parse_command_12` does with a name, a null and the rest.
parse_with_null :
    (front rest : Bytes)
    → All IsNonNull front
    → is_some (position is_non_null rest).0 ≡ false
    → parse_command_12 (front ++ 0 ∷ rest)
      ≡ (refuse_if (not (is_ascii front)) invalid_command_padding >> from_utf8 front)
unfolding parse_command_12 cleaned_bytes
parse_with_null front rest h e = rw (position_some front rest h, e, take-append front (0 ∷ rest))

parse_bad_padding :
    (front rest : Bytes)
    → All IsNonNull front
    → is_some (position is_non_null rest).0 ≡ true
    → parse_command_12 (front ++ 0 ∷ rest) ≡ err invalid_command_padding
unfolding parse_command_12 cleaned_bytes
parse_bad_padding front rest h e = rw (position_some front rest h, e)

parse_without_null :
    (bs : Bytes)
    → All IsNonNull bs
    → parse_command_12 bs ≡ (refuse_if (not (is_ascii bs)) invalid_command_padding >> from_utf8 bs)
unfolding parse_command_12 cleaned_bytes
parse_without_null bs h = rw (position_none bs h)

ascii_name :
    (bs : Bytes)
    → is_ascii bs ≡ true
    → (refuse_if (not (is_ascii bs)) invalid_command_padding >> from_utf8 bs) ≡ ok bs
ascii_name bs h = rw h (from_utf8_valid bs (is_ascii→is_utf8 bs h))

other_name :
    (bs : Bytes)
    → is_ascii bs ≡ false
    → (refuse_if (not (is_ascii bs)) invalid_command_padding >> from_utf8 bs)
      ≡ err invalid_command_padding
other_name bs h = rw h

command_12_ascii :
    (cmd : Bytes)
    → length cmd ≤ 12
    → is_ascii cmd ≡ true
    → command_12 cmd ≡ ok (cmd ++ replicate (12 - length cmd) 0)
unfolding command_12
command_12_ascii cmd h a = ground arith

parse_padded :
    (cmd : Bytes) (n : ℕ)
    → All IsNonNull cmd
    → is_ascii cmd ≡ true
    → parse_command_12 (cmd ++ replicate n 0) ≡ ok cmd
parse_padded cmd zero h a = rw append-nil (parse_without_null cmd h ∙ ascii_name cmd a)
parse_padded cmd (suc n) h a =
    parse_with_null cmd (replicate n 0) h (padding_none n) ∙ ascii_name cmd a

-- An ASCII name of at most twelve bytes, none of them null, is padded without a panic and comes back
-- from the twelve bytes as it was.
pub parse_command_12-command_12 :
    (cmd : Bytes)
    → length cmd ≤ 12
    → All IsNonNull cmd
    → is_ascii cmd ≡ true
    → (command_12 cmd >>= parse_command_12) ≡ ok cmd
parse_command_12-command_12 cmd h nn a =
    rw (command_12_ascii cmd h a) (parse_padded cmd (12 - length cmd) nn a)

-- The twelve bytes of `name`, padded.
abbrev pub IsPadded : Bytes → Bytes → Type 0
IsPadded name bs = All IsNonNull name × (is_ascii name ≡ true) × (command_12 name ≡ ok bs)

ascii_outcome :
    (name bs : Bytes) {r : Result Bytes}
    → r ≡ (refuse_if (not (is_ascii name)) invalid_command_padding >> from_utf8 name)
    → length bs ≡ 12
    → All IsNonNull name
    → bs ≡ name ++ replicate (12 - length name) 0
    → length name ≤ 12
    → ((n : Bytes) × (r ≡ ok n) × IsPadded n bs) ⊎ (r ≡ err invalid_command_padding)
ascii_outcome name bs e len nn pad le = elim (Bool-cases (is_ascii name)) [
  | inl a ↦ inl (name, e ∙ ascii_name name a, (nn, a, command_12_ascii name le a ∙ ap ok (sym pad)))
  | inr a ↦ inr (e ∙ other_name name a)
]

fill :
    (front rest bs : Bytes)
    → bs ≡ front ++ 0 ∷ rest
    → length bs ≡ 12
    → suc (length rest) ≡ 12 - length front
fill front rest bs e len = omega (arith, ap length e, length-append front (0 ∷ rest))

-- `parse_command_12` accepts exactly the padded forms: on any twelve bytes it either returns a name
-- without nulls whose padded form those bytes are, or it refuses the padding. It never panics, and the
-- conversion from UTF-8 never fails.
pub parse_command_12_cases :
    (bs : Bytes)
    → length bs ≡ 12
    → ((name : Bytes) × (parse_command_12 bs ≡ ok name) × IsPadded name bs)
      ⊎ (parse_command_12 bs ≡ err invalid_command_padding)
parse_command_12_cases bs len = elim (null_cases bs) [
  | inl nn ↦
      ascii_outcome bs bs (parse_without_null bs nn) len nn (rw (len) (sym (append-nil bs)))
        (omega arith)
  | inr (front, rest, e, nn) ↦ elim (padding_cases rest) [
    | inl (pad, none_left) ↦
        ascii_outcome front bs (ap parse_command_12 e ∙ parse_with_null front rest nn none_left) len
          nn
          (e
            ∙ ap (λ t. front ++ t)
                (ap (◌∷◌ 0) pad ∙ ap (λ n. replicate n 0) (fill front rest bs e len)))
          (omega (arith, ap length e, length-append front (0 ∷ rest)))
    | inr some_left ↦ inr (ap parse_command_12 e ∙ parse_bad_padding front rest nn some_left)
  ]
]
