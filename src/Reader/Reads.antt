-- ===== src/Reader/Reads.antt =====
-- Readers against the bytes that they are meant for: which bytes a reader takes off the front of its
-- slice, whatever follows them, and the value that it makes of them.
use avicoin.Prelude.{
  ℕ, ◌+◌, ◌≤◌, ◌≡◌, refl, sym, ap, ◌∙◌, subst, some, List, [], ◌∷◌, ◌++◌, arith, length, take, drop,
  All, length-drop, length-append, take-append, drop-append, drop-drop, append_assoc,
}
use avicoin.Prelude.Int.{ℤ, IsI32, bits_of_i32, i32_of_bits-bits_of_i32, bits_of_i32-lt}
use avicoin.Outcome.{Result, ok}
use avicoin.Words.{Bytes, IsU16, IsU32, IsU64, to_le_bytes}
use avicoin.Words.{extend_all, length-to_le_bytes, from_le_bytes-to_le_bytes}
use avicoin.Reader.{
  ByteReader, Read, IsValid, remaining, advance, pure, lift, ◌>>=◌, take_bytes, take_array, repeat,
  read_byte, read_u16, read_u32, read_i32, read_u64, read_array, read_bytes,
}
use avicoin.Reader.Take.{take_bytes_enough, take_array_enough}

-- `p` takes exactly `xs` off the front of any slice that begins with it, and returns `a`.
abbrev pub Reads {ℓ} : {A : Type ℓ} → Read A → Bytes → A → Type ℓ
Reads p xs a =
    (r : ByteReader) (rest : Bytes)
    → IsValid r
    → remaining r ≡ xs ++ rest
    → p r ≡ (ok a, advance (length xs) r)

advance-IsValid :
    (r : ByteReader) (n : ℕ) → IsValid r → n ≤ length (remaining r) → IsValid (advance n r)
advance-IsValid r n v h = record {
  within = omega (arith, length-drop r.position r.bytes, v.within);
  addressable = v.addressable;
}

advance-advance : (r : ByteReader) (m n : ℕ) → advance n (advance m r) ≡ advance (m + n) r
advance-advance r m n = ap (λ p. record r { position = p }) (omega arith)

pub Reads-pure {ℓ} : {A : Type ℓ} (a : A) → Reads (pure a) [] a
Reads-pure a r rest v e = ap (λ p. (ok a, record r { position = p })) (omega arith)

-- After a prefix was taken: the reader is in order, and what remains is what followed.
pub after_prefix :
    (r : ByteReader) (xs rest : Bytes)
    → IsValid r
    → remaining r ≡ xs ++ rest
    → IsValid (advance (length xs) r) × (remaining (advance (length xs) r) ≡ rest)
after_prefix r xs rest v e = (
  advance-IsValid r (length xs) v (omega (arith, ap length e, length-append xs rest)),
  drop-drop r.position (length xs) r.bytes ∙ ap (drop (length xs)) e ∙ drop-append xs rest,
)

pub Reads-bind {ℓ κ} :
    {A : Type ℓ} {B : Type κ} (p : Read A) (f : A → Read B) (xs ys : Bytes) (a : A) (b : B)
    → Reads p xs a
    → Reads (f a) ys b
    → Reads (p >>= f) (xs ++ ys) b
Reads-bind p f xs ys a b hp hf r rest v e =
    let e' = e ∙ append_assoc xs ys rest in
    let (v', e'') = after_prefix r xs (ys ++ rest) v e' in
    rw (hp r (ys ++ rest) v e') (
      hf (advance (length xs) r) rest v' e''
      ∙ ap (λ q. (ok b, q))
          (advance-advance r (length xs) (length ys)
            ∙ ap (λ n. advance n r) (sym (length-append xs ys))))

-- What is left of a chain once its first step has read its prefix.
pub >>=-step {ℓ κ} :
    {A : Type ℓ} {B : Type κ} (p : Read A) (f : A → Read B) (xs : Bytes) (a : A) (r : ByteReader)
    (rest : Bytes)
    → Reads p xs a
    → IsValid r
    → remaining r ≡ xs ++ rest
    → (p >>= f) r ≡ f a (advance (length xs) r)
>>=-step p f xs a r rest hp v e = rw (hp r rest v e)

-- The last step of a chain, which takes nothing.
pub Reads-last {ℓ κ} :
    {A : Type ℓ} {B : Type κ} (p : Read A) (f : A → Result B) (xs : Bytes) (a : A) (b : B)
    → Reads p xs a
    → f a ≡ ok b
    → Reads (p >>= λ x. lift (f x)) xs b
Reads-last p f xs a b hp h r rest v e = rw (hp r rest v e, h)

-- A step that takes nothing, and the rest of the chain.
pub Reads-lift {ℓ κ} :
    {A : Type ℓ} {B : Type κ} (m : Result A) (f : A → Read B) (ys : Bytes) (a : A) (b : B)
    → m ≡ ok a
    → Reads (f a) ys b
    → Reads (lift m >>= f) ys b
Reads-lift m f ys a b h hf r rest v e = rw h (hf r rest v e)

-- A counted loop reads the elements one after the other.
pub Reads-repeat {ℓ} :
    {A : Type ℓ} (p : Read A) (print : A → Bytes) (xs : List A)
    → All (λ x. Reads p (print x) x) xs
    → Reads (repeat (length xs) p) (extend_all print xs) xs
unfolding repeat
Reads-repeat p print [] h = Reads-pure []
Reads-repeat p print (x ∷ xs) (h, hs) =
    Reads-bind p _ (print x) (extend_all print xs) x (x ∷ xs) h (
      Reads-last (repeat (length xs) p) (λ ys. ok (x ∷ ys)) (extend_all print xs) xs (x ∷ xs)
        (Reads-repeat p print xs hs) refl)

module _ (r : ByteReader) (xs rest : Bytes) (v : IsValid r) (e : remaining r ≡ xs ++ rest) where
  enough : length xs ≤ length (remaining r)
  enough = omega (arith, ap length e, length-append xs rest)

  front : take (length xs) (remaining r) ≡ xs
  front = ap (take (length xs)) e ∙ take-append xs rest

  take_bytes-prefix : take_bytes (length xs) r ≡ (some xs, advance (length xs) r)
  take_bytes-prefix =
      take_bytes_enough r v (length xs) enough ∙ ap (λ t. (some t, advance (length xs) r)) front

  take_array-prefix : take_array (length xs) r ≡ (some xs, advance (length xs) r)
  take_array-prefix =
      take_array_enough r v (length xs) enough ∙ ap (λ t. (some t, advance (length xs) r)) front

pub Reads-read_byte : (b : ℕ) → Reads read_byte (b ∷ []) b
unfolding read_byte
Reads-read_byte b r rest v e = rw (take_bytes-prefix r (b ∷ []) rest v e)

pub Reads-read_bytes : (xs : Bytes) → Reads (read_bytes (length xs)) xs xs
unfolding read_bytes
Reads-read_bytes xs r rest v e = rw (take_bytes-prefix r xs rest v e)

pub Reads-read_array : (xs : Bytes) → Reads (read_array (length xs)) xs xs
unfolding read_array
Reads-read_array xs r rest v e = rw (take_array-prefix r xs rest v e)

-- The word of `k` bytes that `f` makes of its little-endian form.
word_prefix :
    (k v : ℕ) (r : ByteReader) (rest : Bytes)
    → IsValid r
    → remaining r ≡ to_le_bytes k v ++ rest
    → take_array k r ≡ (some (to_le_bytes k v), advance (length (to_le_bytes k v)) r)
word_prefix k v r rest valid e =
    subst (λ n. take_array n r ≡ (some (to_le_bytes k v), advance (length (to_le_bytes k v)) r))
      (length-to_le_bytes k v) (take_array-prefix r (to_le_bytes k v) rest valid e)

pub Reads-read_u16 : (v : ℕ) → IsU16 v → Reads read_u16 (to_le_bytes 2 v) v
unfolding read_u16
Reads-read_u16 v h r rest valid e =
    rw (word_prefix 2 v r rest valid e, from_le_bytes-to_le_bytes 2 v h)

pub Reads-read_u32 : (v : ℕ) → IsU32 v → Reads read_u32 (to_le_bytes 4 v) v
unfolding read_u32
Reads-read_u32 v h r rest valid e =
    rw (word_prefix 4 v r rest valid e, from_le_bytes-to_le_bytes 4 v h)

pub Reads-read_u64 : (v : ℕ) → IsU64 v → Reads read_u64 (to_le_bytes 8 v) v
unfolding read_u64
Reads-read_u64 v h r rest valid e =
    rw (word_prefix 8 v r rest valid e, from_le_bytes-to_le_bytes 8 v h)

pub Reads-read_i32 : (z : ℤ) → IsI32 z → Reads read_i32 (to_le_bytes 4 (bits_of_i32 z)) z
unfolding read_i32
Reads-read_i32 z h r rest valid e = rw (
  word_prefix 4 (bits_of_i32 z) r rest valid e,
  from_le_bytes-to_le_bytes 4 (bits_of_i32 z) (bits_of_i32-lt z),
  i32_of_bits-bits_of_i32 z h,
)
