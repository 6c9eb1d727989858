-- ===== src/Reader/Gets/Primitive.antt =====
-- The readers of bytes, numbers and arrays.
use avicoin.Prelude.{
  ℕ, ◌^◌, ◌≤◌, ◌<◌, ◌≡◌, refl, sym, ap, ◌∙◌, subst, inl, inr, [], ◌∷◌, ◌++◌, arith, length, take,
  All, All-take, All-drop, length-take, take-append-drop, drop-drop,
}
use avicoin.Prelude.Int.{
  IsI32, i32_of_bits, bits_of_i32, bits_of_i32-i32_of_bits, i32_of_bits-IsI32,
}
use avicoin.Outcome.{Error, ok, err}
use avicoin.Words.{
  Bytes, IsByte, IsArray, to_le_bytes, from_le_bytes, from_le_bytes-lt, to_le_bytes-from_le_bytes,
}
use avicoin.Reader.{
  ByteReader, IsValid, remaining, advance, map_ok, take_bytes, take_array, first_byte, read_byte,
  read_u16, read_u32, read_i32, read_u64, read_array, read_bytes,
}
use avicoin.Reader.Keeps.{Onward-refl, Onward-advance, take_bytes_cases, take_array_cases}
use avicoin.Reader.Gets.{Got, Gets, Gets-weaken}

advance_split :
    (r : ByteReader) (n : ℕ) → remaining r ≡ take n (remaining r) ++ remaining (advance n r)
advance_split r n =
    sym (take-append-drop n (remaining r))
    ∙ ap (λ t. take n (remaining r) ++ t) (sym (drop-drop r.position n r.bytes))

-- The primitive readers take their `n` bytes, and make `f` of them.
module _ {ℓ} {A : Type ℓ} (f : Bytes → A) (e : Error) (n : ℕ) where
  abbrev Primitive : A → Bytes → Type ℓ
  Primitive a xs = (f xs ≡ a) × IsArray n xs

  Got-Primitive :
      (r : ByteReader) (v : IsValid r)
      → All IsByte r.bytes
      → n ≤ length (remaining r)
      → Got Primitive r (ok (f (take n (remaining r))), advance n r)
  Got-Primitive r v b h = record {
    onward = Onward-advance r n v h;
    taken = λ a e'. (
      take n (remaining r),
      advance_split r n,
      (
        cc,
        (
          omega (arith, length-take n (remaining r)),
          All-take IsByte n _ (All-drop IsByte r.position r.bytes b),
        ),
      ),
    );
  }

  Got-failed : (r : ByteReader) → IsValid r → Got Primitive r (err e, r)
  Got-failed r v = record { onward = Onward-refl r v; taken = λ a e'. cc }

  Gets-take_bytes : Gets Primitive (λ r. map_ok f e (take_bytes n r))
  Gets-take_bytes = record {
    got = λ r v b. elim (take_bytes_cases r n v) [
      | inl (h, eq) ↦ rw eq (Got-Primitive r v b h)
      | inr (h, eq) ↦ rw eq (Got-failed r v)
    ];
  }

  Gets-take_array : Gets Primitive (λ r. map_ok f e (take_array n r))
  Gets-take_array = record {
    got = λ r v b. elim (take_array_cases r n v) [
      | inl (h, eq) ↦ rw eq (Got-Primitive r v b h)
      | inr (h, eq) ↦ rw eq (Got-failed r v)
    ];
  }

-- A number of `k` bytes, and the bytes that it is written as.
abbrev pub IsWord : ℕ → ℕ → Bytes → Type 0
IsWord k v xs = (xs ≡ to_le_bytes k v) × (v < 256 ^ k)

word : (k v : ℕ) (xs : Bytes) → from_le_bytes xs ≡ v → IsArray k xs → IsWord k v xs
word k v xs e (len, b) = (
  sym (to_le_bytes-from_le_bytes xs b)
      ∙ ap (to_le_bytes (length xs)) e
      ∙ ap (λ m. to_le_bytes m v) len,
  subst (λ m. v < 256 ^ m) len (subst (λ w. w < 256 ^ length xs) e (from_le_bytes-lt xs b)),
)

pub Gets-read_u16 : Gets (IsWord 2) read_u16
unfolding read_u16
Gets-read_u16 =
    Gets-weaken _ _ _ (λ v xs h. word 2 v xs h.0 h.1) (Gets-take_array from_le_bytes _ 2)

pub Gets-read_u32 : Gets (IsWord 4) read_u32
unfolding read_u32
Gets-read_u32 =
    Gets-weaken _ _ _ (λ v xs h. word 4 v xs h.0 h.1) (Gets-take_array from_le_bytes _ 4)

pub Gets-read_u64 : Gets (IsWord 8) read_u64
unfolding read_u64
Gets-read_u64 =
    Gets-weaken _ _ _ (λ v xs h. word 8 v xs h.0 h.1) (Gets-take_array from_le_bytes _ 8)

pub Gets-read_i32 : Gets (λ z xs. (xs ≡ to_le_bytes 4 (bits_of_i32 z)) × IsI32 z) read_i32
unfolding read_i32
Gets-read_i32 =
    Gets-weaken _ _ _
      (λ z xs h.
        let (form, small) = word 4 (from_le_bytes xs) xs refl h.1 in
        (
          form ∙ ap (to_le_bytes 4) (sym (bits_of_i32-i32_of_bits _ small) ∙ ap bits_of_i32 h.0),
          subst IsI32 h.0 (i32_of_bits-IsI32 _ small),
        ))
      (Gets-take_array (λ bs. i32_of_bits (from_le_bytes bs)) _ 4)

-- An array or a slice is the bytes that were taken.
abbrev pub IsTaken : ℕ → Bytes → Bytes → Type 0
IsTaken n bs xs = (bs ≡ xs) × IsArray n bs

taken : (n : ℕ) (bs xs : Bytes) → (xs ≡ bs) → IsArray n xs → IsTaken n bs xs
taken n bs xs e h = (sym e, subst (IsArray n) e h)

pub Gets-read_array : (n : ℕ) → Gets (IsTaken n) (read_array n)
unfolding read_array
Gets-read_array n =
    Gets-weaken _ _ _ (λ bs xs h. taken n bs xs h.0 h.1) (Gets-take_array (λ bs. bs) _ n)

pub Gets-read_bytes : (n : ℕ) → Gets (IsTaken n) (read_bytes n)
unfolding read_bytes
Gets-read_bytes n =
    Gets-weaken _ _ _ (λ bs xs h. taken n bs xs h.0 h.1) (Gets-take_bytes (λ bs. bs) _ n)

first_byte-IsByte : (xs : Bytes) → All IsByte xs → IsByte (first_byte xs)
first_byte-IsByte [] h = omega arith
first_byte-IsByte (x ∷ xs) (h, hs) = h

pub Gets-read_byte : Gets (λ v xs. IsByte v × (length xs ≡ 1)) read_byte
unfolding read_byte
Gets-read_byte =
    Gets-weaken _ _ _ (λ v xs h. (subst IsByte h.0 (first_byte-IsByte xs h.1.1), h.1.0))
      (Gets-take_bytes first_byte _ 1)
