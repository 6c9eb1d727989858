-- ===== src/Reader/Keeps.antt =====
-- What every reader keeps, on any bytes at all: it never leaves the slice and never steps back, and
-- a primitive read that fails leaves the cursor where it was.
use avicoin.Prelude.{
  ℕ, zero, suc, ◌≤◌, ◌<◌, ◌≡◌, refl, ◌∙◌, ◌⊎◌, inl, inr, none, some, [], arith, length, take,
  length-drop, ltb→lt, ltb→le, Bool-cases, ltb, ◌==◌, if◌then◌else◌, Bool, true, false,
}
use avicoin.Outcome.{Result, Error, ok, err, panic}
use avicoin.Words.{Bytes}
use avicoin.Reader.{
  ByteReader, Read, IsValid, remaining, advance, lift, and_then, ◌>>=◌, take_bytes, take_array,
  repeat, map_ok, read_byte, read_u16, read_u32, read_i32, read_u64, read_array, read_bytes,
  read_wide, read_compact,
}
use avicoin.Reader.Take.{take_bytes_enough, take_bytes_short, take_array_enough, take_array_short}

-- `r'` is `r` with its cursor moved on, within the slice.
pub record Onward (r r' : ByteReader) : Type 0 where
  pub same : r'.bytes ≡ r.bytes
  pub forward : r.position ≤ r'.position
  pub valid : IsValid r'

pub record Keeps {ℓ} {A : Type ℓ} (p : Read A) : Type 0 where
  pub onward : (r : ByteReader) → IsValid r → Onward r (p r).1

pub Onward-refl : (r : ByteReader) → IsValid r → Onward r r
Onward-refl r v = record { same = refl; forward = omega arith; valid = v }

pub Onward-trans : {r s t : ByteReader} → Onward r s → Onward s t → Onward r t
Onward-trans a b = record {
  same = b.same ∙ a.same;
  forward = omega (arith, a.forward, b.forward);
  valid = b.valid;
}

pub Onward-advance :
    (r : ByteReader) (n : ℕ) → IsValid r → n ≤ length (remaining r) → Onward r (advance n r)
Onward-advance r n v h = record {
  same = refl;
  forward = omega arith;
  valid = record {
    within = omega (arith, length-drop r.position r.bytes, v.within);
    addressable = v.addressable;
  };
}

-- A primitive read of `n` bytes succeeds exactly when `n` bytes remain; it then moves the cursor on by
-- `n`, and otherwise leaves the reader as it was.
pub take_bytes_cases :
    (r : ByteReader) (n : ℕ)
    → IsValid r
    → ((n ≤ length (remaining r)) × (take_bytes n r ≡ (some (take n (remaining r)), advance n r)))
      ⊎ ((length (remaining r) < n) × (take_bytes n r ≡ (none, r)))
take_bytes_cases r n v = elim (Bool-cases (ltb (length (remaining r)) n)) [
  | inl short ↦ let h = ltb→lt _ _ short in inr (h, take_bytes_short r v n h)
  | inr enough ↦ let h = ltb→le _ _ enough in inl (h, take_bytes_enough r v n h)
]

pub take_array_cases :
    (r : ByteReader) (n : ℕ)
    → IsValid r
    → ((n ≤ length (remaining r)) × (take_array n r ≡ (some (take n (remaining r)), advance n r)))
      ⊎ ((length (remaining r) < n) × (take_array n r ≡ (none, r)))
take_array_cases r n v = elim (Bool-cases (ltb (length (remaining r)) n)) [
  | inl short ↦ let h = ltb→lt _ _ short in inr (h, take_array_short r v n h)
  | inr enough ↦ let h = ltb→le _ _ enough in inl (h, take_array_enough r v n h)
]

pub Keeps-pure {ℓ} : {A : Type ℓ} (m : Result A) → Keeps (lift m)
Keeps-pure m = record { onward = Onward-refl }

Keeps-and_then {ℓ κ} :
    {A : Type ℓ} {B : Type κ} (f : A → Read B) (r : ByteReader) (q : Result A × ByteReader)
    → ((a : A) → Keeps (f a))
    → Onward r q.1
    → Onward r (and_then q f).1
Keeps-and_then f r (ok a, s) hf o = Onward-trans o ((hf a).onward s o.valid)
Keeps-and_then f r (err e, s) hf o = o
Keeps-and_then f r (panic, s) hf o = o

pub Keeps-bind {ℓ κ} :
    {A : Type ℓ} {B : Type κ} (p : Read A) (f : A → Read B)
    → Keeps p
    → ((a : A) → Keeps (f a))
    → Keeps (p >>= f)
Keeps-bind p f hp hf = record { onward = λ r v. Keeps-and_then f r (p r) hf (hp.onward r v) }

pub Keeps-if {ℓ} :
    {A : Type ℓ} (b : Bool) (p q : Read A) → Keeps p → Keeps q → Keeps (if b then p else q)
Keeps-if true p q hp hq = hp
Keeps-if false p q hp hq = hq

pub Keeps-repeat {ℓ} : {A : Type ℓ} (n : ℕ) (p : Read A) → Keeps p → Keeps (repeat n p)
unfolding repeat
Keeps-repeat zero p h = Keeps-pure (ok [])
Keeps-repeat (suc n) p h =
    Keeps-bind p _ h (λ x. Keeps-bind (repeat n p) _ (Keeps-repeat n p h) (λ xs. Keeps-pure (ok _)))

module _ {ℓ} {A : Type ℓ} (f : Bytes → A) (e : Error) (n : ℕ) where
  Keeps-take_bytes : Keeps (λ r. map_ok f e (take_bytes n r))
  Keeps-take_bytes = record {
    onward = λ r v. elim (take_bytes_cases r n v) [
      | inl (h, eq) ↦ rw eq (Onward-advance r n v h)
      | inr (h, eq) ↦ rw eq (Onward-refl r v)
    ];
  }

  Keeps-take_array : Keeps (λ r. map_ok f e (take_array n r))
  Keeps-take_array = record {
    onward = λ r v. elim (take_array_cases r n v) [
      | inl (h, eq) ↦ rw eq (Onward-advance r n v h)
      | inr (h, eq) ↦ rw eq (Onward-refl r v)
    ];
  }

pub Keeps-read_byte : Keeps read_byte
unfolding read_byte
Keeps-read_byte = Keeps-take_bytes _ _ 1

pub Keeps-read_u16 : Keeps read_u16
unfolding read_u16
Keeps-read_u16 = Keeps-take_array _ _ 2

pub Keeps-read_u32 : Keeps read_u32
unfolding read_u32
Keeps-read_u32 = Keeps-take_array _ _ 4

pub Keeps-read_i32 : Keeps read_i32
unfolding read_i32
Keeps-read_i32 = Keeps-take_array _ _ 4

pub Keeps-read_u64 : Keeps read_u64
unfolding read_u64
Keeps-read_u64 = Keeps-take_array _ _ 8

pub Keeps-read_array : (n : ℕ) → Keeps (read_array n)
unfolding read_array
Keeps-read_array n = Keeps-take_array _ _ n

pub Keeps-read_bytes : (n : ℕ) → Keeps (read_bytes n)
unfolding read_bytes
Keeps-read_bytes n = Keeps-take_bytes _ _ n

read_wide-Keeps : (v : ℕ) → Keeps (read_wide v)
unfolding read_wide
read_wide-Keeps v = Keeps-if (v == 0xfd) _ _ Keeps-read_u16 (
    Keeps-if (v == 0xfe) _ _ Keeps-read_u32
      (Keeps-if (v == 0xff) _ _ Keeps-read_u64 (Keeps-pure (ok v))))

pub Keeps-read_compact : Keeps read_compact
unfolding read_compact
Keeps-read_compact = Keeps-bind read_byte _ Keeps-read_byte read_wide-Keeps
