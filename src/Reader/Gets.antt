-- ===== src/Reader/Gets.antt =====
-- The converse of `Reads`: where a reader succeeds, which bytes it has taken and what its value is.
pub mod Primitive
pub mod Within
use avicoin.Prelude.{
  ℕ, zero, suc, ◌^◌, ◌≤◌, ◌<◌, ◌≡◌, refl, sym, ap, ◌∙◌, subst, inl, inr, [], ◌∷◌, ◌++◌, arith,
  length, take, All, All-take, All-drop, length-take, take-append-drop, drop-drop, append_assoc,
  Bool, true, false, ◌==◌, if◌then◌else◌,
}
use avicoin.Prelude.Int.{
  IsI32, i32_of_bits, bits_of_i32, bits_of_i32-i32_of_bits, i32_of_bits-IsI32,
}
use avicoin.Outcome.{Result, Error, ok, err, panic}
use avicoin.Words.{
  Bytes, IsByte, IsArray, IsU64, to_le_bytes, from_le_bytes, from_le_bytes-lt,
  to_le_bytes-from_le_bytes,
}
use avicoin.Reader.{
  ByteReader, Read, IsValid, new, remaining, advance, lift, pure, and_then, ◌>>=◌, map_ok,
  take_bytes, take_array, first_byte, repeat, read_byte, read_u16, read_u32, read_i32, read_u64,
  read_array, read_bytes, read_wide, read_compact,
}
use avicoin.Reader.Take.{new-IsValid}
use avicoin.Reader.Keeps.{
  Onward, Onward-refl, Onward-trans, Onward-advance, take_bytes_cases, take_array_cases,
}

-- `q` is what a reader returned from `r`: it has moved on, and where it has a value, `R` holds of it
-- and of the bytes that were taken.
pub record Got {ℓ κ} {A : Type ℓ} (R : A → Bytes → Type κ) (r : ByteReader)
    (q : Result A × ByteReader) : Type (ℓ ⊔ κ) where
  pub onward : Onward r q.1
  pub taken : (a : A) → q.0 ≡ ok a → (xs : Bytes) × (remaining r ≡ xs ++ remaining q.1) × R a xs

pub record Gets {ℓ κ} {A : Type ℓ} (R : A → Bytes → Type κ) (p : Read A) : Type (ℓ ⊔ κ) where
  pub got : (r : ByteReader) → IsValid r → All IsByte r.bytes → Got R r (p r)

pub Gets-lift {ℓ κ} :
    {A : Type ℓ} (R : A → Bytes → Type κ) (m : Result A)
    → ((a : A) → m ≡ ok a → R a [])
    → Gets R (lift m)
Gets-lift R m h = record {
  got = λ r v b. record { onward = Onward-refl r v; taken = λ a e. ([], refl, h a e) };
}

pub Gets-pure {ℓ κ} : {A : Type ℓ} (R : A → Bytes → Type κ) (a : A) → R a [] → Gets R (pure a)
Gets-pure R a h = Gets-lift R (ok a) (λ b e. subst (λ c. R c []) (cc) h)

module _ {ℓ κ μ ν} {A : Type ℓ} {B : Type κ} (R : A → Bytes → Type μ) (S : B → Bytes → Type ν)
    (f : A → Read B)
    (hf : (a : A) (xs : Bytes) → R a xs → Gets (λ b ys. S b (xs ++ ys)) (f a)) where
  Got-and_then :
      (r : ByteReader) (q : Result A × ByteReader)
      → All IsByte r.bytes
      → Got R r q
      → Got S r (and_then q f)
  Got-and_then r (err e, s) b g = record { onward = g.onward; taken = λ a e. cc }
  Got-and_then r (panic, s) b g = record { onward = g.onward; taken = λ a e. cc }
  Got-and_then r (ok a, s) b g =
      let (xs, split, h) = g.taken a refl in
      let rest = (hf a xs h).got s g.onward.valid (subst (All IsByte) (sym g.onward.same) b) in
      record {
        onward = Onward-trans g.onward rest.onward;
        taken = λ c e.
            let (ys, split', h') = rest.taken c e in
            (xs ++ ys, split ∙ ap (λ t. xs ++ t) split' ∙ sym (append_assoc xs ys _), h');
      }

  pub Gets-bind : (p : Read A) → Gets R p → Gets S (p >>= f)
  Gets-bind p hp = record { got = λ r v b. Got-and_then r (p r) b (hp.got r v b) }

pub Gets-weaken {ℓ κ μ} :
    {A : Type ℓ} (R : A → Bytes → Type κ) (S : A → Bytes → Type μ) (p : Read A)
    → ((a : A) (xs : Bytes) → R a xs → S a xs)
    → Gets R p
    → Gets S p
Gets-weaken R S p h hp = record {
  got = λ r v b.
      let g = hp.got r v b in
      record {
        onward = g.onward;
        taken = λ a e. let (xs, split, x) = g.taken a e in (xs, split, h a xs x);
      };
}

pub Gets-if {ℓ κ} :
    {A : Type ℓ} (R : A → Bytes → Type κ) (b : Bool) (p q : Read A)
    → (b ≡ true → Gets R p)
    → (b ≡ false → Gets R q)
    → Gets R (if b then p else q)
Gets-if R true p q hp hq = hp refl
Gets-if R false p q hp hq = hq refl

-- What holds of the value of a reader on a whole slice of bytes.
pub got_new {ℓ κ} :
    {A : Type ℓ} (R : A → Bytes → Type κ) (p : Read A) (bs : Bytes) (a : A)
    → length bs < 2 ^ 64
    → All IsByte bs
    → Gets R p
    → (p (new bs)).0 ≡ ok a
    → (xs : Bytes) × (bs ≡ xs ++ remaining (p (new bs)).1) × R a xs
unfolding new
got_new R p bs a fits b h e = (h.got (new bs) (new-IsValid bs fits) b).taken a e
