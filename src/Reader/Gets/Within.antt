-- ===== src/Reader/Gets/Within.antt =====
-- Parsers whose values have a printed form no longer than the bytes that were taken for them.
use avicoin.Prelude.{
  ℕ, ◌+◌, ◌^◌, ◌≤◌, ◌<◌, ◌≡◌, [], ◌∷◌, arith, length, All, ap, refl, zero, suc, length-append,
}
use avicoin.Words.{Bytes, IsArray, length-to_le_bytes, extend_all}
use avicoin.Reader.{Read, ◌>>=◌, pure, repeat}
use avicoin.Reader.Gets.{Gets, Gets-bind, Gets-pure, Gets-weaken}
use avicoin.Reader.Gets.Primitive.{IsWord, IsTaken}

-- A value of the type `Q` whose printed form is `size` long, and not longer than `before` and what was
-- taken.
abbrev pub IsWithin {ℓ κ} : {A : Type ℓ} → (A → Type κ) → (A → ℕ) → ℕ → A → Bytes → Type κ
IsWithin Q size before a xs = Q a × (size a ≤ before + length xs)

-- One step of a parser, and the rest of it.
pub Gets-next {ℓ κ μ ν} :
    {A : Type ℓ} {B : Type κ} (P : A → Type μ) (k : A → ℕ) (Q : B → Type ν) (size : B → ℕ)
    (before : ℕ) (p : Read A) (f : A → Read B)
    → Gets (IsWithin P k 0) p
    → ((a : A) → P a → Gets (IsWithin Q size (before + k a)) (f a))
    → Gets (IsWithin Q size before) (p >>= f)
Gets-next P k Q size before p f hp hf =
    Gets-bind (IsWithin P k 0) _ f
      (λ a xs h.
        Gets-weaken (IsWithin Q size (before + k a)) _ (f a)
          (λ b ys h'. (h'.0, omega (arith, h.1, h'.1, length-append xs ys))) (hf a h.0))
      p hp

-- The last step.
pub Gets-last {ℓ κ} :
    {A : Type ℓ} (Q : A → Type κ) (size : A → ℕ) (before : ℕ) (a : A)
    → Q a
    → size a ≤ before
    → Gets (IsWithin Q size before) (pure a)
Gets-last Q size before a q h = Gets-pure _ a (q, omega (arith, h))

-- A counted loop: as many values as it counts, each as the reader's.
pub Gets-repeat {ℓ κ} :
    {A : Type ℓ} (P : A → Type κ) (print : A → Bytes) (n : ℕ) (p : Read A)
    → Gets (IsWithin P (λ a. length (print a)) 0) p
    → Gets
        (IsWithin (λ as'. (length as' ≡ n) × All P as') (λ as'. length (extend_all print as')) 0)
        (repeat n p)
unfolding repeat
Gets-repeat P print zero p h = Gets-last _ _ 0 [] (refl, tt) (omega arith)
Gets-repeat P print (suc n) p h =
    Gets-next P (λ a. length (print a)) _ _ 0 p _ h
      λ a ha. Gets-next _ _ _ _ _ (repeat n p) _ (Gets-repeat P print n p h) λ as' has.
        Gets-last _ _ _ (a ∷ as') (ap suc has.0, (ha, has.1))
          (omega (arith, length-append (print a) (extend_all print as')))

pub IsWithin-word :
    (k : ℕ) (p : Read ℕ) → Gets (IsWord k) p → Gets (IsWithin (λ v. v < 256 ^ k) (λ _. k) 0) p
IsWithin-word k p h =
    Gets-weaken _ _ p
      (λ v xs word. (word.1, omega (arith, ap length word.0, length-to_le_bytes k v))) h

pub IsWithin-taken :
    (n : ℕ) (p : Read Bytes) → Gets (IsTaken n) p → Gets (IsWithin (IsArray n) (λ _. n) 0) p
IsWithin-taken n p h =
    Gets-weaken _ _ p (λ bs xs taken. (taken.1, omega (arith, taken.1.0, ap length taken.0))) h
