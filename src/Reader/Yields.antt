-- ===== src/Reader/Yields.antt =====
-- What holds of every value that a reader returns, on any bytes.
use avicoin.Prelude.{◌≡◌, subst}
use avicoin.Outcome.{Result, ok, err, panic}
use avicoin.Reader.{ByteReader, Read, and_then, pure, ◌>>=◌}

pub record Yields {ℓ κ} {A : Type ℓ} (P : A → Type κ) (p : Read A) : Type (ℓ ⊔ κ) where
  pub value : (r : ByteReader) (a : A) → (p r).0 ≡ ok a → P a

Yields-and_then {ℓ κ μ} :
    {A : Type ℓ} {B : Type κ} (P : B → Type μ) (f : A → Read B) (q : Result A × ByteReader) (b : B)
    → ((a : A) → Yields P (f a))
    → (and_then q f).0 ≡ ok b
    → P b
Yields-and_then P f (ok a, r) b h e = (h a).value r b e
Yields-and_then P f (err x, r) b h e = cc
Yields-and_then P f (panic, r) b h e = cc

-- What the rest of a chain yields after any first step, the chain yields.
pub Yields-bind {ℓ κ μ} :
    {A : Type ℓ} {B : Type κ} (P : B → Type μ) (p : Read A) (f : A → Read B)
    → ((a : A) → Yields P (f a))
    → Yields P (p >>= f)
Yields-bind P p f h = record { value = λ r b e. Yields-and_then P f (p r) b h e }

pub Yields-pure {ℓ κ} : {A : Type ℓ} (P : A → Type κ) (a : A) → P a → Yields P (pure a)
Yields-pure P a h = record { value = λ r b e. subst P (cc) h }
