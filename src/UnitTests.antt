-- ===== src/UnitTests.antt =====
-- The inline unit tests of the program, on the model: a test is what its assertions state, and that it
-- passes is a computation.
mod Reader
mod ReaderCases
mod Util
mod Log
mod Node
mod Config
mod Messages
mod Protocol
mod Chain
mod Loops
mod Sockets
mod Wallet
use avicoin.Prelude.{Bool, true, false}
use avicoin.Outcome.{Result, ok, err, panic}

-- `is_ok()`, `is_err()`, and `#[should_panic]`.
module _ {ℓ} {A : Type ℓ} where
  abbrev pub is_ok : Result A → Bool
  is_ok (ok a) = true
  is_ok (err e) = false
  is_ok panic = false

  abbrev pub is_err : Result A → Bool
  is_err (ok a) = false
  is_err (err e) = true
  is_err panic = false

  abbrev pub panics : Result A → Bool
  panics (ok a) = false
  panics (err e) = false
  panics panic = true
