-- ===== src/Wallet/Funds.antt =====
-- What a payment checks.
use avicoin.Prelude.{
  ℕ, ◌+◌, ◌^◌, ◌≤◌, ◌<◌, ◌-◌, arith, ◌≡◌, refl, true, false, [], ◌∷◌, map, ltb, Bool-cases, inl,
  inr, ltb→le,
}
use avicoin.Outcome.{ok, panic}
use avicoin.Words.{Bytes}
use avicoin.Transaction.{Transaction}
use avicoin.Wallet.{Secp256k1, Wallet, get_available_balance, get_outpoints, signed_input, send}

module _ (secp : Secp256k1) where
  -- The transaction of a payment.
  abbrev payment_of : Wallet secp → ℕ → Bytes → Transaction
  payment_of self amount destination = record {
    version = 1;
    inputs = map (signed_input secp self) get_outpoints;
    outputs = record { value = amount; destiny_pub_key = destination } ∷ [];
    lock_time = 0;
  }

  -- In a build without overflow checks any amount, however far it is beyond the balance, is paid for
  -- some fee; with that fee a build with overflow checks panics.
  pub send_overspends :
      (self : Wallet secp) (amount : ℕ) (destination : Bytes)
      → get_available_balance < amount
      → amount < 2 ^ 64
      → (fee : ℕ) × (fee < 2 ^ 64)
        × (tx : Transaction) × (send secp false self amount fee destination ≡ ok tx)
        × (tx.outputs ≡ record { value = amount; destiny_pub_key = destination } ∷ [])
        × (send secp true self amount fee destination ≡ panic)
  unfolding send
  send_overspends self amount destination beyond fits =
      let fee : ℕ = 2 ^ 64 - amount in
      let total : amount + fee ≡ 2 ^ 64 = omega (arith, fits) in
      (fee, omega arith, payment_of self amount destination, rw (total) refl, refl, rw (total) refl)

  -- In a build with overflow checks a payment that is made is one that the balance covers, fee included.
  pub send-covered :
      (self : Wallet secp) (amount fee : ℕ) (destination : Bytes) (tx : Transaction)
      → send secp true self amount fee destination ≡ ok tx
      → amount + fee ≤ get_available_balance
  unfolding send
  send-covered self amount fee destination tx e = elim (Bool-cases (ltb (amount + fee) (2 ^ 64))) [
    | inl fits ↦ elim (Bool-cases (ltb get_available_balance (amount + fee))) [
      | inl short ↦ cc (rw (fits, short) at e)
      | inr enough ↦ ltb→le get_available_balance (amount + fee) enough
    ]
    | inr over ↦ cc (rw (over) at e)
  ]
