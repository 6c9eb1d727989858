-- ===== src/UnitTests/Wallet.antt =====
-- The tests of src/wallet.rs, whatever keys the generator gives, in a build with overflow checks.
use avicoin.Prelude.{ℕ, ◌≡◌, refl, true, [], ◌∷◌, codes}
use avicoin.Outcome.{ok, err, insufficient_funds, ◌>>=◌}
use avicoin.Words.{Bytes}
use avicoin.UnitTests.{is_ok}
use avicoin.Wallet.{Secp256k1, new_wallet, send}

abbrev destination : Bytes
destination = codes "destination_address_123"

abbrev TestSendCreatesValidTransaction : Secp256k1 → ℕ → Type 0
TestSendCreatesValidTransaction secp seed =
    let result = send secp true (new_wallet secp seed) 5000 100 destination in
    (is_ok result ≡ true)
    × ((do tx ← result; ok tx.version) ≡ ok 1)
    × ((do tx ← result; ok tx.outputs)
        ≡ ok (record { value = 5000; destiny_pub_key = destination } ∷ []))

abbrev TestSendFailsWithInsufficientFunds : Secp256k1 → ℕ → Type 0
TestSendFailsWithInsufficientFunds secp seed =
    send secp true (new_wallet secp seed) 9000000 1000001 destination ≡ err insufficient_funds

-- They pass.
wallet_tests_pass :
    (secp : Secp256k1) (seed : ℕ)
    → TestSendCreatesValidTransaction secp seed × TestSendFailsWithInsufficientFunds secp seed
unfolding new_wallet send
wallet_tests_pass secp seed = ((refl, refl, refl), refl)
