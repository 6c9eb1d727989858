-- ===== src/Wallet.antt =====
-- src/wallet.rs: a payment from the wallet. The `secp256k1` crate is a parameter.
pub mod Funds
use avicoin.Prelude.{
  ℕ, ◌+◌, ◌%◌, ◌^◌, Bool, true, false, List, [], ◌∷◌, ltb, replicate, map, if◌then◌else◌,
}
use avicoin.Outcome.{Result, ok, err, panic, ◌>>=◌, ◌>>◌, refuse_if, insufficient_funds}
use avicoin.Words.{Bytes}
use avicoin.Transaction.{Outpoint, TxIn, Transaction}

-- Keys, and the text of the signature of a digest.
pub record Secp256k1 : Type 1 where
  pub SecretKey : Type 0
  pub PublicKey : Type 0
  pub generate_keypair : ℕ → SecretKey × PublicKey
  pub sign_ecdsa : Bytes → SecretKey → Bytes

-- A sum of `u64` in a build with overflow checks, which panics, and in one without, which wraps.
abbrev pub add_u64 : Bool → ℕ → ℕ → Result ℕ
add_u64 overflow_checks a b =
    if ltb (a + b) (2 ^ 64)
    then ok (a + b)
    else if overflow_checks
    then panic
    else ok ((a + b) % 2 ^ 64)

abbrev pub get_available_balance : ℕ
get_available_balance = 10000000

abbrev pub get_outpoints : List Outpoint
get_outpoints = record { tx_id = replicate 32 0; v_out = 0 } ∷ []

module _ (secp : Secp256k1) where
  open secp use {SecretKey, PublicKey, generate_keypair, sign_ecdsa}

  pub record Wallet : Type 0 where
    pub private_key : SecretKey
    pub public_key : PublicKey

  -- `seed` stands for the random generator.
  unfoldable pub new_wallet : ℕ → Wallet
  new_wallet seed =
      let (private_key, public_key) = generate_keypair seed in
      record { private_key = private_key; public_key = public_key }

  abbrev pub signed_input : Wallet → Outpoint → TxIn
  signed_input self outpoint = record {
    previous_output = outpoint;
    signature = sign_ecdsa outpoint.tx_id self.private_key;
    sequence = 0xffff_ffff;
  }

  unfoldable pub send : Bool → Wallet → ℕ → ℕ → Bytes → Result Transaction
  send overflow_checks self amount fee destination_address = do
    total ← add_u64 overflow_checks amount fee
    refuse_if (ltb get_available_balance total) insufficient_funds
    ok (record {
      version = 1;
      inputs = map (signed_input self) get_outpoints;
      outputs = record { value = amount; destiny_pub_key = destination_address } ∷ [];
      lock_time = 0;
    })
