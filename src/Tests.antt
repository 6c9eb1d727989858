-- ===== src/Tests.antt =====
-- Concrete data for the theorems: a hash, 256-bit words, a transaction and a block.
mod Wire
mod Chain
mod Peers
mod Start
mod System
mod Loops
mod Accepted
use avicoin.Prelude.{
  ℕ, zero, suc, ◌*◌, ◌%◌, ◌^◌, ◌<◌, ◌≡◌, refl, Bool, true, false, ◌&&◌, none, some, List, [], ◌∷◌,
  arith, ltb, length, replicate, All,
}
use avicoin.Prelude.Int.{ℤ}
use avicoin.Words.{Bytes, IsByte, from_le_bytes}
use avicoin.Text.{is_ascii, is_utf8, is_ascii→is_utf8}
use avicoin.Util.{Sha256}
use avicoin.Transaction.{Transaction, IsTransaction, IsString}
use avicoin.Block.{U256Crate, Block, IsBlock}

pub zeros-IsByte : (n : ℕ) → All IsByte (replicate n 0)
zeros-IsByte zero = tt
zeros-IsByte (suc n) = (omega arith, zeros-IsByte n)

-- A hash of 32 zeros for everything.
abbrev pub zero_sha : Sha256
zero_sha = record { digest = λ bs. replicate 32 0; digest-IsArray = λ bs. (refl, zeros-IsByte 32) }

abbrev pub number_crate : U256Crate
number_crate = record {
  U256 = ℕ;
  from = λ n. n;
  shl = λ u k. u * 2 ^ k % 2 ^ 256;
  from_little_endian = from_le_bytes;
  lt = ltb;
  value = λ u. u;
  value-from = λ n h. refl;
  value-shl = λ u k. refl;
  value-from_little_endian = λ bs h. refl;
  lt-value = λ u v. refl;
}

abbrev pub payment : Transaction
payment = record {
  version = 1;
  inputs =
      record {
        previous_output = record { tx_id = replicate 32 0; v_out = 0 };
        signature = 104 ∷ 105 ∷ [];
        sequence = 0xffff_ffff;
      }
      ∷ [];
  outputs = record { value = 5; destiny_pub_key = 97 ∷ [] } ∷ [];
  lock_time = 0;
}

pub payment-IsTransaction : IsTransaction payment
unfolding is_ascii
payment-IsTransaction = record {
  version = omega arith;
  inputs = (
    record {
      tx_id = (refl, zeros-IsByte 32);
      v_out = omega arith;
      signature = record { utf8 = is_ascii→is_utf8 (104 ∷ 105 ∷ []) refl; fits = omega arith };
      sequence = omega arith;
    },
    tt,
  );
  outputs = (
    record {
      value = omega arith;
      destiny_pub_key = record { utf8 = is_ascii→is_utf8 (97 ∷ []) refl; fits = omega arith };
    },
    tt,
  );
  lock_time = omega arith;
  inputs_fit = omega arith;
  outputs_fit = omega arith;
}

abbrev pub candidate : Block
candidate = record {
  version = ℤ.pos 1;
  previous_block_hash = replicate 32 0;
  merkle_root_hash = some (replicate 32 0);
  time = 1;
  n_bits = 0x0100_0001;
  nonce = 0;
  hash = none;
  mine_array = replicate 80 0;
  transactions = payment ∷ [];
}

pub candidate-IsBlock : IsBlock candidate
candidate-IsBlock = record {
  version = omega arith;
  previous_block_hash = (refl, zeros-IsByte 32);
  merkle_root_hash = (refl, zeros-IsByte 32);
  time = omega arith;
  n_bits = omega arith;
  nonce = omega arith;
  mine_array = refl;
  transactions = (payment-IsTransaction, tt);
  transactions_fit = omega arith;
}

abbrev all_small : Bytes → Bool
all_small [] = true
all_small (b ∷ bs) = ltb b 256 && all_small bs

pub are_bytes : (bs : Bytes) → all_small bs ≡ true → All IsByte bs
are_bytes [] e = tt
are_bytes (b ∷ bs) e = ground (arith, are_bytes bs)
