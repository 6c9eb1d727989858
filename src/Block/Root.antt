-- ===== src/Block/Root.antt =====
-- The root that a block asks for.
use avicoin.Prelude.{◌≡◌, ap, Option, none, some, List, [], ◌∷◌, map, All}
use avicoin.Outcome.{ok, err, ok_or, no_transaction}
use avicoin.Words.{Bytes, IsArray}
use avicoin.Util.{Sha256, get_hash-IsArray}
use avicoin.Merkle.{merkle_root}
use avicoin.Merkle.Shape.{merkle_root-IsArray}
use avicoin.Transaction.{Transaction, get_tx_id}
use avicoin.Block.{Block, get_merkle_root_hash}

module _ (sha : Sha256) where
  ids-IsArray : (txs : List Transaction) → All (IsArray 32) (map (get_tx_id sha) txs)
  unfolding get_tx_id
  ids-IsArray [] = tt
  ids-IsArray (tx ∷ txs) = (get_hash-IsArray sha _, ids-IsArray txs)

  ok_or-eq-ok {ℓ} : {A : Type ℓ} (o : Option A) {a : A} → ok_or o no_transaction ≡ ok a → o ≡ some a
  ok_or-eq-ok none e = cc
  ok_or-eq-ok (some a) e = cc

  pub get_merkle_root_hash-IsArray :
      (b : Block) (root : Bytes) → get_merkle_root_hash sha b ≡ ok root → IsArray 32 root
  unfolding get_merkle_root_hash
  get_merkle_root_hash-IsArray b root e =
      merkle_root-IsArray sha _ root (ids-IsArray b.transactions) (ok_or-eq-ok _ e)

  pub get_merkle_root_hash_empty :
      (b : Block) → b.transactions ≡ [] → get_merkle_root_hash sha b ≡ err no_transaction
  unfolding get_merkle_root_hash merkle_root
  get_merkle_root_hash_empty b e =
      ap (λ txs. ok_or (merkle_root sha (map (get_tx_id sha) txs)) no_transaction) e
