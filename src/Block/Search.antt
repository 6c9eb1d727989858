-- ===== src/Block/Search.antt =====
-- `search_nonce`: the first nonce that wins, or that none does.
use avicoin.Prelude.{
  ℕ, zero, suc, ◌+◌, ◌≤◌, ◌<◌, ◌≡◌, ◌⊎◌, inl, inr, refl, ap, ◌∙◌, subst, Bool, true, false, some,
  ◌++◌, arith, length, Bool-cases, length-drop, append-nil, nil_of_length,
}
use avicoin.Words.{Bytes, to_le_bytes, length-to_le_bytes}
use native.Mathlib.Decide.{dec_lt}
use avicoin.Util.{Sha256, get_hash}
use avicoin.Block.{Block, U256Crate, write_at, wins, search_nonce}
use avicoin.Block.Header.{write_at-append}

module _ (sha : Sha256) (crate : U256Crate) where
  open crate use {U256}

  module _ (target : U256) (front : Bytes) (at76 : length front ≡ 76) where
    abbrev pub attempt : ℕ → Bool
    attempt nonce = wins sha crate target (front ++ to_le_bytes 4 nonce)

    write_nonce :
        (nonce : ℕ) (old array : Bytes)
        → length old ≡ 4
        → array ≡ front ++ old
        → write_at 76 (to_le_bytes 4 nonce) array ≡ front ++ to_le_bytes 4 nonce
    write_nonce nonce old array len e =
        write_at-append 76 front (to_le_bytes 4 nonce) old array at76 e
        ∙ ap (λ t. (front ++ to_le_bytes 4 nonce) ++ t)
            (nil_of_length _ (simp length-drop (omega (arith, length-to_le_bytes))))
        ∙ append-nil (front ++ to_le_bytes 4 nonce)

    -- The first nonce that wins, and the block with it.
    pub record Found (left nonce : ℕ) (b : Block) (r : Bool × Block) : Type 0 where
      pub at : ℕ
      pub from : nonce ≤ at
      pub below : at < nonce + left
      pub winning : attempt at ≡ true
      pub first : (j : ℕ) → nonce ≤ j → j < at → attempt j ≡ false
      pub result : r ≡ (
        true,
        record b {
          nonce = at;
          hash = some (get_hash sha (front ++ to_le_bytes 4 at));
          mine_array = front ++ to_le_bytes 4 at;
        },
      )

    pub record Missed (left nonce : ℕ) (b : Block) (r : Bool × Block) : Type 0 where
      pub losing : (j : ℕ) → nonce ≤ j → j < nonce + left → attempt j ≡ false
      pub rest : Bytes
      pub result : r ≡ (false, record b { mine_array = front ++ rest })

    Found-later :
        (left nonce : ℕ) (b : Block) (array : Bytes) (r : Bool × Block)
        → attempt nonce ≡ false
        → Found left (nonce + 1) (record b { mine_array = array }) r
        → Found (suc left) nonce b r
    Found-later left nonce b array r lost f = record {
      at = f.at;
      from = omega (arith, f.from);
      below = omega (arith, f.below);
      winning = f.winning;
      first = λ j lo hi. elim (dec_lt nonce j) [
        | yes later ↦ f.first j (omega arith) hi
        | no here ↦ subst (λ n. attempt n ≡ false) (omega arith) lost
      ];
      result = f.result;
    }

    Missed-later :
        (left nonce : ℕ) (b : Block) (array : Bytes) (r : Bool × Block)
        → attempt nonce ≡ false
        → Missed left (nonce + 1) (record b { mine_array = array }) r
        → Missed (suc left) nonce b r
    Missed-later left nonce b array r lost m = record {
      losing = λ j lo hi. elim (dec_lt nonce j) [
        | yes later ↦ m.losing j (omega arith) (omega arith)
        | no here ↦ subst (λ n. attempt n ≡ false) (omega arith) lost
      ];
      rest = m.rest;
      result = m.result;
    }

    search_nonce_win :
        (left nonce : ℕ) (b : Block)
        → write_at 76 (to_le_bytes 4 nonce) b.mine_array ≡ front ++ to_le_bytes 4 nonce
        → attempt nonce ≡ true
        → search_nonce sha crate (suc left) nonce target b ≡ (
          true,
          record b {
            nonce = nonce;
            hash = some (get_hash sha (front ++ to_le_bytes 4 nonce));
            mine_array = front ++ to_le_bytes 4 nonce;
          },
        )
    unfolding search_nonce
    search_nonce_win left nonce b e won =
        rw (ap (wins sha crate target) e ∙ won, search_nonce) (rw e)

    search_nonce_lose :
        (left nonce : ℕ) (b : Block)
        → write_at 76 (to_le_bytes 4 nonce) b.mine_array ≡ front ++ to_le_bytes 4 nonce
        → attempt nonce ≡ false
        → search_nonce sha crate (suc left) nonce target b
          ≡ search_nonce sha crate left
              (nonce + 1)
              target
              (record b { mine_array = front ++ to_le_bytes 4 nonce })
    unfolding search_nonce
    search_nonce_lose left nonce b e lost =
        rw (ap (wins sha crate target) e ∙ lost, search_nonce) (rw e)

    pub search_nonce_cases :
        (left nonce : ℕ) (b : Block) (old : Bytes)
        → length old ≡ 4
        → b.mine_array ≡ front ++ old
        → Found left nonce b (search_nonce sha crate left nonce target b)
          ⊎ Missed left nonce b (search_nonce sha crate left nonce target b)
    search_nonce_cases zero nonce b old len e = inr (record {
      losing = λ j lo hi. absurd (omega arith);
      rest = old;
      result = unfold search_nonce in ap (λ a. (false, record b { mine_array = a })) e;
    })
    search_nonce_cases (suc left) nonce b old len e =
        let array : Bytes = front ++ to_le_bytes 4 nonce in
        let written = write_nonce nonce old b.mine_array len e in
        elim (Bool-cases (attempt nonce)) [
          | inl won ↦ inl (record {
            at = nonce;
            from = omega arith;
            below = omega arith;
            winning = won;
            first = λ j lo hi. absurd (omega arith);
            result = search_nonce_win left nonce b written won;
          })
          | inr lost ↦
              rw (search_nonce_lose left nonce b written lost)
                (elim (search_nonce_cases left (nonce + 1) (record b { mine_array = array })
                  (to_le_bytes 4 nonce) (length-to_le_bytes 4 nonce) refl) [
                    | inl f ↦ inl (Found-later left nonce b array _ lost f)
                    | inr m ↦ inr (Missed-later left nonce b array _ lost m)
                  ])
        ]
