-- ===== src/Transaction/RoundTrip.antt =====
-- Transactions and their bytes, in both directions.
use avicoin.Prelude.{◌^◌, ◌<◌, ◌≡◌, refl, ap, ◌∙◌, ◌++◌, arith, length}
use avicoin.Outcome.{ok}
use avicoin.Words.{Bytes}
use avicoin.Reader.{new}
use avicoin.Reader.Take.{new-IsValid}
use avicoin.Transaction.{Transaction, IsTransaction, get_raw_format, parse_raw}
use avicoin.Transaction.Format.{Reads-parse_raw}

-- Parsing the bytes of a transaction gives the transaction back, and leaves the cursor right behind
-- them, whatever follows.
pub parse_raw-get_raw_format :
    (tx : Transaction) (rest : Bytes)
    → IsTransaction tx
    → length (get_raw_format tx ++ rest) < 2 ^ 64
    → parse_raw (new (get_raw_format tx ++ rest))
      ≡ (ok tx, record { bytes = get_raw_format tx ++ rest; position = length (get_raw_format tx) })
unfolding new
parse_raw-get_raw_format tx rest h fits =
    Reads-parse_raw tx h (new (get_raw_format tx ++ rest)) rest (new-IsValid _ fits) refl
    ∙ ap (λ p. (ok tx, record { bytes = get_raw_format tx ++ rest; position = p })) (omega arith)

-- No transaction's bytes begin those of another: where the bytes of two transactions, each with
-- something behind them, are the same, the transactions are.
pub get_raw_format-prefix_free :
    (tx tx' : Transaction) (xs ys : Bytes)
    → IsTransaction tx
    → IsTransaction tx'
    → length (get_raw_format tx ++ xs) < 2 ^ 64
    → get_raw_format tx ++ xs ≡ get_raw_format tx' ++ ys
    → tx ≡ tx'
get_raw_format-prefix_free tx tx' xs ys h h' fits e = cc (
  ap (λ q. q.0) (parse_raw-get_raw_format tx xs h fits),
  ap (λ q. q.0) (parse_raw-get_raw_format tx' ys h' (rw (← e) fits)),
  ap (λ bs. (parse_raw (new bs)).0) e,
)
