-- ===== src/Protocol/Buffer/Keeps.antt =====
-- What a handler keeps, the receive loop keeps.
use avicoin.Prelude.{ℕ, zero, suc, ◌++◌, Option, none, some, length, drop}
use avicoin.Outcome.{Result, ok, err, panic}
use avicoin.Words.{Bytes}
use avicoin.Util.{Sha256}
use avicoin.Messages.{MessageReceived, try_parse_message}
use avicoin.Protocol.{Drained, handled, turn, drain, process_incoming_bytes}

-- A predicate on the state that a loop has left, where it has ended.
abbrev pub Holds : {S : Type 0} → (S → Type 0) → Option (Drained S) → Type 0
Holds P none = Unit {0}
Holds P (some (result, buffer, s)) = P s

module _ {S : Type 0} (sha : Sha256) (handle : MessageReceived → S → Result (Unit {0}) × S)
    (P : S → Type 0) (keeps : (m : MessageReceived) (s : S) → P s → P (handle m s).1) where
  handled-Holds :
      (next : Bytes → S → Option (Drained S)) (rest : Bytes) (q : Result (Unit {0}) × S)
      → P q.1
      → ((s : S) → P s → Holds P (next rest s))
      → Holds P (handled sha handle next rest q)
  handled-Holds next rest (ok _, s) p h = h s p
  handled-Holds next rest (err e, s) p h = p
  handled-Holds next rest (panic, s) p h = p

  turn-Holds :
      (next : Bytes → S → Option (Drained S)) (buffer : Bytes) (s : S)
      (r : Result (Option MessageReceived × ℕ))
      → P s
      → ((rest : Bytes) (s : S) → P s → Holds P (next rest s))
      → Holds P (turn sha handle next buffer s r)
  turn-Holds next buffer s (ok (none, n)) p h = p
  turn-Holds next buffer s (ok (some m, n)) p h =
      handled-Holds next (drop n buffer) (handle m s) (keeps m s p) (h (drop n buffer))
  turn-Holds next buffer s (err e) p h = p
  turn-Holds next buffer s panic p h = p

  drain-Holds : (fuel : ℕ) (buffer : Bytes) (s : S) → P s → Holds P (drain sha handle fuel buffer s)
  unfolding drain
  drain-Holds zero buffer s p = tt
  drain-Holds (suc fuel) buffer s p =
      turn-Holds (drain sha handle fuel) buffer s (try_parse_message sha buffer) p
        (drain-Holds fuel)

  pub process_incoming_bytes-Holds :
      (recv_buffer : Bytes) (s : S) (buffer : Bytes)
      → P s
      → Holds P (process_incoming_bytes sha handle recv_buffer s buffer)
  unfolding process_incoming_bytes
  process_incoming_bytes-Holds recv_buffer s buffer p =
      drain-Holds (suc (length (recv_buffer ++ buffer))) (recv_buffer ++ buffer) s p
