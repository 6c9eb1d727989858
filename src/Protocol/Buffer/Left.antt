-- ===== src/Protocol/Buffer/Left.antt =====
-- What a receive loop that ended has left over.
use avicoin.Prelude.{
  ℕ, zero, suc, ◌+◌, ◌<◌, ◌≡◌, refl, subst, Option, none, some, ◌++◌, length, drop,
}
use avicoin.Outcome.{Result, ok, err, panic}
use avicoin.Words.{Bytes}
use avicoin.Util.{Sha256}
use avicoin.Messages.Frame.{header_length, max_payload_size}
use avicoin.Messages.{MessageReceived, try_parse_message}
use avicoin.Messages.Stream.{Parsed, waits, takes, try_parse_message-Parsed}
use avicoin.Protocol.{Drained, handled, turn, drain, process_incoming_bytes}

short_of :
    {buffer : Bytes} {m : Option MessageReceived} {n : ℕ}
    → Parsed buffer m n
    → m ≡ none
    → length buffer < header_length + max_payload_size
short_of (waits short) e = short
short_of (takes m n low high within) e = cc

module _ {S : Type 0} (sha : Sha256) (handle : MessageReceived → S → Result (Unit {0}) × S) where
  abbrev Settled : Option (Drained S) → Type 0
  Settled none = Unit {0}
  Settled (some (ok _, buffer, s)) = length buffer < header_length + max_payload_size
  Settled (some (err e, buffer, s)) = Unit {0}
  Settled (some (panic, buffer, s)) = Unit {0}

  handled-Settled :
      (next : Bytes → S → Option (Drained S)) (rest : Bytes) (q : Result (Unit {0}) × S)
      → ((s : S) → Settled (next rest s))
      → Settled (handled sha handle next rest q)
  handled-Settled next rest (ok _, s) h = h s
  handled-Settled next rest (err e, s) h = tt
  handled-Settled next rest (panic, s) h = tt

  turn-Settled :
      (next : Bytes → S → Option (Drained S)) (buffer : Bytes) (s : S)
      (r : Result (Option MessageReceived × ℕ))
      → try_parse_message sha buffer ≡ r
      → ((rest : Bytes) (s' : S) → Settled (next rest s'))
      → Settled (turn sha handle next buffer s r)
  turn-Settled next buffer s (ok (none, n)) e h =
      short_of (try_parse_message-Parsed sha buffer none n e) refl
  turn-Settled next buffer s (ok (some m, n)) e h =
      handled-Settled next (drop n buffer) (handle m s) (h (drop n buffer))
  turn-Settled next buffer s (err x) e h = tt
  turn-Settled next buffer s panic e h = tt

  drain-Settled : (fuel : ℕ) (buffer : Bytes) (s : S) → Settled (drain sha handle fuel buffer s)
  unfolding drain
  drain-Settled zero buffer s = tt
  drain-Settled (suc fuel) buffer s =
      turn-Settled (drain sha handle fuel) buffer s (try_parse_message sha buffer) refl
        (drain-Settled fuel)

  -- A connection that goes on holds less than one longest message, whatever its peer sends.
  pub process_incoming_bytes-bounded :
      (recv_buffer buffer left : Bytes) (s s' : S)
      → process_incoming_bytes sha handle recv_buffer s buffer ≡ some (ok tt, left, s')
      → length left < header_length + max_payload_size
  unfolding process_incoming_bytes
  process_incoming_bytes-bounded recv_buffer buffer left s s' e =
      subst Settled e
        (drain-Settled (suc (length (recv_buffer ++ buffer))) (recv_buffer ++ buffer) s)
