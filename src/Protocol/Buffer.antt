-- ===== src/Protocol/Buffer.antt =====
-- The receive loop: it has fuel enough, it keeps the buffer small, and the chunks in which bytes arrive
-- do not matter.
pub mod Left
pub mod Keeps
use avicoin.Prelude.{
  ℕ, zero, suc, ◌+◌, ◌≤◌, ◌<◌, ◌≡◌, ◌≢◌, inl, inr, refl, sym, ap, subst, ◌∙◌, Option, none, some,
  ◌++◌, arith, length, drop, length-drop, length-append, drop-append_of_le, append_assoc,
}
use avicoin.Outcome.{Result, ok, err, panic, Result-cases}
use avicoin.Words.{Bytes}
use avicoin.Util.{Sha256}
use avicoin.Messages.Frame.{header_length, max_payload_size}
use avicoin.Messages.{MessageReceived, try_parse_message}
use avicoin.Messages.Stream.{
  Parsed, waits, takes, try_parse_message-append, try_parse_message-Parsed,
}
use avicoin.Protocol.{Drained, handled, turn, continued, drain, process_incoming_bytes}

module _ {S : Type 0} (sha : Sha256) (handle : MessageReceived → S → Result (Unit {0}) × S) where
  abbrev Agree : Option (Drained S) → Option (Drained S) → Type 0
  Agree o o' = (d : Drained S) × (o ≡ some d) × (o' ≡ some d)

  handled-Agree :
      (next next' : Bytes → S → Option (Drained S)) (rest : Bytes) (q : Result (Unit {0}) × S)
      → ((s : S) → Agree (next rest s) (next' rest s))
      → Agree (handled sha handle next rest q) (handled sha handle next' rest q)
  handled-Agree next next' rest (ok _, s) h = h s
  handled-Agree next next' rest (err e, s) h = ((err e, rest, s), refl, refl)
  handled-Agree next next' rest (panic, s) h = ((panic, rest, s), refl, refl)

  turn-Agree :
      (next next' : Bytes → S → Option (Drained S)) (buffer : Bytes) (s : S)
      (r : Result (Option MessageReceived × ℕ))
      → ((m : MessageReceived) (n : ℕ)
          → r ≡ ok (some m, n)
          → (s' : S) → Agree (next (drop n buffer) s') (next' (drop n buffer) s'))
      → Agree (turn sha handle next buffer s r) (turn sha handle next' buffer s r)
  turn-Agree next next' buffer s (ok (none, n)) h = ((ok tt, buffer, s), refl, refl)
  turn-Agree next next' buffer s (ok (some m, n)) h =
      handled-Agree next next' (drop n buffer) (handle m s) (h m n refl)
  turn-Agree next next' buffer s (err e) h = ((err e, buffer, s), refl, refl)
  turn-Agree next next' buffer s panic h = ((panic, buffer, s), refl, refl)

  -- A message that was taken is 24 bytes of the buffer at least.
  taken_bytes :
      (buffer : Bytes) (m : MessageReceived) (n : ℕ)
      → try_parse_message sha buffer ≡ ok (some m, n)
      → (24 ≤ n) × (n ≤ length buffer)
  taken_bytes buffer m n e = elim (try_parse_message-Parsed sha buffer (some m) n e) [
    | takes m' n' low high within ↦ (low, within)
  ]

  -- More fuel than the buffer has bytes: the loop ends, with one result whatever the fuel.
  drain_enough :
      (fuel fuel' : ℕ) (buffer : Bytes) (s : S)
      → length buffer < fuel
      → length buffer < fuel'
      → Agree (drain sha handle fuel buffer s) (drain sha handle fuel' buffer s)
  unfolding drain
  drain_enough zero fuel' buffer s h h' = absurd (omega arith)
  drain_enough (suc fuel) zero buffer s h h' = absurd (omega arith)
  drain_enough (suc fuel) (suc fuel') buffer s h h' =
      turn-Agree (drain sha handle fuel) (drain sha handle fuel') buffer s
        (try_parse_message sha buffer)
        (λ m n e s'.
          drain_enough fuel fuel' (drop n buffer) s'
            (omega (arith, length-drop n buffer, taken_bytes buffer m n e))
            (omega (arith, length-drop n buffer, taken_bytes buffer m n e)))

  -- The loop of `process_incoming_bytes` always ends: with a result, the bytes left over and a state.
  pub process_incoming_bytes-ends :
      (recv_buffer buffer : Bytes) (s : S)
      → (d : Drained S) × (process_incoming_bytes sha handle recv_buffer s buffer ≡ some d)
  unfolding process_incoming_bytes
  process_incoming_bytes-ends recv_buffer buffer s =
      let (d, e, e') =
        drain_enough (suc (length (recv_buffer ++ buffer))) (suc (length (recv_buffer ++ buffer)))
          (recv_buffer ++ buffer) s (omega arith) (omega arith) in
      (d, e)

  handled-continued :
      (next next' : Bytes → S → Option (Drained S)) (rest more : Bytes) (q : Result (Unit {0}) × S)
      → ((s : S) → next' (rest ++ more) s ≡ continued sha handle (next rest s) more)
      → handled sha handle next' (rest ++ more) q
        ≡ continued sha handle (handled sha handle next rest q) more
  handled-continued next next' rest more (ok _, s) h = h s
  handled-continued next next' rest more (err e, s) h = refl
  handled-continued next next' rest more (panic, s) h = refl

  drain-step :
      (fuel : ℕ) (buffer : Bytes) (s : S) (r : Result (Option MessageReceived × ℕ))
      → try_parse_message sha buffer ≡ r
      → drain sha handle (suc fuel) buffer s ≡ turn sha handle (drain sha handle fuel) buffer s r
  unfolding drain
  drain-step fuel buffer s r e = ap (turn sha handle (drain sha handle fuel) buffer s) e

  -- A decision of the parser stands when more bytes arrive.
  decided :
      (buffer more : Bytes) (r : Result (Option MessageReceived × ℕ))
      → try_parse_message sha buffer ≡ r
      → r ≢ ok (none, 0)
      → try_parse_message sha (buffer ++ more) ≡ r
  decided buffer more r e ne = try_parse_message-append sha buffer more (λ w. ne (sym e ∙ w)) ∙ e

  drain-continued :
      (fuel fuel' : ℕ) (buffer more : Bytes) (s : S)
      → length buffer < fuel
      → length (buffer ++ more) < fuel'
      → drain sha handle fuel' (buffer ++ more) s
        ≡ continued sha handle (drain sha handle fuel buffer s) more
  unfolding process_incoming_bytes
  drain-continued zero fuel' buffer more s h h' = absurd (omega arith)
  drain-continued (suc fuel) zero buffer more s h h' = absurd (omega arith)
  drain-continued (suc fuel) (suc fuel') buffer more s h h' =
      elim (Result-cases (try_parse_message sha buffer)) [
        | inl ((none, n), e) ↦
            let (d, e1, e2) =
              drain_enough (suc fuel') (suc (length (buffer ++ more))) (buffer ++ more) s h'
                (omega arith) in
            e1
            ∙ sym e2
            ∙ ap (λ o. continued sha handle o more)
                (sym (drain-step fuel buffer s (ok (none, n)) e))
        | inl ((some m, n), e) ↦
            let within = taken_bytes buffer m n e in
            drain-step fuel' (buffer ++ more) s _ (decided buffer more (ok (some m, n)) e (λ w. cc))
            ∙ ap (λ rest. handled sha handle (drain sha handle fuel') rest (handle m s))
                (drop-append_of_le n buffer more within.1)
            ∙ handled-continued (drain sha handle fuel) (drain sha handle fuel') (drop n buffer)
                more (handle m s)
                (λ s'.
                  drain-continued fuel fuel' (drop n buffer) more s'
                    (omega (arith, length-drop n buffer, within))
                    (omega (
                      arith,
                      length-append (drop n buffer) more,
                      length-append buffer more,
                      length-drop n buffer,
                      within,
                    )))
            ∙ ap (λ o. continued sha handle o more)
                (sym (drain-step fuel buffer s (ok (some m, n)) e))
        | inr (inl (x, e)) ↦
            drain-step fuel' (buffer ++ more) s _ (decided buffer more (err x) e (λ w. cc))
            ∙ ap (λ o. continued sha handle o more) (sym (drain-step fuel buffer s (err x) e))
        | inr (inr e) ↦
            drain-step fuel' (buffer ++ more) s _ (decided buffer more panic e (λ w. cc))
            ∙ ap (λ o. continued sha handle o more) (sym (drain-step fuel buffer s panic e))
      ]

  -- The chunks in which bytes arrive do not matter: two chunks in one go are the first chunk, and
  -- then, where that ended well, the second on what the first left. Where the first failed, its
  -- failure and its state stand.
  pub process_incoming_bytes-append :
      (recv_buffer chunk more : Bytes) (s : S)
      → process_incoming_bytes sha handle recv_buffer s (chunk ++ more)
        ≡ continued sha handle (process_incoming_bytes sha handle recv_buffer s chunk) more
  unfolding process_incoming_bytes
  process_incoming_bytes-append recv_buffer chunk more s =
      ap (λ bs. drain sha handle (suc (length bs)) bs s) (sym (append_assoc recv_buffer chunk more))
      ∙ drain-continued (suc (length (recv_buffer ++ chunk)))
          (suc (length ((recv_buffer ++ chunk) ++ more))) (recv_buffer ++ chunk) more s
          (omega arith) (omega arith)
