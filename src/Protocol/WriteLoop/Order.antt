-- ===== src/Protocol/WriteLoop/Order.antt =====
-- What the write loop writes, and in which order.
use avicoin.Prelude.{
  ℕ, ◌+◌, ◌*◌, ◌≤◌, ◌≡◌, refl, ap, sym, Bool-cases, leb, some, List, [], ◌∷◌, arith, length, All,
  inl, inr,
}
use avicoin.Outcome.{Result, ok, err, panic, >>=-succeeds}
use avicoin.Words.{Bytes}
use avicoin.Util.{Sha256}
use avicoin.Messages.Kinds.{new_ping, Ping-Payload}
use avicoin.Messages.{framed}
use avicoin.Protocol.WriteLoop.{
  Received, queued, timeout, disconnected, WriteTurn, Writing, write_received, write_ping,
  ping_bytes, write_turns, write_loop,
}

-- What the turns take off the queue, until it is disconnected.
abbrev pub take_next : Received → List Bytes → List Bytes
take_next (queued bytes) taken = bytes ∷ taken
take_next timeout taken = taken
take_next disconnected taken = []

abbrev pub taken_by : List WriteTurn → List Bytes
taken_by [] = []
taken_by (t ∷ turns) = take_next t.received (taken_by turns)

-- `out` has the elements of both lists, each list in its own order.
pub data Merges : List Bytes → List Bytes → List Bytes → Type 0 where
  neither : Merges [] [] []
  from_left : {x : Bytes} {xs ys out : List Bytes} → Merges xs ys out → Merges (x ∷ xs) ys (x ∷ out)
  from_right :
      {y : Bytes} {xs ys out : List Bytes} → Merges xs ys out → Merges xs (y ∷ ys) (y ∷ out)

abbrev pub IsPing : Sha256 → Bytes → Type 0
IsPing sha bytes = (random : ℕ) × (framed sha (new_ping random) ≡ ok bytes)

-- The clock does not go back between `now` and `end`.
abbrev pub Ticks : ℕ → List WriteTurn → ℕ → Type 0
Ticks now [] end = now ≤ end
Ticks now (t ∷ turns) end = (now ≤ t.now) × (t.now ≤ t.pinged_at) × Ticks t.pinged_at turns end

pub Ticks-le : (now : ℕ) (turns : List WriteTurn) (end : ℕ) → Ticks now turns end → now ≤ end
Ticks-le now [] end h = h
Ticks-le now (t ∷ turns) end h = omega (arith, Ticks-le t.pinged_at turns end h.2)

-- What was written is the messages `taken` and pings, no more of these than one for each interval that
-- ended, counted from `next_ping`.
pub record Written (sha : Sha256) (ping_interval next_ping end : ℕ) (taken out : List Bytes)
    : Type 0 where
  pub pings : List Bytes
  pub each_ping : All (IsPing sha) pings
  pub merged : Merges pings taken out
  pub spaced : length pings * ping_interval + next_ping ≤ end + ping_interval

module _ (sha : Sha256) (ping_interval end : ℕ) where
  abbrev EndsWell : ℕ → List Bytes → Writing → Type 0
  EndsWell next_ping taken w =
      w.0 ≡ some (ok tt) → Written sha ping_interval next_ping end taken w.1

  -- What is received is written as it is.
  received-EndsWell :
      (next_ping : ℕ) (received : Received) (written : Result (Unit {0})) (taken : List Bytes)
      (next : Writing)
      → next_ping ≤ end + ping_interval
      → EndsWell next_ping taken next
      → EndsWell next_ping (take_next received taken) (write_received received written next)
  received-EndsWell next_ping (queued bytes) (ok _) taken (r, out) h w e =
      let x = w e in
      record {
        pings = x.pings;
        each_ping = x.each_ping;
        merged = from_right x.merged;
        spaced = x.spaced;
      }
  received-EndsWell next_ping (queued bytes) (err p) taken (r, out) h w e = cc
  received-EndsWell next_ping (queued bytes) panic taken (r, out) h w e = cc
  received-EndsWell next_ping timeout written taken (r, out) h w e = w e
  received-EndsWell next_ping disconnected written taken (r, out) h w e = record {
    pings = [];
    each_ping = tt;
    merged = neither;
    spaced = omega arith;
  }

  -- A ping is written ahead of what is received, and the next one is due an interval later.
  pinged-EndsWell :
      (next_ping pinged_at : ℕ) (ping : Result Bytes) (taken : List Bytes) (next : Writing)
      → next_ping ≤ pinged_at
      → ((bytes : Bytes) → ping ≡ ok bytes → IsPing sha bytes)
      → EndsWell (pinged_at + ping_interval) taken next
      → EndsWell next_ping taken (write_ping ping next)
  pinged-EndsWell next_ping pinged_at (ok bytes) taken (r, out) h is w e =
      let x = w e in
      record {
        pings = bytes ∷ x.pings;
        each_ping = (is bytes refl, x.each_ping);
        merged = from_left x.merged;
        spaced = omega (arith, x.spaced);
      }
  pinged-EndsWell next_ping pinged_at (err p) taken (r, out) h is w e = cc
  pinged-EndsWell next_ping pinged_at panic taken (r, out) h is w e = cc

  ping_bytes-IsPing :
      (t : WriteTurn) (bytes : Bytes) → ping_bytes sha t ≡ ok bytes → IsPing sha bytes
  ping_bytes-IsPing t bytes e =
      let (framed_bytes, e1, e2) = >>=-succeeds (framed sha (new_ping t.random)) _ (sym e) in
      let (u, e3, e4) = >>=-succeeds t.ping_written (λ nothing. ok framed_bytes) e1 in
      (t.random, cc (e2, e3))

  turns-EndsWell :
      (next_ping now : ℕ) (turns : List WriteTurn)
      → Ticks now turns end
      → next_ping ≤ end + ping_interval
      → EndsWell next_ping (taken_by turns) (write_turns sha ping_interval next_ping turns)
  unfolding write_turns
  turns-EndsWell next_ping now [] c h = λ e. cc
  turns-EndsWell next_ping now (t ∷ turns) c h = elim (Bool-cases (leb next_ping t.now)) [
    | inl due ↦ rw due (
        pinged-EndsWell next_ping t.pinged_at (ping_bytes sha t) (taken_by (t ∷ turns)) _
          (ground arith) (ping_bytes-IsPing t)
          (received-EndsWell (t.pinged_at + ping_interval) t.received t.written (taken_by turns) _
            (omega (arith, Ticks-le t.pinged_at turns end c.2))
            (turns-EndsWell (t.pinged_at + ping_interval) t.pinged_at turns c.2
              (omega (arith, Ticks-le t.pinged_at turns end c.2)))))
    | inr early ↦ rw early (
        received-EndsWell next_ping t.received t.written (taken_by turns) _ h
          (turns-EndsWell next_ping t.pinged_at turns c.2 h))
  ]

  -- A write loop that ends without an error has written the first message, and behind it the messages
  -- that it took off the queue, in their order, with pings between them: the pings are at most one more
  -- than the intervals that have passed since the start, where the clock does not go back.
  pub write_loop-Written :
      (opening : Bytes) (opened : Result (Unit {0})) (started : ℕ) (turns : List WriteTurn)
      (out : List Bytes)
      → Ticks started turns end
      → write_loop sha ping_interval opening opened started turns ≡ (some (ok tt), out)
      → (rest : List Bytes) × (out ≡ opening ∷ rest)
        × Written sha ping_interval started end (taken_by turns) rest
  unfolding write_loop
  write_loop-Written opening (ok _) started turns out c e = (
    (write_turns sha ping_interval started turns).1,
    sym (ap (λ (w : Writing). w.1) e),
    turns-EndsWell started started turns c (omega (arith, Ticks-le started turns end c))
        (ap (λ (w : Writing). w.0) e),
  )
  write_loop-Written opening (err p) started turns out c e = cc
  write_loop-Written opening panic started turns out c e = cc
