-- ===== src/Protocol/ReadLoop/Deadline.antt =====
-- The deadline of the handshake, and when the read loop returns.
use avicoin.Prelude.{
  ◌≡◌, refl, ap, sym, subst, Bool, true, false, Option, some, List, [], ◌∷◌, ◌++◌, inl, inr, ◌⊎◌,
  if◌then◌else◌,
}
use avicoin.Outcome.{Result, ok, err, panic, no_handshake}
use avicoin.Util.{Sha256}
use avicoin.Protocol.{Drained, handle_messages}
use avicoin.Protocol.Buffer.{process_incoming_bytes-ends}
use avicoin.Protocol.Session.{World, Registered, is_settled}
use avicoin.Protocol.ReadLoop.{
  Arrival, end_of_stream, interrupted, would_block, timed_out, other, arrived, failed, ReadTurn,
  Reading, Progress, goes_on, returns, out_of_fuel, check_deadline, processed, read_once, proceed,
  read_loop,
}

-- What `check_deadline` makes of a turn behind which the loop would go on: the peer is known to be
-- settled, or it is found to be and the latch is set, or it is not and it is late or has time left.
pub data Judged (self : Registered) (late : Bool) (r : Reading) : Progress → Type 0 where
  latched : r.ready ≡ true → Judged self late r (goes_on r)
  settles :
      r.ready ≡ false
      → is_settled self r.world ≡ true
      → Judged self late r (goes_on (record r { ready = true }))
  expires :
      r.ready ≡ false
      → is_settled self r.world ≡ false
      → late ≡ true
      → Judged self late r (returns (err no_handshake) r.world)
  has_time :
      r.ready ≡ false
      → is_settled self r.world ≡ false
      → late ≡ false
      → Judged self late r (goes_on r)

judge :
    (self : Registered) (late ready settled : Bool) (r : Reading)
    → r.ready ≡ ready
    → is_settled self r.world ≡ settled
    → Judged self late r (
        if ready
        then goes_on r
        else if settled
        then goes_on (record r { ready = true })
        else if late
        then returns (err no_handshake) r.world
        else goes_on r)
judge self late true settled r e e' = latched e
judge self late false true r e e' = settles e e'
judge self true false false r e e' = expires e e' refl
judge self false false false r e e' = has_time e e' refl

pub check_deadline-Judged :
    (self : Registered) (late : Bool) (r : Reading)
    → Judged self late r (check_deadline self late (goes_on r))
unfolding check_deadline
check_deadline-Judged self late r = judge self late r.ready (is_settled self r.world) r refl refl

late-Judged :
    (self : Registered) (r : Reading) {p : Progress} {r' : Reading}
    → Judged self true r p
    → p ≡ goes_on r'
    → (r'.ready ≡ true) × ((r.ready ≡ true) ⊎ (is_settled self r'.world ≡ true))
late-Judged self r (latched e) e' = (cc (e, e'), inl e)
late-Judged self r {r' = r'} (settles e s) e' =
    let same : record r { ready = true } ≡ r' = cc in
    (
      ap (λ (x : Reading). x.ready) (sym same),
      inr (subst (λ (x : Reading). is_settled self x.world ≡ true) same s),
    )
late-Judged self r (expires e s l) e' = cc
late-Judged self r (has_time e s l) e' = cc

-- Once the deadline of the handshake has passed, the loop goes on only where the peer is ready: its
-- latch is set, and it was before, or the table says so now.
pub late-ready :
    (self : Registered) (p : Progress) (r' : Reading)
    → check_deadline self true p ≡ goes_on r'
    → (r : Reading) × (p ≡ goes_on r)
      × (r'.ready ≡ true)
      × ((r.ready ≡ true) ⊎ (is_settled self r'.world ≡ true))
unfolding check_deadline
late-ready self (goes_on r) r' e =
    let (a, b) = late-Judged self r (check_deadline-Judged self true r) e in (r, refl, a, b)
late-ready self (returns result w) r' e = cc
late-ready self out_of_fuel r' e = cc

-- The result of a turn is never the lack of fuel.
abbrev Decides : Progress → Type 0
Decides p =
    ((r : Reading) × (p ≡ goes_on r))
    ⊎ ((result : Result (Unit {0})) × (w : World) × (p ≡ returns result w))

processed-Decides : (ready : Bool) (d : Drained World) → Decides (processed ready (some d))
processed-Decides ready (ok _, buffer, w) = inl (_, refl)
processed-Decides ready (err e, buffer, w) = inr (_, _, refl)
processed-Decides ready (panic, buffer, w) = inr (_, _, refl)

read_once-Decides :
    (sha : Sha256) (self : Registered) (arrival : Arrival) (r : Reading)
    → Decides (read_once sha self arrival r)
unfolding read_once
read_once-Decides sha self end_of_stream r = inr (_, _, refl)
read_once-Decides sha self (failed interrupted e) r = inl (_, refl)
read_once-Decides sha self (failed would_block e) r = inl (_, refl)
read_once-Decides sha self (failed timed_out e) r = inl (_, refl)
read_once-Decides sha self (failed other e) r = inr (_, _, refl)
read_once-Decides sha self (arrived bytes) r =
    let (d, e) =
      process_incoming_bytes-ends sha (handle_messages sha self) r.recv_buffer bytes r.world in
    rw e (processed-Decides r.ready d)

Judged-Decides :
    {self : Registered} {late : Bool} {r : Reading} {p : Progress}
    → Judged self late r p
    → Decides p
Judged-Decides (latched e) = inl (_, refl)
Judged-Decides (settles e s) = inl (_, refl)
Judged-Decides (expires e s l) = inr (_, _, refl)
Judged-Decides (has_time e s l) = inl (_, refl)

check_deadline-Decides :
    (self : Registered) (late : Bool) (p : Progress)
    → Decides p
    → Decides (check_deadline self late p)
unfolding check_deadline
check_deadline-Decides self late (goes_on r) d = Judged-Decides (check_deadline-Judged self late r)
check_deadline-Decides self late (returns result w) d = inr (_, _, refl)
check_deadline-Decides self late out_of_fuel d = d

-- An arrival that ends the loop.
abbrev pub Stops : Arrival → Type 0
Stops end_of_stream = Unit {0}
Stops (failed other e) = Unit {0}
Stops _ = ⊥

Stops-returns :
    (sha : Sha256) (self : Registered) (arrival : Arrival) (late : Bool) (r : Reading)
    → Stops arrival
    → (result : Result (Unit {0})) × (w : World) × (check_deadline self late
          (read_once sha self arrival r)
        ≡ returns result w)
unfolding check_deadline read_once
Stops-returns sha self end_of_stream late r h = (_, _, refl)
Stops-returns sha self (failed other e) late r h = (_, _, refl)
Stops-returns sha self (failed interrupted e) late r h = absurd h
Stops-returns sha self (failed would_block e) late r h = absurd h
Stops-returns sha self (failed timed_out e) late r h = absurd h
Stops-returns sha self (arrived bytes) late r h = absurd h

abbrev Returned : Option (Result (Unit {0}) × World) → Type 0
Returned o = (d : Result (Unit {0}) × World) × (o ≡ some d)

proceed-Returned :
    (next : Reading → Option (Result (Unit {0}) × World)) (meanwhile : World → World) (p : Progress)
    → Decides p
    → ((r : Reading) → Returned (next r))
    → Returned (proceed next meanwhile p)
proceed-Returned next meanwhile (goes_on r) d h = h _
proceed-Returned next meanwhile (returns result w) d h = (_, refl)
proceed-Returned next meanwhile out_of_fuel (inl (r, e)) h = cc
proceed-Returned next meanwhile out_of_fuel (inr (result, w, e)) h = cc

-- The read loop has returned once the stream has ended or a read has failed with an error that is
-- neither an interruption nor a timeout, whatever arrived before and whatever other threads did.
pub read_loop-returns :
    (sha : Sha256) (self : Registered) (turns : List ReadTurn) (last : ReadTurn) (r : Reading)
    → Stops last.arrival
    → (result : Result (Unit {0}) × World) × (read_loop sha self (turns ++ last ∷ []) r
        ≡ some result)
unfolding read_loop
read_loop-returns sha self [] last r h =
    let (result, w, e) = Stops-returns sha self last.arrival last.late r h in
    rw e ((result, w), refl)
read_loop-returns sha self (t ∷ turns) last r h =
    proceed-Returned (read_loop sha self (turns ++ last ∷ [])) t.meanwhile _
      (check_deadline-Decides self t.late _ (read_once-Decides sha self t.arrival r))
      (λ r'. read_loop-returns sha self turns last r' h)
