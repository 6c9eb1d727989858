-- ===== src/Protocol/WriteLoop/Returns.antt =====
-- When the write loop returns.
use avicoin.Prelude.{
  ℕ, ◌+◌, ◌≡◌, refl, Bool, true, false, some, List, [], ◌∷◌, ◌++◌, if◌then◌else◌, leb,
}
use avicoin.Outcome.{Result, ok, err, panic}
use avicoin.Words.{Bytes}
use avicoin.Util.{Sha256}
use avicoin.Protocol.WriteLoop.{
  Received, queued, timeout, disconnected, WriteTurn, Writing, write_received, write_ping,
  ping_bytes, write_turns, write_loop,
}

abbrev Returned : Writing → Type 0
Returned w = (result : Result (Unit {0})) × (w.0 ≡ some result)

ping-Returned :
    (ping : Result Bytes) (next : Writing) → Returned next → Returned (write_ping ping next)
ping-Returned (ok bytes) next h = h
ping-Returned (err e) next h = (err e, refl)
ping-Returned panic next h = (panic, refl)

received-Returned :
    (received : Received) (written : Result (Unit {0})) (next : Writing)
    → Returned next
    → Returned (write_received received written next)
received-Returned (queued bytes) (ok _) next h = h
received-Returned (queued bytes) (err e) next h = (err e, refl)
received-Returned (queued bytes) panic next h = (panic, refl)
received-Returned timeout written next h = h
received-Returned disconnected written next h = (ok tt, refl)

last-Returned :
    (received : Received) (written : Result (Unit {0})) (next : Writing)
    → received ≡ disconnected
    → Returned (write_received received written next)
last-Returned disconnected written next e = (ok tt, refl)
last-Returned (queued bytes) written next e = cc
last-Returned timeout written next e = cc

either-Returned :
    (b : Bool) (w w' : Writing) → Returned w → Returned w' → Returned (if b then w else w')
either-Returned true w w' h h' = h
either-Returned false w w' h h' = h'

turns-Returned :
    (sha : Sha256) (ping_interval next_ping : ℕ) (turns : List WriteTurn) (last : WriteTurn)
    → last.received ≡ disconnected
    → Returned (write_turns sha ping_interval next_ping (turns ++ last ∷ []))
unfolding write_turns
turns-Returned sha ping_interval next_ping [] last e =
    either-Returned (leb next_ping last.now) _ _
      (ping-Returned (ping_bytes sha last) _ (last-Returned last.received last.written _ e))
      (last-Returned last.received last.written _ e)
turns-Returned sha ping_interval next_ping (t ∷ turns) last e =
    either-Returned (leb next_ping t.now) _ _
      (ping-Returned (ping_bytes sha t) _ (
        received-Returned t.received t.written _
          (turns-Returned sha ping_interval (t.pinged_at + ping_interval) turns last e)))
      (received-Returned t.received t.written _
        (turns-Returned sha ping_interval next_ping turns last e))

-- The write loop has returned once its queue is disconnected.
pub write_loop-returns :
    (sha : Sha256) (ping_interval : ℕ) (opening : Bytes) (opened : Result (Unit {0})) (started : ℕ)
    (turns : List WriteTurn) (last : WriteTurn)
    → last.received ≡ disconnected
    → (result : Result (Unit {0})) × ((write_loop sha ping_interval opening opened started
          (turns ++ last ∷ [])).0
        ≡ some result)
unfolding write_loop
write_loop-returns sha ping_interval opening (ok _) started turns last e =
    turns-Returned sha ping_interval started turns last e
write_loop-returns sha ping_interval opening (err p) started turns last e = (err p, refl)
write_loop-returns sha ping_interval opening panic started turns last e = (panic, refl)
