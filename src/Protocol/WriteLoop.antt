-- ===== src/Protocol/WriteLoop.antt =====
-- src/protocol.rs, `write_loop`, on a list of turns in the same way.
pub mod Order
pub mod Returns
pub mod Takes
use avicoin.Prelude.{ℕ, ◌+◌, leb, Option, none, some, List, [], ◌∷◌, if◌then◌else◌}
use avicoin.Outcome.{Result, ok, err, panic, ◌>>=◌, ◌>>◌}
use avicoin.Words.{Bytes}
use avicoin.Util.{Sha256}
use avicoin.Messages.Kinds.{new_ping, Ping-Payload}
use avicoin.Messages.{framed}

-- What `recv_timeout` returns.
pub data Received : Type 0 where
  queued : Bytes → Received
  timeout disconnected : Received

-- A turn of the write loop: the time at its start, the number drawn for a ping, what writing the ping
-- returns and the time then, what is received, and what writing that returns.
pub record WriteTurn : Type 0 where
  pub now : ℕ
  pub random : ℕ
  pub ping_written : Result (Unit {0})
  pub pinged_at : ℕ
  pub received : Received
  pub written : Result (Unit {0})

-- The loop's result, where it has returned, and the messages that it wrote.
abbrev pub Writing : Type 0
Writing = Option (Result (Unit {0})) × List Bytes

abbrev pub having_written : Bytes → Writing → Writing
having_written bytes (result, out) = (result, bytes ∷ out)

abbrev pub write_received : Received → Result (Unit {0}) → Writing → Writing
write_received (queued bytes) (ok _) next = having_written bytes next
write_received (queued bytes) (err e) next = (some (err e), [])
write_received (queued bytes) panic next = (some panic, [])
write_received timeout written next = next
write_received disconnected written next = (some (ok tt), [])

abbrev pub write_ping : Result Bytes → Writing → Writing
write_ping (ok bytes) next = having_written bytes next
write_ping (err e) next = (some (err e), [])
write_ping panic next = (some panic, [])

abbrev pub ping_bytes : Sha256 → WriteTurn → Result Bytes
ping_bytes sha t = do bytes ← framed sha (new_ping t.random); t.ping_written; ok bytes

-- The `loop` of `write_loop`, from the time at which the next ping is due.
unfoldable pub write_turns : Sha256 → ℕ → ℕ → List WriteTurn → Writing
write_turns sha ping_interval next_ping [] = (none, [])
write_turns sha ping_interval next_ping (t ∷ turns) =
    if leb next_ping t.now
    then write_ping (ping_bytes sha t) (
        write_received t.received t.written
          (write_turns sha ping_interval (t.pinged_at + ping_interval) turns))
    else write_received t.received t.written (write_turns sha ping_interval next_ping turns)

-- `opened` is what writing the first message returns, and `started` the time after that.
unfoldable pub write_loop : Sha256 → ℕ → Bytes → Result (Unit {0}) → ℕ → List WriteTurn → Writing
write_loop sha ping_interval opening opened started turns =
    write_ping (do opened; ok opening) (write_turns sha ping_interval started turns)

-- Seconds.
abbrev pub ping_interval_default : ℕ
ping_interval_default = 11
