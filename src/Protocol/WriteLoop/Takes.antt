-- ===== src/Protocol/WriteLoop/Takes.antt =====
-- `write_loop`, where its queue has messages from the start.
use avicoin.Prelude.{ℕ, ◌+◌, ◌≡◌, refl, ap, true, List, [], ◌∷◌, leb, arith}
use avicoin.Outcome.{ok}
use avicoin.Words.{Bytes}
use avicoin.Util.{Sha256}
use avicoin.Messages.Kinds.{new_ping, Version-Payload, Verack-Payload, Ping-Payload, Pong-Payload}
use avicoin.Messages.{framed}
use avicoin.Protocol.WriteLoop.{WriteTurn, queued, ping_interval_default, write_loop, write_turns}

-- The turns of a writer that begins at a time, draws a number for its ping, and takes these messages off
-- its queue within the interval.
abbrev pub takes : ℕ → ℕ → List Bytes → List WriteTurn
takes now nonce [] = []
takes now nonce (message ∷ messages) =
    record {
      now = now;
      random = nonce;
      ping_written = ok tt;
      pinged_at = now;
      received = queued message;
      written = ok tt;
    }
    ∷ takes now nonce messages

leb_refl : (n : ℕ) → leb n n ≡ true
leb_refl n = ground arith

module _ (sha : Sha256) where
  written_quietly :
      (now nonce : ℕ) (messages : List Bytes)
      → (write_turns sha ping_interval_default
          (now + ping_interval_default)
          (takes now nonce messages)).1
        ≡ messages
  unfolding write_turns
  written_quietly now nonce [] = refl
  written_quietly now nonce (m ∷ messages) = ground (arith, written_quietly now nonce messages)

  pub written_first :
      (now nonce : ℕ) (opening ping m : Bytes) (messages : List Bytes)
      → framed sha (new_ping nonce) ≡ ok ping
      → (write_loop sha ping_interval_default opening
          (ok tt)
          now
          (takes now nonce (m ∷ messages))).1
        ≡ opening ∷ ping ∷ m ∷ messages
  unfolding write_loop write_turns
  written_first now nonce opening ping m messages e =
      rw (leb_refl now, e)
        (ap (λ out. opening ∷ ping ∷ m ∷ out) (written_quietly now nonce messages))
