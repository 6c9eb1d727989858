-- ===== src/Protocol/Connection/Opening.antt =====
-- What a connection writes first.
use avicoin.Prelude.{◌≡◌, refl, ◌∷◌}
use avicoin.Outcome.{ok}
use avicoin.Words.{Bytes}
use avicoin.Util.{Sha256}
use avicoin.Messages.Kinds.{new_version, Version-Payload}
use avicoin.Messages.{framed}
use avicoin.Protocol.Session.{World, Registered}
use avicoin.Protocol.WriteLoop.{ping_interval_default, write_loop, write_turns}
use avicoin.Protocol.Connection.{Socket, handle_connection}

-- The calls that prepare the socket succeed, and it takes the first message.
pub record IsPrepared (s : Socket) : Type 0 where
  pub cloned : s.try_clone ≡ ok tt
  pub writes_bounded : s.set_write_timeout ≡ ok tt
  pub reads_bounded : s.set_read_timeout ≡ ok tt
  pub taken : s.opened ≡ ok tt

-- The version of the node, and then what the turns of the writer write.
pub opening-written :
    (sha : Sha256) (registered : Registered) (s : Socket) (w : World) (ours : Bytes)
    → IsPrepared s
    → framed sha (new_version w.node.nonce w.node.config.host_address) ≡ ok ours
    → (handle_connection sha registered s w).1
      ≡ ours ∷ (write_turns sha ping_interval_default s.started s.writes).1
unfolding handle_connection write_loop
opening-written sha registered s w ours p e =
    rw (p.cloned, p.writes_bounded, p.reads_bounded, e, p.taken) refl
