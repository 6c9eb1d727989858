-- ===== src/Protocol/Pair.antt =====
-- Two nodes at the two ends of a connection: what each writes is what the other receives.
use avicoin.Prelude.{ℕ, ◌≡◌, ap, sym, ◌∙◌, true, List, [], ◌∷◌, ◌++◌, append-nil, append_assoc}
use avicoin.Outcome.{ok}
use avicoin.Words.{Bytes, IsU64}
use avicoin.Util.{Sha256}
use avicoin.Net.{Channel}
use avicoin.Messages.Kinds.{Version}
use avicoin.Messages.RoundTrip.{IsVersion}
use avicoin.Node.Peers.{PeerHandle}
use avicoin.Protocol.Session.{World, Registered, is_settled}
use avicoin.Protocol.WriteLoop.{ping_interval_default, write_loop}
use avicoin.Protocol.Greeting.{whole_of}
use avicoin.Protocol.WriteLoop.Takes.{takes, written_first}
use avicoin.Protocol.OneEnd.{
  Fresh, Says, flushed, set_channel_self, Receives, queue_of, identifies, settles,
}

module _ (sha : Sha256) (self : Registered) (p : PeerHandle) {version : Version}
    {nonce answered : ℕ} (own : Says sha version nonce answered) where
  -- One end of a connection. It receives `first_in`, and then has a queue; its writer, which takes that
  -- queue within an interval from its start, writes `first_out` and `second_out` in all, the second of
  -- them for the queue; then it receives `second_in`, and is settled with nothing more to write.
  pub record Settles (first_in second_in first_out second_out : List Bytes) (w : World)
      : Type 0 where
    pub identified : World
    pub settled : World
    pub identifying : Receives sha self p first_in w identified
    pub queued : whole_of (queue_of sha self p identified) ≡ whole_of second_out
    pub written :
        (now : ℕ)
        → whole_of
            (write_loop sha ping_interval_default own.opening
              (ok tt)
              now
              (takes now nonce (queue_of sha self p identified))).1
          ≡ whole_of first_out ++ whole_of second_out
    pub settling : Receives sha self p second_in (flushed p identified) settled
    pub is_ready : is_settled self settled ≡ true
    pub nothing_left : queue_of sha self p settled ≡ []

module _ (sha : Sha256) (self : Registered) (p : PeerHandle) (ours theirs : Version)
    (our_nonce their_nonce : ℕ) (own : Says sha ours our_nonce their_nonce)
    (other : Says sha theirs their_nonce our_nonce) where
  one_end :
      (w : World) (first_in second_in first_out second_out : List Bytes)
      → Fresh self p w
      → IsVersion theirs
      → IsU64 our_nonce
      → IsU64 their_nonce
      → whole_of first_in ≡ other.opening ++ other.ping
      → whole_of second_in ≡ other.acknowledgement ++ other.pong
      → whole_of first_out ≡ own.opening ++ own.ping
      → whole_of second_out ≡ own.acknowledgement ++ own.pong
      → Settles sha self p own first_in second_in first_out second_out w
  one_end w first_in second_in first_out second_out f v n n' i1 i2 o1 o2 =
      let (w', received, i) =
        identifies sha self p w theirs their_nonce our_nonce other own.pong first_in f v n'
          own.pongs i1 in
      let (w'', received', done, same) =
        settles sha self p (flushed p w') theirs their_nonce our_nonce other second_in i.entry n
          i2 in
      let ack : other.acknowledgement ≡ own.acknowledgement =
        cc (own.acknowledges, other.acknowledges) in
      let queue : whole_of (queue_of sha self p w') ≡ whole_of second_out =
        ap whole_of i.queue
        ∙ ap (◌++◌ other.acknowledgement) (append-nil own.pong)
        ∙ ap (λ a. a ++ own.pong) ack
        ∙ sym o2 in
      record {
        identified = w';
        settled = w'';
        identifying = received;
        queued = queue;
        written = λ now.
            ap
              (λ q.
                whole_of
                  (write_loop sha ping_interval_default own.opening (ok tt) now
                    (takes now our_nonce q)).1)
              i.queue
            ∙ ap whole_of (
                written_first sha now our_nonce own.opening own.ping other.acknowledgement
                  (own.pong ∷ []) own.pings)
            ∙ sym (append_assoc own.opening own.ping _)
            ∙ ap (λ bs. bs ++ (other.acknowledgement ++ (own.pong ++ []))) (sym o1)
            ∙ ap (λ q. whole_of first_out ++ whole_of q) (sym i.queue)
            ∙ ap (λ bs. whole_of first_out ++ bs) queue;
        settling = received';
        is_ready = done;
        nothing_left =
            same ∙ ap (λ (c : Channel). c.queued) (set_channel_self p.outbound _ w'.channels);
      }

-- Two nodes at the two ends of a connection, on which nothing has happened yet and whose queues have
-- room, both become ready, each having written its version, a ping, and then exactly what it queued for
-- what it received, a verack and a pong. In whatever chunks these bytes arrive at the other end, first
-- the version with the ping and then the verack with the pong, nothing is refused, nothing is left over
-- of them, and neither end has more to write.
pub pair-Settles :
    (sha : Sha256) (here there : Registered) (p q : PeerHandle) (w v : World)
    (ours theirs : Version) (our_nonce their_nonce : ℕ)
    (we_say : Says sha ours our_nonce their_nonce)
    (they_say : Says sha theirs their_nonce our_nonce)
    (to_here then_here to_there then_there : List Bytes)
    → Fresh here p w
    → Fresh there q v
    → IsVersion ours
    → IsVersion theirs
    → IsU64 our_nonce
    → IsU64 their_nonce
    → whole_of to_there ≡ we_say.opening ++ we_say.ping
    → whole_of then_there ≡ we_say.acknowledgement ++ we_say.pong
    → whole_of to_here ≡ they_say.opening ++ they_say.ping
    → whole_of then_here ≡ they_say.acknowledgement ++ they_say.pong
    → Settles sha here p we_say to_here then_here to_there then_there w
      × Settles sha there q they_say to_there then_there to_here then_here v
pair-Settles sha here there p q w v ours theirs our_nonce their_nonce we_say they_say to_here
      then_here to_there then_there f g is_ours is_theirs n n' a b c d =
    (
      one_end sha here p ours theirs our_nonce their_nonce we_say they_say w to_here then_here
          to_there then_there f is_theirs n n' c d a b,
      one_end sha there q theirs ours their_nonce our_nonce they_say we_say v to_there then_there
          to_here then_here g is_ours n' n a b c d,
    )
