-- ===== src/Messages/Stream.antt =====
-- `try_parse_message` on a receive buffer that grows: what it decides is final, and how far it reads.
use avicoin.Prelude.{
  ℕ, ◌+◌, ◌-◌, ◌≤◌, ◌<◌, ◌≡◌, ◌≢◌, inl, inr, refl, sym, ap, subst, ◌∙◌, not, Option, none, some,
  ◌++◌, arith, ltb, length, take, drop, bytes_eq, Bool-cases, length-append, length-drop,
  take-append_of_le, drop-append_of_le, ltb→lt, ltb→le, lt→ltb, le→ltb,
}
use avicoin.Outcome.{
  Result, ok, err, panic, ◌>>=◌, ◌>>◌, refuse_if, expect, >>=-succeeds, payload_too_large,
  invalid_checksum,
}
use avicoin.Words.{Bytes}
use avicoin.Reader.{new, slice, read_bytes, first_chunk}
use avicoin.Util.{Sha256, get_hash, parse_command_12}
use avicoin.Messages.Frame.{Header, header_length, max_payload_size, from_raw_format}
use avicoin.Messages.{MessageReceived, try_parse_message, parse_frame, open_frame, parse_payload}

slice-append :
    (lo hi : ℕ) (xs ys : Bytes) → lo ≤ hi → hi ≤ length xs → slice lo hi (xs ++ ys) ≡ slice lo hi xs
slice-append lo hi xs ys h h' =
    ap (take (hi - lo)) (drop-append_of_le lo xs ys (omega arith))
    ∙ take-append_of_le (hi - lo) (drop lo xs) ys (omega (arith, length-drop lo xs))

-- The buffer's header, where it has one, and what follows it.
abbrev pub after_header : Sha256 → Bytes → Result Header → Result (Option MessageReceived × ℕ)
after_header sha buffer header = header >>= λ h.
    refuse_if (ltb max_payload_size h.payload_size) (payload_too_large h.payload_size)
    >> parse_frame sha h buffer

pub try_parse_short :
    (sha : Sha256) (buffer : Bytes)
    → length buffer < header_length
    → try_parse_message sha buffer ≡ ok (none, 0)
unfolding try_parse_message
try_parse_short sha buffer h = rw (lt→ltb (length buffer) header_length h)

pub try_parse_long :
    (sha : Sha256) (buffer : Bytes)
    → header_length ≤ length buffer
    → try_parse_message sha buffer
      ≡ after_header sha buffer (from_raw_format (slice 0 header_length buffer))
unfolding try_parse_message
try_parse_long sha buffer h = rw (le→ltb (length buffer) header_length h)

pub parse_frame_enough :
    (sha : Sha256) (h : Header) (buffer : Bytes)
    → header_length + h.payload_size ≤ length buffer
    → parse_frame sha h buffer
      ≡ open_frame sha h (slice header_length (h.payload_size + header_length) buffer)
unfolding parse_frame
parse_frame_enough sha h buffer enough =
    rw (le→ltb (length buffer) (header_length + h.payload_size) enough)

pub parse_frame_short :
    (sha : Sha256) (h : Header) (buffer : Bytes)
    → length buffer < header_length + h.payload_size
    → parse_frame sha h buffer ≡ ok (none, 0)
unfolding parse_frame
parse_frame_short sha h buffer short =
    rw (lt→ltb (length buffer) (header_length + h.payload_size) short)

parse_frame_more :
    (sha : Sha256) (h : Header) (buffer more : Bytes)
    → parse_frame sha h buffer ≢ ok (none, 0)
    → parse_frame sha h (buffer ++ more) ≡ parse_frame sha h buffer
parse_frame_more sha h buffer more ne =
    elim (Bool-cases (ltb (length buffer) (header_length + h.payload_size))) [
      | inl short ↦ absurd (ne (parse_frame_short sha h buffer (ltb→lt _ _ short)))
      | inr enough ↦
          let fits = ltb→le _ _ enough in
          parse_frame_enough sha h (buffer ++ more) (omega (arith, length-append buffer more))
          ∙ ap (open_frame sha h) (
              slice-append header_length (h.payload_size + header_length) buffer more (omega arith)
                (omega arith))
          ∙ sym (parse_frame_enough sha h buffer fits)
    ]

after_header-more :
    (sha : Sha256) (buffer more : Bytes) (r : Result Header)
    → after_header sha buffer r ≢ ok (none, 0)
    → after_header sha (buffer ++ more) r ≡ after_header sha buffer r
after_header-more sha buffer more (err e) ne = refl
after_header-more sha buffer more panic ne = refl
after_header-more sha buffer more (ok h) ne =
    elim (Bool-cases (ltb max_payload_size h.payload_size)) [
      | inl large ↦ rw (large) refl
      | inr small ↦ rw (small) (parse_frame_more sha h buffer more (rw (small) at ne))
    ]

-- What the parser decides on a buffer is final: unless it waits for more, any bytes that arrive
-- behind the buffer leave its result as it is, errors included.
pub try_parse_message-append :
    (sha : Sha256) (buffer more : Bytes)
    → try_parse_message sha buffer ≢ ok (none, 0)
    → try_parse_message sha (buffer ++ more) ≡ try_parse_message sha buffer
try_parse_message-append sha buffer more ne =
    elim (Bool-cases (ltb (length buffer) header_length)) [
      | inl short ↦ absurd (ne (try_parse_short sha buffer (ltb→lt _ _ short)))
      | inr long ↦
          let h = ltb→le _ _ long in
          let e = try_parse_long sha buffer h in
          try_parse_long sha (buffer ++ more) (omega (arith, length-append buffer more))
          ∙ ap (λ bs. after_header sha (buffer ++ more) (from_raw_format bs))
              (slice-append 0 header_length buffer more (omega arith) h)
          ∙ after_header-more sha buffer more (from_raw_format (slice 0 header_length buffer))
              (λ w. ne (e ∙ w))
          ∙ sym e
    ]

-- How a parse that does not fail ends: a whole message, with what it takes, or a wait for more.
pub data Parsed (buffer : Bytes) : Option MessageReceived → ℕ → Type 0 where
  waits : length buffer < header_length + max_payload_size → Parsed buffer none 0
  takes :
      (m : MessageReceived) (n : ℕ)
      → header_length ≤ n
      → n ≤ header_length + max_payload_size
      → n ≤ length buffer
      → Parsed buffer (some m) n

open_frame-ok :
    (sha : Sha256) (h : Header) (payload : Bytes) (r : Option MessageReceived × ℕ)
    → open_frame sha h payload ≡ ok r
    → (m : MessageReceived) × (r ≡ (some m, header_length + h.payload_size))
unfolding open_frame
open_frame-ok sha h payload r e =
    let (bytes, e1, read) = >>=-succeeds ((read_bytes h.payload_size (new payload)).0) _ (sym e) in
    let (checksum, e2, hashed) = >>=-succeeds (expect (first_chunk 4 (get_hash sha bytes))) _ e1 in
    let (_, e3, same) =
      >>=-succeeds (refuse_if (not (bytes_eq h.checksum checksum)) invalid_checksum) _ e2 in
    let (name, e4, clean) = >>=-succeeds (parse_command_12 h.command_name) _ e3 in
    let (m, e5, parsed) = >>=-succeeds (parse_payload h name bytes) _ e4 in (m, cc)

parse_frame-Parsed :
    (sha : Sha256) (h : Header) (buffer : Bytes) (m : Option MessageReceived) (n : ℕ)
    → h.payload_size ≤ max_payload_size
    → parse_frame sha h buffer ≡ ok (m, n)
    → Parsed buffer m n
parse_frame-Parsed sha h buffer m n small e =
    elim (Bool-cases (ltb (length buffer) (header_length + h.payload_size))) [
      | inl short ↦
          let wait : ◌≡◌ {A = Option MessageReceived × ℕ} (none, 0) (m, n) =
            cc (parse_frame_short sha h buffer (ltb→lt _ _ short), e) in
          subst (λ (q : Option MessageReceived × ℕ). Parsed buffer q.0 q.1) wait
            (waits (omega (arith, ltb→lt _ _ short)))
      | inr enough ↦
          let fits = ltb→le _ _ enough in
          let (message, same) =
            open_frame-ok sha h _ (m, n) (sym (parse_frame_enough sha h buffer fits) ∙ e) in
          subst (λ (q : Option MessageReceived × ℕ). Parsed buffer q.0 q.1) (sym same)
            (takes message (header_length + h.payload_size) (omega arith) (omega arith) fits)
    ]

after_header-Parsed :
    (sha : Sha256) (buffer : Bytes) (r : Result Header) (m : Option MessageReceived) (n : ℕ)
    → after_header sha buffer r ≡ ok (m, n)
    → Parsed buffer m n
after_header-Parsed sha buffer (err x) m n e = cc
after_header-Parsed sha buffer panic m n e = cc
after_header-Parsed sha buffer (ok h) m n e =
    elim (Bool-cases (ltb max_payload_size h.payload_size)) [
      | inl large ↦ cc (rw (large) at e)
      | inr small ↦ parse_frame-Parsed sha h buffer m n (ltb→le _ _ small) (rw (small) at e)
    ]

-- A parse that does not fail either waits for more, and then the buffer is shorter than the longest
-- message there is, or it has a message, which takes at least the 24 bytes of its header, at most
-- those and 32 MiB, and never more than the buffer has.
pub try_parse_message-Parsed :
    (sha : Sha256) (buffer : Bytes) (m : Option MessageReceived) (n : ℕ)
    → try_parse_message sha buffer ≡ ok (m, n)
    → Parsed buffer m n
try_parse_message-Parsed sha buffer m n e = elim (Bool-cases (ltb (length buffer) header_length)) [
  | inl short ↦
      let h = ltb→lt _ _ short in
      let wait : ◌≡◌ {A = Option MessageReceived × ℕ} (none, 0) (m, n) =
        cc (try_parse_short sha buffer h, e) in
      subst (λ (q : Option MessageReceived × ℕ). Parsed buffer q.0 q.1) wait (waits (omega arith))
  | inr long ↦
      after_header-Parsed sha buffer (from_raw_format (slice 0 header_length buffer)) m n
        (sym (try_parse_long sha buffer (ltb→le _ _ long)) ∙ e)
]
