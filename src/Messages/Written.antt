-- ===== src/Messages/Written.antt =====
-- Frames that the parser of the receive buffer accepts: what a sender has written.
use avicoin.Prelude.{
  take-add, ℕ, ◌+◌, ◌-◌, ◌^◌, ◌≤◌, ◌<◌, ◌≡◌, inl, inr, sym, ap, ◌∙◌, subst, not, some, ◌++◌, arith,
  ltb, length, take, drop, All, bytes_eq, Bool-cases, All-take, All-drop, length-take, length-drop,
  ltb→lt, ltb→le,
}
use avicoin.Outcome.{ok, refuse_if, expect, >>=-succeeds, invalid_checksum, payload_too_large}
use avicoin.Words.{Bytes, IsByte}
use avicoin.Reader.{new, slice, first_chunk, read_bytes}
use avicoin.Reader.Gets.{got_new}
use avicoin.Reader.Gets.Primitive.{Gets-read_bytes, IsTaken}
use avicoin.Util.{Sha256, get_hash, get_hash-IsArray, command_12, parse_command_12}
use avicoin.Util.Command.{parse_command_12_cases}
use avicoin.Messages.Frame.{
  Header, magic, header_length, max_payload_size, header_bytes, from_raw_format,
}
use avicoin.Messages.{MessageReceived, try_parse_message, parse_frame, open_frame, parse_payload}
use avicoin.Messages.Stream.{try_parse_short, try_parse_long, parse_frame_enough, parse_frame_short}
use avicoin.Messages.Carried.{header_of}
use avicoin.Messages.Canonical.{only_front}
use avicoin.Messages.Headers.{refused, same_bytes, IsHeaderOf, from_raw_format-IsHeaderOf}
use avicoin.Messages.Bodies.{name_of, IsBodyOf, parse_payload-IsNamed}

-- `frame` is the header of a payload of `m`, its checksum included, and that payload.
pub record Written (sha : Sha256) (m : MessageReceived) (frame : Bytes) : Type 0 where
  pub command : Bytes
  pub payload : Bytes
  pub named : command_12 (name_of m) ≡ ok command
  pub body : IsBodyOf m payload
  pub sealed : frame ≡ header_bytes (header_of sha command payload) ++ payload
  pub small : length payload ≤ max_payload_size

-- The payload that a header's size asks for, and its checksum.
read_whole :
    (payload bytes : Bytes) (size : ℕ)
    → length payload ≡ size
    → size < 2 ^ 64
    → All IsByte payload
    → (read_bytes size (new payload)).0 ≡ ok bytes
    → payload ≡ bytes
read_whole payload bytes size len fits b e =
    let (xs, split, (same, is)) =
      got_new (IsTaken size) (read_bytes size) payload bytes (omega (arith, len)) b
        (Gets-read_bytes size) e in
    only_front xs _ payload split (omega (arith, len, is.0, ap length same)) ∙ sym same

checksum_of :
    (sha : Sha256) (bytes checksum : Bytes)
    → expect (first_chunk 4 (get_hash sha bytes)) ≡ ok checksum
    → checksum ≡ take 4 (get_hash sha bytes)
checksum_of sha bytes checksum e = cc (rw ((get_hash-IsArray sha bytes).0) at e)

-- A header that has the magic bytes, the size and the checksum of a payload is the payload's.
sealed_by :
    (sha : Sha256) (h : Header) (p : Bytes)
    → h.magic_bytes ≡ magic
    → length p ≡ h.payload_size
    → h.checksum ≡ take 4 (get_hash sha p)
    → h ≡ header_of sha h.command_name p
sealed_by sha h p m n c =
    ap (λ x. record h { magic_bytes = x }) m
    ∙ ap (λ x. record h { magic_bytes = magic; payload_size = x }) (sym n)
    ∙ ap (λ x. record h { magic_bytes = magic; payload_size = length p; checksum = x }) c

command_of :
    (bs name : Bytes) → length bs ≡ 12 → parse_command_12 bs ≡ ok name → command_12 name ≡ ok bs
command_of bs name len e = elim (parse_command_12_cases bs len) [
  | inl (name', e', padded) ↦ subst (λ n. command_12 n ≡ ok bs) (cc) padded.2
  | inr refusal ↦ cc
]

module _ (sha : Sha256) (h : Header) (payload : Bytes) (len : length payload ≡ h.payload_size)
    (small : h.payload_size ≤ max_payload_size) (b : All IsByte payload)
    (magical : h.magic_bytes ≡ magic) (twelve : length h.command_name ≡ 12) where
  open_frame-Written :
      (m : MessageReceived) (n : ℕ)
      → open_frame sha h payload ≡ ok (some m, n)
      → Written sha m (header_bytes h ++ payload) × (n ≡ header_length + h.payload_size)
  unfolding open_frame
  open_frame-Written m n e =
      let (bytes, e1, read) =
        >>=-succeeds ((read_bytes h.payload_size (new payload)).0) _ (sym e) in
      let (checksum, e2, hashed) =
        >>=-succeeds (expect (first_chunk 4 (get_hash sha bytes))) _ e1 in
      let (_, e3, same) =
        >>=-succeeds (refuse_if (not (bytes_eq h.checksum checksum)) invalid_checksum) _ e2 in
      let (name, e4, clean) = >>=-succeeds (parse_command_12 h.command_name) _ e3 in
      let (m', e5, parsed) = >>=-succeeds (parse_payload h name bytes) _ e4 in
      let whole = read_whole payload bytes h.payload_size len (omega (arith, small)) b read in
      let parsed' = ap (parse_payload h name) whole ∙ parsed in
      let (called, body) =
        parse_payload-IsNamed payload (omega (arith, len, small)) b h name m (parsed' ∙ cc) in
      (
        record {
          command = h.command_name;
          payload = payload;
          named = ap command_12 (sym called) ∙ command_of h.command_name name twelve clean;
          body = body;
          sealed =
              ap (λ g. header_bytes g ++ payload)
                (sealed_by sha h payload magical len (
                  same_bytes _ _ _ same
                  ∙ checksum_of sha bytes checksum hashed
                  ∙ ap (λ p. take 4 (get_hash sha p)) (sym whole)));
          small = omega (arith, len, small);
        },
        cc,
      )

-- A header, and the frame that `parse_frame` finds behind it.
framed_behind :
    (sha : Sha256) (buffer : Bytes) (h : Header) (m : MessageReceived) (n : ℕ)
    → All IsByte buffer
    → IsHeaderOf h (take header_length buffer)
    → h.payload_size ≤ max_payload_size
    → parse_frame sha h buffer ≡ ok (some m, n)
    → Written sha m (take n buffer)
framed_behind sha buffer h m n b (form, magical, twelve, four) small e =
    elim (Bool-cases (ltb (length buffer) (header_length + h.payload_size))) [
      | inl short ↦ cc (parse_frame_short sha h buffer (ltb→lt _ _ short), e)
      | inr enough ↦
          let fits = ltb→le _ _ enough in
          let payload = slice header_length (h.payload_size + header_length) buffer in
          let (written, size) =
            open_frame-Written sha h payload
              (omega (
                arith,
                fits,
                length-take (h.payload_size + header_length - header_length)
                    (drop header_length buffer),
                length-drop header_length buffer,
              ))
              small (All-take IsByte _ _ (All-drop IsByte header_length buffer b)) magical twelve m
              n (sym (parse_frame_enough sha h buffer fits) ∙ e) in
          subst (Written sha m)
            (ap (λ t. t ++ payload) (sym form)
              ∙ ap (λ k. take header_length buffer ++ take k (drop header_length buffer))
                  (omega arith)
              ∙ sym (take-add header_length h.payload_size buffer)
              ∙ ap (λ k. take k buffer) (sym size))
            written
    ]

-- A frame that the parser accepts, at the front of a buffer of bytes, is the message's: the magic
-- bytes, its command padded, the length and the checksum of its payload, and the payload, in which a
-- version and a verack leave no other choice, and a ping or a pong may have bytes behind its number.
pub try_parse_message-Written :
    (sha : Sha256) (buffer : Bytes) (m : MessageReceived) (n : ℕ)
    → All IsByte buffer
    → try_parse_message sha buffer ≡ ok (some m, n)
    → Written sha m (take n buffer)
try_parse_message-Written sha buffer m n b e =
    elim (Bool-cases (ltb (length buffer) header_length)) [
      | inl short ↦ cc (try_parse_short sha buffer (ltb→lt _ _ short), e)
      | inr long ↦
          let enough = ltb→le _ _ long in
          let (h, e1, parsed) =
            >>=-succeeds (from_raw_format (slice 0 header_length buffer)) _
              (sym e ∙ try_parse_long sha buffer enough) in
          let is_header =
            from_raw_format-IsHeaderOf (slice 0 header_length buffer) h
              (omega (arith, length-take header_length buffer))
              (All-take IsByte header_length buffer b) parsed in
          let (_, e2, small) =
            >>=-succeeds
              (refuse_if (ltb max_payload_size h.payload_size) (payload_too_large h.payload_size)) _
              e1 in
          framed_behind sha buffer h m n b is_header
            (ltb→le max_payload_size h.payload_size (refused _ _ small)) (sym e2)
    ]
