-- ===== src/Messages/Carried.antt =====
-- A message that one node frames, in front of anything else, is the message that another receives.
use avicoin.Prelude.{
  ◌+◌, ◌≤◌, ◌≡◌, refl, ap, ◌∙◌, subst, not, some, ◌++◌, arith, length, take, drop, bytes_eq,
  bytes_eq_refl, length-append, append_assoc, take-append, drop-append, length-take, le→ltb,
}
use avicoin.Outcome.{ok, ◌>>=◌, ◌>>◌, refuse_if, payload_too_large}
use avicoin.Words.{Bytes, to_le_bytes, length-to_le_bytes}
use avicoin.Reader.{read_array, read_bytes, slice}
use avicoin.Reader.Reads.{
  Reads, Reads-bind, Reads-last, Reads-lift, Reads-read_bytes, Reads-read_u32,
}
use avicoin.Util.{Sha256, get_hash, get_hash-IsArray, parse_command_12}
use avicoin.Messages.Kinds.{Payload}
use avicoin.Messages.Frame.{
  Header, magic, header_length, max_payload_size, header_bytes, read_header, from_raw_format,
}
use avicoin.Messages.{
  Message, MessageReceived, from_payload, new_message, message_bytes, try_parse_message,
  parse_frame, open_frame, parse_payload,
}
use avicoin.Messages.Stream.{after_header, try_parse_long, parse_frame_enough}
use avicoin.Messages.RoundTrip.{array_n, whole}

-- The header of a payload of bytes `p` under the command `c`.
abbrev pub header_of : Sha256 → Bytes → Bytes → Header
header_of sha c p = record {
  magic_bytes = magic;
  command_name = c;
  payload_size = length p;
  checksum = take 4 (get_hash sha p);
}

length-checksum : (sha : Sha256) (p : Bytes) → length (take 4 (get_hash sha p)) ≡ 4
length-checksum sha p = omega (arith, length-take 4 (get_hash sha p), (get_hash-IsArray sha p).0)

module _ (sha : Sha256) (c p : Bytes) (c12 : length c ≡ 12)
    (small : length p ≤ max_payload_size) where
  length-header_bytes : length (header_bytes (header_of sha c p)) ≡ header_length
  unfolding header_bytes
  length-header_bytes = omega (
    arith,
    length-append c (to_le_bytes 4 (length p) ++ take 4 (get_hash sha p)),
    length-append (to_le_bytes 4 (length p)) (take 4 (get_hash sha p)),
    length-to_le_bytes 4 (length p),
    length-checksum sha p,
    c12,
  )

  Reads-read_header : Reads read_header (header_bytes (header_of sha c p)) (header_of sha c p)
  unfolding read_header header_bytes
  Reads-read_header =
      Reads-bind (read_array 4) _ magic _ magic (header_of sha c p) (array_n 4 magic refl) (
        Reads-lift (refuse_if (not (bytes_eq magic magic)) _) _ _ tt (header_of sha c p)
          (rw (bytes_eq_refl magic) refl)
          (Reads-bind (read_array 12) _ c _ c (header_of sha c p) (array_n 12 c c12) (
            Reads-bind _ _ (to_le_bytes 4 (length p)) _ (length p) (header_of sha c p)
              (Reads-read_u32 (length p) (omega arith))
              (Reads-last (read_array 4) _ (take 4 (get_hash sha p)) (take 4 (get_hash sha p))
                (header_of sha c p) (array_n 4 _ (length-checksum sha p)) refl))))

  from_raw_format-header_bytes :
      from_raw_format (header_bytes (header_of sha c p)) ≡ ok (header_of sha c p)
  unfolding from_raw_format
  from_raw_format-header_bytes = rw (length-header_bytes) (
      whole read_header (header_bytes (header_of sha c p)) (header_of sha c p)
        (omega (arith, length-header_bytes)) Reads-read_header)

  module _ (rest : Bytes) where
    abbrev buffer : Bytes
    buffer = header_bytes (header_of sha c p) ++ (p ++ rest)

    front : slice 0 header_length buffer ≡ header_bytes (header_of sha c p)
    front =
        subst (λ n. take n buffer ≡ header_bytes (header_of sha c p)) length-header_bytes
          (take-append (header_bytes (header_of sha c p)) (p ++ rest))

    behind : drop header_length buffer ≡ p ++ rest
    behind =
        subst (λ n. drop n buffer ≡ p ++ rest) length-header_bytes
          (drop-append (header_bytes (header_of sha c p)) (p ++ rest))

    body : slice header_length (length p + header_length) buffer ≡ p
    body = rw (behind) (ap (λ n. take n (p ++ rest)) (omega arith) ∙ take-append p rest)

    all_there : header_length + length p ≤ length buffer
    all_there = omega (
      arith,
      length-append (header_bytes (header_of sha c p)) (p ++ rest),
      length-append p rest,
      length-header_bytes,
    )

    open_body :
        (name : Bytes)
        → parse_command_12 c ≡ ok name
        → open_frame sha (header_of sha c p) p ≡ (
            parse_payload (header_of sha c p) name p >>= λ m. ok (some m, header_length + length p))
    unfolding open_frame
    open_body name e =
        rw
          (
            whole (read_bytes (length p)) p p (omega arith) (Reads-read_bytes p),
            (get_hash-IsArray sha p).0,
            bytes_eq_refl (take 4 (get_hash sha p)),
            e,
          )
          refl

    received :
        (name : Bytes)
        → parse_command_12 c ≡ ok name
        → try_parse_message sha buffer ≡ (
            parse_payload (header_of sha c p) name p >>= λ m. ok (some m, header_length + length p))
    received name e =
        try_parse_long sha buffer (omega (arith, all_there))
        ∙ ap (λ bs. after_header sha buffer (from_raw_format bs)) front
        ∙ ap (after_header sha buffer) from_raw_format-header_bytes
        ∙ ap
            (λ b.
              refuse_if b (payload_too_large (length p))
              >> parse_frame sha (header_of sha c p) buffer)
            (le→ltb max_payload_size (length p) small)
        ∙ parse_frame_enough sha (header_of sha c p) buffer all_there
        ∙ ap (open_frame sha (header_of sha c p)) body
        ∙ open_body name e

-- What a sender makes of a payload, and what the receiver makes of its bytes, whatever follows them.
pub record Carried {T : Type 0} ⦃P : Payload T⦄ (sha : Sha256) (payload : T)
    (received_as : Message T → MessageReceived) : Type 0 where
  pub message : Message T
  pub bytes : Bytes
  pub unchanged : message.payload ≡ payload
  pub made : new_message sha payload ≡ ok message
  pub printed : message_bytes message ≡ ok bytes
  pub parsed :
      (rest : Bytes)
      → try_parse_message sha (bytes ++ rest) ≡ ok (some (received_as message), length bytes)

module _ {T : Type 0} ⦃P : Payload T⦄ (sha : Sha256) (payload : T) (c p : Bytes) where
  abbrev message_of : Message T
  message_of = record { header = header_of sha c p; payload = payload }

  from_payload_lem :
      length p ≤ max_payload_size
      → P.get_raw_format payload ≡ ok p
      → P.get_command_name payload ≡ ok c
      → from_payload sha payload ≡ ok (header_of sha c p)
  unfolding from_payload
  from_payload_lem small ep ec =
      rw (ep, (get_hash-IsArray sha p).0, ec)
        (ap (λ n. ok (record (header_of sha c p) { payload_size = n })) (omega arith))

  pub carried :
      (name : Bytes) (received_as : Message T → MessageReceived)
      → length c ≡ 12
      → length p ≤ max_payload_size
      → P.get_raw_format payload ≡ ok p
      → P.get_command_name payload ≡ ok c
      → parse_command_12 c ≡ ok name
      → parse_payload (header_of sha c p) name p ≡ ok (received_as message_of)
      → Carried sha payload received_as
  unfolding new_message message_bytes
  carried name received_as c12 small ep ec en ep' = record {
    message = message_of;
    bytes = header_bytes (header_of sha c p) ++ p;
    unchanged = refl;
    made = rw (from_payload_lem small ep ec) refl;
    printed = rw (ep) refl;
    parsed = λ rest.
        ap (try_parse_message sha) (append_assoc (header_bytes (header_of sha c p)) p rest)
        ∙ received sha c p c12 small rest name en
        ∙ ap (λ r. r >>= λ m. ok (some m, header_length + length p)) ep'
        ∙ ap (λ n. ok (some (received_as message_of), n))
            (omega (
              arith,
              length-append (header_bytes (header_of sha c p)) p,
              length-header_bytes sha c p c12 small,
            ));
  }
