-- ===== src/Messages/Bodies.antt =====
-- The payloads that the parser accepts: those of the message that it makes of them.
use avicoin.Prelude.{
  ℕ, ◌^◌, ◌<◌, ◌≡◌, inl, inr, refl, ap, ◌∙◌, subst, [], ◌++◌, arith, ◌==◌, length, All, bytes_eq,
  bytes_eq→eq, ==_iff, Bool-cases, append-nil, nil_of_length,
}
use avicoin.Outcome.{Result, ok, err, panic, ◌>>=◌}
use avicoin.Words.{Bytes, IsByte, IsU64, to_le_bytes}
use avicoin.Reader.{new, remaining, read_u64}
use avicoin.Reader.Gets.{Gets, Gets-bind, Gets-pure, got_new}
use avicoin.Reader.Gets.Primitive.{Gets-read_u64}
use avicoin.Messages.Frame.{Header}
use avicoin.Messages.Kinds.{
  Ping, Pong, Verack, version_bytes, read_ping, read_pong, parse_ping, parse_pong, parse_version,
  parse_verack, ping_command_name, pong_command_name, version_command_name, verack_command_name,
}
use avicoin.Messages.{
  MessageReceived, ping_message, pong_message, version_message, verack_message, parse_payload,
}
use avicoin.Messages.RoundTrip.{IsVersion}
use avicoin.Messages.Canonical.{parse_version-inverts}

-- The name of a message's command, and the bytes of its payload. Bytes behind the number of a ping or
-- a pong are not looked at.
abbrev pub name_of : MessageReceived → Bytes
name_of (ping_message m) = ping_command_name
name_of (pong_message m) = pong_command_name
name_of (version_message m) = version_command_name
name_of verack_message = verack_command_name

abbrev pub IsNumbered : ℕ → Bytes → Type 0
IsNumbered nonce p = (extra : Bytes) × (p ≡ to_le_bytes 8 nonce ++ extra) × IsU64 nonce

abbrev pub IsBodyOf : MessageReceived → Bytes → Type 0
IsBodyOf (ping_message m) p = IsNumbered m.payload.nonce p
IsBodyOf (pong_message m) p = IsNumbered m.payload.nonce p
IsBodyOf (version_message m) p = (version_bytes m.payload ≡ p) × IsVersion m.payload
IsBodyOf verack_message p = p ≡ []

Gets-read_ping : Gets (λ p xs. (xs ≡ to_le_bytes 8 p.nonce) × IsU64 p.nonce) read_ping
unfolding read_ping
Gets-read_ping =
    Gets-bind _ _ _ (λ nonce xs word. Gets-pure _ _ (append-nil xs ∙ word.0, omega (arith, word.1)))
      read_u64 Gets-read_u64

Gets-read_pong : Gets (λ p xs. (xs ≡ to_le_bytes 8 p.nonce) × IsU64 p.nonce) read_pong
unfolding read_pong
Gets-read_pong =
    Gets-bind _ _ _ (λ nonce xs word. Gets-pure _ _ (append-nil xs ∙ word.0, omega (arith, word.1)))
      read_u64 Gets-read_u64

module _ (bytes : Bytes) (fits : length bytes < 2 ^ 64) (b : All IsByte bytes) where
  parse_ping-IsNumbered : (p : Ping) → parse_ping bytes ≡ ok p → IsNumbered p.nonce bytes
  unfolding parse_ping
  parse_ping-IsNumbered p e =
      let (xs, split, (form, small)) = got_new _ read_ping bytes p fits b Gets-read_ping e in
      let extra = remaining (read_ping (new bytes)).1 in
      (extra, split ∙ ap (λ t. t ++ extra) form, small)

  parse_pong-IsNumbered : (p : Pong) → parse_pong bytes ≡ ok p → IsNumbered p.nonce bytes
  unfolding parse_pong
  parse_pong-IsNumbered p e =
      let (xs, split, (form, small)) = got_new _ read_pong bytes p fits b Gets-read_pong e in
      let extra = remaining (read_pong (new bytes)).1 in
      (extra, split ∙ ap (λ t. t ++ extra) form, small)

  parse_verack-empty : (v : Verack) → parse_verack bytes ≡ ok v → bytes ≡ []
  unfolding parse_verack
  parse_verack-empty v e = elim (Bool-cases (length bytes == 0)) [
    | inl none_left ↦ nil_of_length bytes ((==_iff (length bytes) 0).0 none_left)
    | inr some_left ↦ cc (rw (some_left) at e)
  ]

  -- A payload that parses is one of the message that it makes, under the command's name.
  abbrev pub IsNamed : Bytes → MessageReceived → Type 0
  IsNamed name m = (name ≡ name_of m) × IsBodyOf m bytes

  made :
      {T : Type 0} (parse : Result T) (make : T → MessageReceived) (name : Bytes)
      (m : MessageReceived)
      → ((p : T) → parse ≡ ok p → IsNamed name (make p))
      → (parse >>= λ p. ok (make p)) ≡ ok m
      → IsNamed name m
  made (err x) make name m h e = cc
  made panic make name m h e = cc
  made (ok p) make name m h e = subst (IsNamed name) (cc) (h p refl)

  pub parse_payload-IsNamed :
      (h : Header) (name : Bytes) (m : MessageReceived)
      → parse_payload h name bytes ≡ ok m
      → IsNamed name m
  unfolding parse_payload
  parse_payload-IsNamed h name m e = elim (Bool-cases (bytes_eq name ping_command_name)) [
    | inl same ↦
        made (parse_ping bytes) _ name m
          (λ p parsed. (bytes_eq→eq _ _ same, parse_ping-IsNumbered p parsed)) (rw (same) at e)
    | inr no_ping ↦ elim (Bool-cases (bytes_eq name pong_command_name)) [
      | inl same ↦
          made (parse_pong bytes) _ name m
            (λ p parsed. (bytes_eq→eq _ _ same, parse_pong-IsNumbered p parsed))
            (rw (no_ping, same) at e)
      | inr no_pong ↦ elim (Bool-cases (bytes_eq name version_command_name)) [
        | inl same ↦
            made (parse_version bytes) _ name m
              (λ p parsed. (bytes_eq→eq _ _ same, parse_version-inverts bytes p b parsed))
              (rw (no_ping, no_pong, same) at e)
        | inr no_version ↦ elim (Bool-cases (bytes_eq name verack_command_name)) [
          | inl same ↦
              made (parse_verack bytes) _ name m
                (λ p parsed. (bytes_eq→eq _ _ same, parse_verack-empty p parsed))
                (rw (no_ping, no_pong, no_version, same) at e)
          | inr no_verack ↦ cc (rw (no_ping, no_pong, no_version, no_verack) at e)
        ]
      ]
    ]
  ]
