-- ===== src/Messages/Canonical.antt =====
-- The converse of the round trips: what the parsers accept is what a sender writes.
use avicoin.Prelude.{
  ℕ, ◌≡◌, ◌⊎◌, inl, inr, refl, sym, ap, ◌∙◌, subst, none, some, [], ◌∷◌, ◌++◌, arith, ◌==◌, length,
  take, drop, All, bytes_eq, bytes_eq→eq, ==_iff, Bool-cases, append-nil, length-append,
  nil_of_length, take-append-drop,
}
use mathlib.Core.Path.{ap₂}
use avicoin.Outcome.{ok}
use avicoin.Words.{Bytes, IsByte, IsArray, IsU16, to_le_bytes}
use avicoin.Reader.{read_u16, read_u32, read_u64, read_array}
use avicoin.Reader.Gets.{Gets, Gets-bind, Gets-pure, got_new}
use avicoin.Reader.Gets.Primitive.{Gets-read_u16, Gets-read_u32, Gets-read_u64, Gets-read_array}
use avicoin.Net.{SocketAddr, ip, port_of, socket_addr, mapped_prefix, to_ipv4_mapped}
use avicoin.Messages.Kinds.{
  Version, octets, unmapped, read_address, write_address, read_version, version_bytes,
  parse_version, version_payload_length,
}
use avicoin.Messages.RoundTrip.{IsPlain, IsVersion, length-version_bytes}

-- Sixteen octets stand for an IPv4 address behind its prefix, or for an IPv6 address.
mapped_cases :
    (o : Bytes)
    → ((o4 : Bytes) × (to_ipv4_mapped o ≡ some o4) × (o ≡ mapped_prefix ++ o4))
      ⊎ (to_ipv4_mapped o ≡ none)
unfolding to_ipv4_mapped
mapped_cases o = elim (Bool-cases (bytes_eq (take 12 o) mapped_prefix)) [
  | inl mapped ↦ inl (
    drop 12 o,
    rw (mapped) refl,
    sym (take-append-drop 12 o) ∙ ap (λ t. t ++ drop 12 o) (bytes_eq→eq _ _ mapped),
  )
  | inr plain ↦ inr (rw (plain) refl)
]

All-append_right : (xs ys : Bytes) → All IsByte (xs ++ ys) → All IsByte ys
All-append_right [] ys h = h
All-append_right (x ∷ xs) ys (h, hs) = All-append_right xs ys hs

-- The address of sixteen octets is plain, and has them as its octets.
abbrev address_of : Bytes → ℕ → SocketAddr
address_of o port = socket_addr (unmapped o (to_ipv4_mapped o)) port

address_of-IsPlain :
    (o : Bytes) (port : ℕ)
    → IsArray 16 o
    → IsU16 port
    → (octets (ip (address_of o port)) ≡ o)
      × (port_of (address_of o port) ≡ port)
      × IsPlain (address_of o port)
address_of-IsPlain o port (len, b) h = elim (mapped_cases o) [
  | inl (o4, e, split) ↦ rw (e) (
    sym split,
    refl,
    (
      (
        omega (arith, ap length split, len, length-append mapped_prefix o4),
        All-append_right mapped_prefix o4 (subst (All IsByte) split b),
      ),
      h,
    ),
  )
  | inr e ↦ rw (e) (refl, refl, ((len, b), h, e, refl, refl))
]

Gets-read_address : Gets (λ a xs. (xs ≡ write_address a) × IsPlain a) read_address
unfolding read_address write_address
Gets-read_address =
    Gets-bind _ _ _
      (λ mapped xs at.
        Gets-bind _ _ _
          (λ port ys word.
            let (o, p, plain) = address_of-IsPlain mapped port at.1 (omega (arith, word.1)) in
            Gets-pure _ _ (
              ap₂ ◌++◌ (sym at.0 ∙ sym o) (append-nil ys ∙ word.0 ∙ ap (to_le_bytes 2) (sym p)),
              plain,
            ))
          read_u16 Gets-read_u16)
      (read_array 16) (Gets-read_array 16)

Gets-read_version : Gets (λ v xs. (xs ≡ version_bytes v) × IsVersion v) read_version
unfolding read_version version_bytes
Gets-read_version =
    Gets-bind _ _ _
      (λ number xs first.
        Gets-bind _ _ _
          (λ nonce ys second.
            Gets-bind _ _ _
              (λ address zs last. Gets-pure _ _ (
                ap₂ ◌++◌ first.0 (ap₂ ◌++◌ second.0 (append-nil zs ∙ last.0)),
                record {
                  protocol_version = omega (arith, first.1);
                  nonce = omega (arith, second.1);
                  listen_address = last.1;
                },
              ))
              read_address Gets-read_address)
          read_u64 Gets-read_u64)
      read_u32 Gets-read_u32

-- The second half is empty where the first is as long as the whole.
pub only_front : (xs rest bs : Bytes) → bs ≡ xs ++ rest → length bs ≡ length xs → bs ≡ xs
only_front xs rest bs e len = e ∙ ap (λ t. xs ++ t) empty ∙ append-nil xs
  where
    empty : rest ≡ []
    empty = nil_of_length rest (omega (arith, ap length e, length-append xs rest))

-- The parser of a version accepts no bytes but those that the version is written as, and what it
-- returns is a version that survives the wire.
pub parse_version-inverts :
    (bytes : Bytes) (v : Version)
    → All IsByte bytes
    → parse_version bytes ≡ ok v
    → (version_bytes v ≡ bytes) × IsVersion v
unfolding parse_version
parse_version-inverts bytes v b e = elim (Bool-cases (length bytes == version_payload_length)) [
  | inl long ↦
      let len = (==_iff (length bytes) version_payload_length).0 long in
      let (xs, split, (form, are)) =
        got_new (λ w ys. (ys ≡ version_bytes w) × IsVersion w) read_version bytes v
          (omega (arith, len)) b Gets-read_version (rw (long) at e) in
      (
        sym form
            ∙ sym (
                only_front xs _ bytes split
                  (omega (arith, len, ap length form, length-version_bytes v are))),
        are,
      )
  | inr other ↦ cc (rw (other) at e)
]
