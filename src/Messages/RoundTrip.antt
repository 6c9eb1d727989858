-- ===== src/Messages/RoundTrip.antt =====
-- Payloads and frames, in both directions.
use avicoin.Prelude.{
  ℕ, ◌^◌, ◌<◌, ◌≡◌, refl, sym, ap, ◌∙◌, subst, none, some, [], ◌++◌, arith, length, bytes_eq_refl,
  length-append, append-nil,
}
use avicoin.Outcome.{Result, ok}
use avicoin.Words.{Bytes, IsArray, IsU16, IsU32, IsU64, to_le_bytes, length-to_le_bytes}
use avicoin.Reader.{new, read_array, read_u16, read_u32, read_u64, ByteReader}
use avicoin.Reader.Take.{new-IsValid, remaining-new}
use avicoin.Reader.Reads.{
  Reads, Reads-bind, Reads-last, Reads-read_array, Reads-read_u16, Reads-read_u32, Reads-read_u64,
}
use avicoin.Net.{
  SocketAddr, ip, port_of, socket_addr, mapped_prefix, to_ipv6_mapped, to_ipv4_mapped,
}
use avicoin.Messages.Kinds.{
  Version, parse_version, read_version, read_address, write_address, octets, unmapped,
  version_bytes, version_payload_length,
}

-- An address that survives the wire: IPv4, or an IPv6 address that is not a mapped IPv4 one and has
-- neither flow information nor a scope.
abbrev pub IsPlain : SocketAddr → Type 0
IsPlain (SocketAddr.v4 o port) = IsArray 4 o × IsU16 port
IsPlain (SocketAddr.v6 o port flowinfo scope_id) =
    IsArray 16 o × IsU16 port × (to_ipv4_mapped o ≡ none) × (flowinfo ≡ 0) × (scope_id ≡ 0)

pub record IsVersion (v : Version) : Type 0 where
  pub protocol_version : IsU32 v.protocol_version
  pub nonce : IsU64 v.nonce
  pub listen_address : IsPlain v.listen_address

pub array_n : (n : ℕ) (xs : Bytes) → length xs ≡ n → Reads (read_array n) xs xs
array_n n xs h = subst (λ k. Reads (read_array k) xs xs) h (Reads-read_array xs)

mapped_back : (o : Bytes) → to_ipv4_mapped (to_ipv6_mapped o) ≡ some o
unfolding to_ipv4_mapped
mapped_back o = rw (bytes_eq_refl mapped_prefix) refl

length-octets : (a : SocketAddr) → IsPlain a → length (octets (ip a)) ≡ 16
length-octets (SocketAddr.v4 o port) h = omega (arith, h.0.0)
length-octets (SocketAddr.v6 o port f s) h = h.0.0

port-IsU16 : (a : SocketAddr) → IsPlain a → IsU16 (port_of a)
port-IsU16 (SocketAddr.v4 o port) h = h.1
port-IsU16 (SocketAddr.v6 o port f s) h = h.1

restored :
    (a : SocketAddr)
    → IsPlain a
    → socket_addr (unmapped (octets (ip a)) (to_ipv4_mapped (octets (ip a)))) (port_of a) ≡ a
restored (SocketAddr.v4 o port) h = rw (mapped_back o) refl
restored (SocketAddr.v6 o port f s) (ho, hp, hn, hf, hs) = rw (hn, hf, hs) refl

Reads-read_address : (a : SocketAddr) → IsPlain a → Reads read_address (write_address a) a
unfolding read_address write_address
Reads-read_address a h =
    Reads-bind (read_array 16) _ (octets (ip a)) (to_le_bytes 2 (port_of a)) (octets (ip a)) a
      (array_n 16 _ (length-octets a h))
      (Reads-last read_u16 _ (to_le_bytes 2 (port_of a)) (port_of a) a
        (Reads-read_u16 _ (port-IsU16 a h)) (ap ok (restored a h)))

Reads-read_version : (v : Version) → IsVersion v → Reads read_version (version_bytes v) v
unfolding read_version version_bytes
Reads-read_version v h =
    Reads-bind read_u32 _ (to_le_bytes 4 v.protocol_version) _ v.protocol_version v
      (Reads-read_u32 _ h.protocol_version)
      (Reads-bind read_u64 _ (to_le_bytes 8 v.nonce) _ v.nonce v (Reads-read_u64 _ h.nonce) (
        Reads-last read_address _ (write_address v.listen_address) v.listen_address v
          (Reads-read_address _ h.listen_address) refl))

pub length-version_bytes :
    (v : Version) → IsVersion v → length (version_bytes v) ≡ version_payload_length
unfolding version_bytes write_address
length-version_bytes v h = omega (
  arith,
  length-append (to_le_bytes 4 v.protocol_version) (
      to_le_bytes 8 v.nonce
      ++ (octets (ip v.listen_address) ++ to_le_bytes 2 (port_of v.listen_address))),
  length-append (to_le_bytes 8 v.nonce)
      (octets (ip v.listen_address) ++ to_le_bytes 2 (port_of v.listen_address)),
  length-append (octets (ip v.listen_address)) (to_le_bytes 2 (port_of v.listen_address)),
  length-octets v.listen_address h.listen_address,
  length-to_le_bytes 4 v.protocol_version,
  length-to_le_bytes 8 v.nonce,
  length-to_le_bytes 2 (port_of v.listen_address),
)

-- What a reader makes of exactly its bytes.
pub whole {ℓ} :
    {A : Type ℓ} (p : ByteReader → Result A × ByteReader) (xs : Bytes) (a : A)
    → length xs < 2 ^ 64
    → Reads p xs a
    → (p (new xs)).0 ≡ ok a
whole p xs a h r =
    ap (λ q. q.0) (r (new xs) [] (new-IsValid xs h) (remaining-new xs ∙ sym (append-nil xs)))

-- A version parses back from its bytes, its address included, where that is one of IPv4, or of IPv6
-- outside the mapped range and without flow information and scope.
pub parse_version-version_bytes :
    (v : Version) → IsVersion v → parse_version (version_bytes v) ≡ ok v
unfolding parse_version
parse_version-version_bytes v h = rw (length-version_bytes v h) (
    whole read_version (version_bytes v) v (omega (arith, length-version_bytes v h))
      (Reads-read_version v h))
