-- ===== src/Messages/Kinds.antt =====
-- src/messages/ping.rs, pong.rs, verack.rs and version.rs: the payloads, and the trait `Payload` of
-- src/messages/message.rs that they implement.
use avicoin.Prelude.{ℕ, not, Option, none, some, [], ◌∷◌, ◌++◌, ◌==◌, length, if◌then◌else◌}
use avicoin.Outcome.{Result, ok, err, version_length, verack_length}
use avicoin.Words.{Bytes, to_le_bytes}
use avicoin.Reader.{Read, ◌>>=◌, pure, new, read_u16, read_u32, read_u64, read_array}
use avicoin.Util.{command_12}
use avicoin.Net.{SocketAddr, IpAddr, ip, port_of, socket_addr, to_ipv6_mapped, to_ipv4_mapped}

-- The trait `Payload`.
pub record Payload (T : Type 0) : Type 0 where
  pub get_raw_format : T → Result Bytes
  pub get_command_name : T → Result Bytes

pub record Ping : Type 0 where
  pub nonce : ℕ

pub record Pong : Type 0 where
  pub nonce : ℕ

pub data Verack : Type 0 where
  verack : Verack

pub record Version : Type 0 where
  pub protocol_version : ℕ
  pub nonce : ℕ
  pub listen_address : SocketAddr

-- "ping", "pong", "verack" and "version" in ASCII.
abbrev pub ping_command_name : Bytes
ping_command_name = 112 ∷ 105 ∷ 110 ∷ 103 ∷ []

abbrev pub pong_command_name : Bytes
pong_command_name = 112 ∷ 111 ∷ 110 ∷ 103 ∷ []

abbrev pub verack_command_name : Bytes
verack_command_name = 118 ∷ 101 ∷ 114 ∷ 97 ∷ 99 ∷ 107 ∷ []

abbrev pub version_command_name : Bytes
version_command_name = 118 ∷ 101 ∷ 114 ∷ 115 ∷ 105 ∷ 111 ∷ 110 ∷ []

abbrev pub protocol_version_number : ℕ
protocol_version_number = 1

abbrev pub version_payload_length : ℕ
version_payload_length = 30

-- `Ping::new`, with the number that the generator gives.
unfoldable pub new_ping : ℕ → Ping
new_ping random = record { nonce = random }

unfoldable pub read_ping : Read Ping
read_ping = do nonce ← read_u64; pure (record { nonce = nonce })

unfoldable pub parse_ping : Bytes → Result Ping
parse_ping bytes = (read_ping (new bytes)).0

unfoldable pub new_pong : Ping → Result Pong
new_pong ping = ok (record { nonce = ping.nonce })

unfoldable pub read_pong : Read Pong
read_pong = do nonce ← read_u64; pure (record { nonce = nonce })

unfoldable pub parse_pong : Bytes → Result Pong
parse_pong bytes = (read_pong (new bytes)).0

unfoldable pub parse_verack : Bytes → Result Verack
parse_verack bytes =
    if not (length bytes == 0) then err (verack_length (length bytes)) else ok verack

unfoldable pub new_version : ℕ → SocketAddr → Version
new_version nonce listen_address = record {
  protocol_version = protocol_version_number;
  nonce = nonce;
  listen_address = listen_address;
}

abbrev pub octets : IpAddr → Bytes
octets (IpAddr.v4 o) = to_ipv6_mapped o
octets (IpAddr.v6 o) = o

unfoldable pub write_address : SocketAddr → Bytes
write_address address = octets (ip address) ++ to_le_bytes 2 (port_of address)

abbrev pub unmapped : Bytes → Option Bytes → IpAddr
unmapped mapped none = IpAddr.v6 mapped
unmapped mapped (some o) = IpAddr.v4 o

unfoldable pub read_address : Read SocketAddr
read_address = do
  mapped ← read_array 16
  port ← read_u16
  pure (socket_addr (unmapped mapped (to_ipv4_mapped mapped)) port)

unfoldable pub read_version : Read Version
read_version = do
  protocol_version ← read_u32
  nonce ← read_u64
  listen_address ← read_address
  pure (record {
    protocol_version = protocol_version;
    nonce = nonce;
    listen_address = listen_address;
  })

unfoldable pub parse_version : Bytes → Result Version
parse_version bytes =
    if not (length bytes == version_payload_length)
    then err (version_length (length bytes))
    else (read_version (new bytes)).0

unfoldable pub version_bytes : Version → Bytes
version_bytes v =
    to_le_bytes 4 v.protocol_version ++ (to_le_bytes 8 v.nonce ++ write_address v.listen_address)

instance unfoldable pub Ping-Payload : Payload Ping
Ping-Payload = record {
  get_raw_format = λ p. ok (to_le_bytes 8 p.nonce);
  get_command_name = λ p. command_12 ping_command_name;
}

instance unfoldable pub Pong-Payload : Payload Pong
Pong-Payload = record {
  get_raw_format = λ p. ok (to_le_bytes 8 p.nonce);
  get_command_name = λ p. command_12 pong_command_name;
}

instance unfoldable pub Verack-Payload : Payload Verack
Verack-Payload = record {
  get_raw_format = λ v. ok [];
  get_command_name = λ v. command_12 verack_command_name;
}

instance unfoldable pub Version-Payload : Payload Version
Version-Payload = record {
  get_raw_format = λ v. ok (version_bytes v);
  get_command_name = λ v. command_12 version_command_name;
}
