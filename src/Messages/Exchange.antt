-- ===== src/Messages/Exchange.antt =====
-- The four kinds of message, from one node to another.
use avicoin.Prelude.{ℕ, ◌≡◌, refl, [], ◌++◌, arith, bytes_eq, replicate}
use avicoin.Outcome.{ok}
use avicoin.Words.{Bytes, IsU64, to_le_bytes, length-to_le_bytes}
use avicoin.Reader.Reads.{Reads-read_u64, Reads-last}
use avicoin.Reader.{read_u64}
use avicoin.Text.{is_ascii}
use avicoin.Util.{Sha256, command_12, parse_command_12}
use avicoin.Util.Command.{parse_command_12-command_12}
use avicoin.Messages.Kinds.{
  Ping, Pong, Version, verack, Ping-Payload, Pong-Payload, Version-Payload, Verack-Payload,
  parse_ping, parse_pong, read_ping, read_pong, parse_verack, ping_command_name, pong_command_name,
  version_command_name, verack_command_name, version_bytes,
}
use avicoin.Messages.{ping_message, pong_message, version_message, verack_message, parse_payload}
use avicoin.Messages.RoundTrip.{whole, IsVersion, parse_version-version_bytes, length-version_bytes}
use avicoin.Messages.Carried.{Carried, carried}

abbrev padded : Bytes → ℕ → Bytes
padded name n = name ++ replicate n 0

ping_padded : parse_command_12 (padded ping_command_name 8) ≡ ok ping_command_name
unfolding command_12 is_ascii
ping_padded =
    parse_command_12-command_12 ping_command_name (omega arith)
      (λ e. omega arith, (λ e. omega arith, (λ e. omega arith, (λ e. omega arith, tt)))) refl

pong_padded : parse_command_12 (padded pong_command_name 8) ≡ ok pong_command_name
unfolding command_12 is_ascii
pong_padded =
    parse_command_12-command_12 pong_command_name (omega arith)
      (λ e. omega arith, (λ e. omega arith, (λ e. omega arith, (λ e. omega arith, tt)))) refl

version_padded : parse_command_12 (padded version_command_name 5) ≡ ok version_command_name
unfolding command_12 is_ascii
version_padded =
    parse_command_12-command_12 version_command_name (omega arith)
      (
        λ e. omega arith,
        (
          λ e. omega arith,
          (
            λ e. omega arith,
            (λ e. omega arith, (λ e. omega arith, (λ e. omega arith, (λ e. omega arith, tt)))),
          ),
        ),
      )
      refl

verack_padded : parse_command_12 (padded verack_command_name 6) ≡ ok verack_command_name
unfolding command_12 is_ascii
verack_padded =
    parse_command_12-command_12 verack_command_name (omega arith)
      (
        λ e. omega arith,
        (
          λ e. omega arith,
          (λ e. omega arith, (λ e. omega arith, (λ e. omega arith, (λ e. omega arith, tt)))),
        ),
      )
      refl

-- A ping arrives as the ping that was sent, for any nonce of 64 bits and whatever bytes follow it.
pub ping-Carried : (sha : Sha256) (ping : Ping) → IsU64 ping.nonce → Carried sha ping ping_message
unfolding command_12 is_ascii parse_payload Ping-Payload parse_ping read_ping bytes_eq
ping-Carried sha ping h =
    carried sha ping (padded ping_command_name 8) (to_le_bytes 8 ping.nonce) ping_command_name
      ping_message refl (omega (arith, length-to_le_bytes 8 ping.nonce)) refl refl ping_padded
      (rw
        (whole read_ping (to_le_bytes 8 ping.nonce) ping
          (omega (arith, length-to_le_bytes 8 ping.nonce))
          (Reads-last read_u64 _ (to_le_bytes 8 ping.nonce) ping.nonce ping
            (Reads-read_u64 ping.nonce h) refl))
        refl)

-- A pong arrives as the pong that was sent, for any nonce of 64 bits and whatever bytes follow it.
pub pong-Carried : (sha : Sha256) (pong : Pong) → IsU64 pong.nonce → Carried sha pong pong_message
unfolding command_12 is_ascii parse_payload Pong-Payload parse_pong read_pong bytes_eq
pong-Carried sha pong h =
    carried sha pong (padded pong_command_name 8) (to_le_bytes 8 pong.nonce) pong_command_name
      pong_message refl (omega (arith, length-to_le_bytes 8 pong.nonce)) refl refl pong_padded
      (rw
        (whole read_pong (to_le_bytes 8 pong.nonce) pong
          (omega (arith, length-to_le_bytes 8 pong.nonce))
          (Reads-last read_u64 _ (to_le_bytes 8 pong.nonce) pong.nonce pong
            (Reads-read_u64 pong.nonce h) refl))
        refl)

-- A version arrives as the version that was sent, where its numbers fit their fields and its address
-- survives the wire.
pub version-Carried : (sha : Sha256) (v : Version) → IsVersion v → Carried sha v version_message
unfolding command_12 is_ascii parse_payload Version-Payload bytes_eq
version-Carried sha v h =
    carried sha v (padded version_command_name 5) (version_bytes v) version_command_name
      version_message refl (omega (arith, length-version_bytes v h)) refl refl version_padded
      (rw (parse_version-version_bytes v h) refl)

-- A verack arrives as a verack.
pub verack-Carried : (sha : Sha256) → Carried sha verack (λ m. verack_message)
unfolding command_12 is_ascii parse_payload Verack-Payload bytes_eq parse_verack
verack-Carried sha =
    carried sha verack (padded verack_command_name 6) [] verack_command_name (λ m. verack_message)
      refl (omega arith) refl refl verack_padded refl
