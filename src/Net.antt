-- ===== src/Net.antt =====
-- What the program uses of `std::net` and `std::sync::mpsc`: socket addresses and bounded channels.
use avicoin.Prelude.{
  ℕ, ◌≡◌, Bool, true, false, ◌&&◌, Option, none, some, List, [], ◌∷◌, ◌++◌, arith, ltb, ◌==◌,
  if◌then◌else◌, length, take, drop, bytes_eq, bytes_eq_refl,
}
use avicoin.Words.{Bytes}

-- `IpAddr`: four or sixteen octets.
pub data IpAddr : Type 0 where
  v4 v6 : Bytes → IpAddr

-- `SocketAddr`: address and port, and for IPv6 the flow information and the scope.
pub data SocketAddr : Type 0 where
  v4 : Bytes → ℕ → SocketAddr
  v6 : Bytes → ℕ → ℕ → ℕ → SocketAddr

abbrev pub ip : SocketAddr → IpAddr
ip (SocketAddr.v4 octets port) = IpAddr.v4 octets
ip (SocketAddr.v6 octets port flowinfo scope_id) = IpAddr.v6 octets

abbrev pub port_of : SocketAddr → ℕ
port_of (SocketAddr.v4 octets port) = port
port_of (SocketAddr.v6 octets port flowinfo scope_id) = port

-- `SocketAddr::new`.
abbrev pub socket_addr : IpAddr → ℕ → SocketAddr
socket_addr (IpAddr.v4 octets) port = SocketAddr.v4 octets port
socket_addr (IpAddr.v6 octets) port = SocketAddr.v6 octets port 0 0

-- `==` on addresses.
unfoldable pub address_eq : SocketAddr → SocketAddr → Bool
address_eq (SocketAddr.v4 o p) (SocketAddr.v4 o' p') = bytes_eq o o' && p == p'
address_eq (SocketAddr.v4 o p) (SocketAddr.v6 o' p' f' s') = false
address_eq (SocketAddr.v6 o p f s) (SocketAddr.v4 o' p') = false
address_eq (SocketAddr.v6 o p f s) (SocketAddr.v6 o' p' f' s') =
    bytes_eq o o' && (p == p' && (f == f' && s == s'))

pub address_eq_refl : (a : SocketAddr) → address_eq a a ≡ true
unfolding address_eq
address_eq_refl (SocketAddr.v4 o p) = ground (arith, bytes_eq_refl o)
address_eq_refl (SocketAddr.v6 o p f s) = ground (arith, bytes_eq_refl o)

-- The ten zeros and two ones in front of an IPv4 address in IPv6.
abbrev pub mapped_prefix : Bytes
mapped_prefix = 0 ∷ 0 ∷ 0 ∷ 0 ∷ 0 ∷ 0 ∷ 0 ∷ 0 ∷ 0 ∷ 0 ∷ 0xff ∷ 0xff ∷ []

-- `Ipv4Addr::to_ipv6_mapped` and `Ipv6Addr::to_ipv4_mapped`, on octets.
abbrev pub to_ipv6_mapped : Bytes → Bytes
to_ipv6_mapped octets = mapped_prefix ++ octets

unfoldable pub to_ipv4_mapped : Bytes → Option Bytes
to_ipv4_mapped octets =
    if bytes_eq (take 12 octets) mapped_prefix then some (drop 12 octets) else none

-- A bounded channel of `sync_channel(capacity)`: what waits in it, and whether its receiver lives.
pub record Channel : Type 0 where
  pub capacity : ℕ
  pub queued : List Bytes
  pub connected : Bool

-- A sender names its channel; the channels are one store.
abbrev pub Sender : Type 0
Sender = ℕ

abbrev pub Channels : Type 0
Channels = Sender → Channel

abbrev pub set_channel : Sender → Channel → Channels → Channels
set_channel s c cs t = if t == s then c else cs t

abbrev pub accepts : Channel → Bool
accepts c = c.connected && ltb (length c.queued) c.capacity

abbrev pub enqueue : Bytes → Channel → Channel
enqueue message c = record c { queued = c.queued ++ message ∷ [] }

-- `try_send`: whether the message was taken. A full channel and one without receiver are unchanged.
unfoldable pub try_send : Sender → Bytes → Channels → Bool × Channels
try_send s message cs =
    if accepts (cs s) then (true, set_channel s (enqueue message (cs s)) cs) else (false, cs)
