-- ===== src/Net.antt =====
-- `std::net` as the program uses it: IP and socket addresses over octets in network order.
pub mod Mapped
use p2p_tunnler.Prelude.{
  ℕ, ◌<◌, ◌≡◌, ◌↔◌, refl, Bool, true, false, ◌&&◌, Option, none, some, List, [], ◌∷◌, leb, ◌==◌,
  if◌then◌else◌, length, get_or, ◌^◌, take, drop, replicate, ◌++◌, Eq, arith,
}

abbrev pub Bytes : Type 0
Bytes = List ℕ

abbrev pub bytes_beq : Bytes → Bytes → Bool
bytes_beq [] [] = true
bytes_beq (a ∷ xs) (b ∷ ys) = a == b && bytes_beq xs ys
bytes_beq xs ys = false

pub bytes_beq_iff : (xs ys : Bytes) → (bytes_beq xs ys ≡ true) ↔ (xs ≡ ys)
bytes_beq_iff [] [] = (λ _. refl, λ _. refl)
bytes_beq_iff [] (b ∷ ys) = (λ h. cc, λ h. cc)
bytes_beq_iff (a ∷ xs) [] = (λ h. cc, λ h. cc)
bytes_beq_iff (a ∷ xs) (b ∷ ys) = ground (arith, bytes_beq_iff xs ys)

instance abbrev pub bytes_eq : Eq Bytes
bytes_eq = record { beq = bytes_beq; beq_iff = bytes_beq_iff }

-- `packet.starts_with(prefix)`.
abbrev pub starts_with : Bytes → Bytes → Bool
starts_with packet [] = true
starts_with [] (b ∷ prefix) = false
starts_with (a ∷ packet) (b ∷ prefix) = a == b && starts_with packet prefix

-- The octets of an address: four, or sixteen.
pub data IpAddr : Type 0 where
  v4 : Bytes → IpAddr
  v6 : Bytes → IpAddr

-- A `SocketAddrV6` also has a flow label and a scope, which its equality compares.
pub data SocketAddr : Type 0 where
  v4 : (octets : Bytes) (port : ℕ) → SocketAddr
  v6 : (octets : Bytes) (port flowinfo scope_id : ℕ) → SocketAddr

abbrev pub socket_addr_beq : SocketAddr → SocketAddr → Bool
socket_addr_beq (SocketAddr.v4 o p) (SocketAddr.v4 o' p') = bytes_beq o o' && p == p'
socket_addr_beq (SocketAddr.v6 o p f s) (SocketAddr.v6 o' p' f' s') =
    bytes_beq o o' && p == p' && f == f' && s == s'
socket_addr_beq a b = false

pub socket_addr_beq_iff : (a b : SocketAddr) → (socket_addr_beq a b ≡ true) ↔ (a ≡ b)
socket_addr_beq_iff (SocketAddr.v4 o p) (SocketAddr.v4 o' p') = ground (arith, bytes_beq_iff o o')
socket_addr_beq_iff (SocketAddr.v4 o p) (SocketAddr.v6 o' p' f' s') = (λ h. cc, λ h. cc)
socket_addr_beq_iff (SocketAddr.v6 o p f s) (SocketAddr.v4 o' p') = (λ h. cc, λ h. cc)
socket_addr_beq_iff (SocketAddr.v6 o p f s) (SocketAddr.v6 o' p' f' s') =
    ground (arith, bytes_beq_iff o o')

instance abbrev pub socket_addr_eq : Eq SocketAddr
socket_addr_eq = record { beq = socket_addr_beq; beq_iff = socket_addr_beq_iff }

-- `SocketAddr::new`: flow label and scope are zero.
abbrev pub socket_addr : IpAddr → ℕ → SocketAddr
socket_addr (IpAddr.v4 octets) port = SocketAddr.v4 octets port
socket_addr (IpAddr.v6 octets) port = SocketAddr.v6 octets port 0 0

abbrev pub ip : SocketAddr → IpAddr
ip (SocketAddr.v4 octets port) = IpAddr.v4 octets
ip (SocketAddr.v6 octets port flowinfo scope_id) = IpAddr.v6 octets

abbrev pub port : SocketAddr → ℕ
port (SocketAddr.v4 octets p) = p
port (SocketAddr.v6 octets p flowinfo scope_id) = p

abbrev pub is_ipv4 : IpAddr → Bool
is_ipv4 (IpAddr.v4 octets) = true
is_ipv4 (IpAddr.v6 octets) = false

-- `::1` and 127.0.0.0/8.
abbrev pub is_loopback : IpAddr → Bool
is_loopback (IpAddr.v4 octets) = get_or octets 0 0 == 127
is_loopback (IpAddr.v6 octets) = bytes_beq octets (replicate 15 0 ++ 1 ∷ [])

abbrev pub is_unspecified : IpAddr → Bool
is_unspecified (IpAddr.v4 octets) = bytes_beq octets (replicate 4 0)
is_unspecified (IpAddr.v6 octets) = bytes_beq octets (replicate 16 0)

-- 224.0.0.0/4 and ff00::/8.
abbrev pub is_multicast : IpAddr → Bool
is_multicast (IpAddr.v4 octets) = leb 224 (get_or octets 0 0) && leb (get_or octets 0 0) 239
is_multicast (IpAddr.v6 octets) = get_or octets 0 0 == 0xff

-- The prefix of the IPv4-mapped addresses, `::ffff:0:0/96`.
abbrev pub mapped_prefix : Bytes
mapped_prefix = replicate 10 0 ++ 0xff ∷ 0xff ∷ []

-- `Ipv6Addr::to_ipv4_mapped`.
abbrev pub to_ipv4_mapped : Bytes → Option Bytes
to_ipv4_mapped octets =
    if bytes_beq (take 12 octets) mapped_prefix then some (drop 12 octets) else none

-- Every element is a byte.
abbrev pub IsBytes : Bytes → Type 0
IsBytes [] = Unit
IsBytes (b ∷ bs) = (b < 256) × IsBytes bs

-- What Rust's types guarantee of an address: the number of octets, bytes, and the width of fields.
abbrev pub IsAddr : SocketAddr → Type 0
IsAddr (SocketAddr.v4 octets port) = (length octets ≡ 4) × IsBytes octets × (port < 2 ^ 16)
IsAddr (SocketAddr.v6 octets port flowinfo scope_id) =
    (length octets ≡ 16)
    × IsBytes octets
    × (port < 2 ^ 16)
    × (flowinfo < 2 ^ 32)
    × (scope_id < 2 ^ 32)
