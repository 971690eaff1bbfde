-- ===== src/Stun/Client/Source.antt =====
-- Whose datagrams a request takes for the server's.
use p2p_tunnler.Prelude.{ℕ, ◌≡◌, ◌↔◌, ◌⊎◌, inl, inr, true, ◌++◌, arith}
use p2p_tunnler.Net.{Bytes, SocketAddr, socket_addr_beq_iff, mapped_prefix}
use p2p_tunnler.Net.Mapped.{to_ipv4_mapped_iff}
use p2p_tunnler.Stun.Client.{normalize_ipv4_mapped_source, is_expected_stun_source}

-- The address itself, or its IPv4-mapped form with any flow label and scope.
abbrev pub IsSeenAs : SocketAddr → Bytes → ℕ → Type 0
IsSeenAs source octets port =
    (source ≡ SocketAddr.v4 octets port)
    ⊎ ((flowinfo : ℕ) × (scope_id : ℕ) × (source
          ≡ SocketAddr.v6 (mapped_prefix ++ octets) port flowinfo scope_id))

-- An IPv6 source is seen as an IPv4 address if it is that address mapped.
normalize_v6 :
    (o octets : Bytes) (p port f s : ℕ)
    → (normalize_ipv4_mapped_source (SocketAddr.v6 o p f s) ≡ SocketAddr.v4 octets port)
      ↔ ((o ≡ mapped_prefix ++ octets) × (p ≡ port))
unfolding normalize_ipv4_mapped_source
normalize_v6 o octets p port f s = (
  λ e. ground (arith, (to_ipv4_mapped_iff o octets).0),
  λ (m, q). ground (arith, (to_ipv4_mapped_iff o octets).1 m),
)

normalized :
    (source : SocketAddr) (octets : Bytes) (port : ℕ)
    → (normalize_ipv4_mapped_source source ≡ SocketAddr.v4 octets port)
      ↔ IsSeenAs source octets port
unfolding normalize_ipv4_mapped_source
normalized (SocketAddr.v4 o p) octets port =
    (λ e. inl e, λ d. elim d [ inl e ↦ e | inr (f, s, e) ↦ absurd (cc) ])
normalized (SocketAddr.v6 o p f s) octets port = (
  λ e. let (m, q) = (normalize_v6 o octets p port f s).0 e in inr (f, s, cc (m, q)),
  λ d. elim d [
    | inl e ↦ absurd (cc)
    | inr (f', s', e) ↦ (normalize_v6 o octets p port f s).1 (ground arith)
  ],
)

-- A datagram counts as one of the IPv4 STUN server exactly when its source is the server's address and
-- port, as such or IPv4-mapped, whatever the flow label and the scope.
pub is_expected_stun_source_iff :
    (source : SocketAddr) (octets : Bytes) (port : ℕ)
    → (is_expected_stun_source source (SocketAddr.v4 octets port) ≡ true)
      ↔ IsSeenAs source octets port
unfolding is_expected_stun_source
is_expected_stun_source_iff source octets port =
    let same =
      socket_addr_beq_iff (normalize_ipv4_mapped_source source) (SocketAddr.v4 octets port) in
    let seen = normalized source octets port in (λ e. seen.0 (same.0 e), λ d. same.1 (seen.1 d))
