-- ===== src/Net/Mapped.antt =====
-- The IPv4-mapped IPv6 addresses, `::ffff:a.b.c.d`.
use p2p_tunnler.Prelude.{◌≡◌, ◌↔◌, sym, ap, ◌∙◌, some, ◌++◌, take, drop, take-append-drop, arith}
use p2p_tunnler.Net.{Bytes, bytes_beq_iff, to_ipv4_mapped, mapped_prefix}

to_ipv4_mapped-some :
    (octets v4 : Bytes) → to_ipv4_mapped octets ≡ some v4 → octets ≡ mapped_prefix ++ v4
to_ipv4_mapped-some octets v4 e =
    let (front, rest) = parts in sym (take-append-drop 12 octets) ∙ cc (front, rest)
  where
    parts : (take 12 octets ≡ mapped_prefix) × (drop 12 octets ≡ v4)
    parts = ground (arith, bytes_beq_iff (take 12 octets) mapped_prefix)

-- The octets after the prefix, and nothing for other addresses.
pub to_ipv4_mapped_iff :
    (octets v4 : Bytes) → (to_ipv4_mapped octets ≡ some v4) ↔ (octets ≡ mapped_prefix ++ v4)
to_ipv4_mapped_iff octets v4 = (to_ipv4_mapped-some octets v4, λ e. ap to_ipv4_mapped e)
