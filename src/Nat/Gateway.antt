-- ===== src/Nat/Gateway.antt =====
-- The IPv4 gateway of the default route in src/nat.rs: `parse_default_ipv4_gateway` reads the table that
-- the kernel prints, in which an address is the hexadecimal number of its four bytes, lowest first.
use p2p_tunnler.Prelude.{
  ℕ, ◌/◌, ◌%◌, ◌<◌, ◌^◌, ◌≡◌, ◌≢◌, ◌↔◌, refl, ap, sym, ◌∙◌, Bool, not, ◌||◌, Option, none, some,
  List, [], ◌∷◌, ◌++◌, ◌==◌, if◌then◌else◌, drop, arith, Result, ok, err, All, All-mono, inl, inr,
  Option-cases,
}
use p2p_tunnler.Net.{Bytes, bytes_beq, bytes_beq_iff}
use p2p_tunnler.Text.Numbers.{ParseIntError, from_str_radix, IsNumeral, from_str_radix_iff}
use p2p_tunnler.Text.Split.{lines, split_whitespace, find_map, find_map-some, some-find_map}

-- `Result::ok`.
abbrev pub ok_of : Result ParseIntError ℕ → Option ℕ
ok_of (ok n) = some n
ok_of (err e) = none

-- `flags & 0x2 == 0`.
abbrev pub no_gateway_flag : ℕ → Bool
no_gateway_flag flags = (flags / 2) % 2 == 0

-- `u32::to_le_bytes`.
abbrev pub to_le_bytes : ℕ → Bytes
to_le_bytes n = n % 256 ∷ (n / 256) % 256 ∷ (n / 65536) % 256 ∷ (n / 16777216) % 256 ∷ []

-- `00000000`.
abbrev pub any_destination : List ℕ
any_destination = 48 ∷ 48 ∷ 48 ∷ 48 ∷ 48 ∷ 48 ∷ 48 ∷ 48 ∷ []

abbrev pub octets_of : Option ℕ → Option Bytes
octets_of none = none
octets_of (some gateway) = some (to_le_bytes gateway)

abbrev pub checked_gateway : List ℕ → List ℕ → Option ℕ → Option Bytes
checked_gateway destination gateway none = none
checked_gateway destination gateway (some flags) =
    if not (bytes_beq destination any_destination) || no_gateway_flag flags
    then none
    else octets_of (ok_of (from_str_radix 16 (2 ^ 32) gateway))

-- The closure over the fields of a line.
abbrev pub route_gateway : List (List ℕ) → Option Bytes
route_gateway [] = none
route_gateway (interface ∷ []) = none
route_gateway (interface ∷ destination ∷ []) = none
route_gateway (interface ∷ destination ∷ gateway ∷ []) = none
route_gateway (interface ∷ destination ∷ gateway ∷ flags ∷ others) =
    checked_gateway destination gateway (ok_of (from_str_radix 16 (2 ^ 16) flags))

unfoldable pub parse_default_ipv4_gateway : List ℕ → Option Bytes
parse_default_ipv4_gateway route_table =
    find_map (λ line. route_gateway (split_whitespace line)) (drop 1 (lines route_table))

-- The fields of a default route over a gateway: destination 0, the flag for a gateway, and the bytes of
-- the address as a number of 32 bits.
pub record IsDefaultRoute (fields : List (List ℕ)) (octets : Bytes) : Type 0 where
  pub interface : List ℕ
  pub gateway : List ℕ
  pub flags : List ℕ
  pub others : List (List ℕ)
  pub split : fields ≡ interface ∷ any_destination ∷ gateway ∷ flags ∷ others
  pub flag_bits : ℕ
  pub flags_read : IsNumeral 16 flags flag_bits
  pub flags_fit : flag_bits < 2 ^ 16
  pub over_gateway : (flag_bits / 2) % 2 ≢ 0
  pub address : ℕ
  pub gateway_read : IsNumeral 16 gateway address
  pub gateway_fits : address < 2 ^ 32
  pub bytes : to_le_bytes address ≡ octets

ok_of-some : (r : Result ParseIntError ℕ) (n : ℕ) → ok_of r ≡ some n → r ≡ ok n
ok_of-some (ok m) n h = cc
ok_of-some (err e) n h = absurd cc

gateway_route :
    (fields : List (List ℕ)) (octets : Bytes)
    → route_gateway fields ≡ some octets
    → IsDefaultRoute fields octets
gateway_route [] octets h = absurd cc
gateway_route (interface ∷ []) octets h = absurd cc
gateway_route (interface ∷ destination ∷ []) octets h = absurd cc
gateway_route (interface ∷ destination ∷ gateway ∷ []) octets h = absurd cc
gateway_route (interface ∷ destination ∷ gateway ∷ flags ∷ others) octets h =
    read (ok_of (from_str_radix 16 (2 ^ 16) flags)) refl h
  where
    octets_read :
        (o : Option ℕ)
        → octets_of o ≡ some octets
        → (n : ℕ) × (o ≡ some n) × (to_le_bytes n ≡ octets)
    octets_read none h' = absurd cc
    octets_read (some n) h' = (n, refl, cc)

    read :
        (o : Option ℕ)
        → ok_of (from_str_radix 16 (2 ^ 16) flags) ≡ o
        → checked_gateway destination gateway o ≡ some octets
        → IsDefaultRoute (interface ∷ destination ∷ gateway ∷ flags ∷ others) octets
    read none e h' = absurd cc
    read (some bits) e h' =
        let (flags_read, flags_fit) =
          (from_str_radix_iff 16 (2 ^ 16) (omega arith) flags bits (omega arith)).0
            (ok_of-some (from_str_radix 16 (2 ^ 16) flags) bits e) in
        let (n, read_n, bytes) =
          octets_read (ok_of (from_str_radix 16 (2 ^ 32) gateway)) (ground arith) in
        let (gateway_read, gateway_fits) =
          (from_str_radix_iff 16 (2 ^ 32) (omega arith) gateway n (omega arith)).0
            (ok_of-some (from_str_radix 16 (2 ^ 32) gateway) n read_n) in
        let same : destination ≡ any_destination =
          (bytes_beq_iff destination any_destination).0 (ground arith) in
        record {
          interface = interface;
          gateway = gateway;
          flags = flags;
          others = others;
          split = ap (λ d. interface ∷ d ∷ gateway ∷ flags ∷ others) same;
          flag_bits = bits;
          flags_read = flags_read;
          flags_fit = flags_fit;
          over_gateway = λ z. ground arith;
          address = n;
          gateway_read = gateway_read;
          gateway_fits = gateway_fits;
          bytes = bytes;
        }

route_gateway_found :
    (fields : List (List ℕ)) (octets : Bytes)
    → IsDefaultRoute fields octets
    → route_gateway fields ≡ some octets
route_gateway_found fields octets r =
    let flags_ok =
      (from_str_radix_iff 16 (2 ^ 16) (omega arith) r.flags r.flag_bits (omega arith)).1
        (r.flags_read, r.flags_fit) in
    let gateway_ok =
      (from_str_radix_iff 16 (2 ^ 32) (omega arith) r.gateway r.address (omega arith)).1
        (r.gateway_read, r.gateway_fits) in
    let flagged : checked_gateway any_destination r.gateway (some r.flag_bits) ≡ some octets =
      ground (arith, r.over_gateway, ap (λ x. octets_of (ok_of x)) gateway_ok, r.bytes) in
    ap route_gateway r.split
    ∙ ap (λ x. checked_gateway any_destination r.gateway (ok_of x)) flags_ok
    ∙ flagged

-- The gateway that is read is that of the first line below the heading whose fields are a default route
-- over a gateway; the lines before it, whatever they hold, are passed over.
pub parse_default_ipv4_gateway_iff :
    (route_table : List ℕ) (octets : Bytes)
    → (parse_default_ipv4_gateway route_table ≡ some octets) ↔ (
        (before : List (List ℕ)) × (line : List ℕ) × (after : List (List ℕ)) × (drop 1
            (lines route_table)
          ≡ before ++ line ∷ after)
        × All (λ skipped. (o : Bytes) → ¬ IsDefaultRoute (split_whitespace skipped) o) before
        × IsDefaultRoute (split_whitespace line) octets)
unfolding parse_default_ipv4_gateway
parse_default_ipv4_gateway_iff route_table octets = (
  λ h.
      let (before, line, after, cut, skipped, here) =
        find_map-some (λ l. route_gateway (split_whitespace l)) (drop 1 (lines route_table)) octets
          h in
      (
        before,
        line,
        after,
        cut,
        All-mono (λ l. route_gateway (split_whitespace l) ≡ none) NoRoute before
            (λ l e o r. none_is_not_some (sym e ∙ route_gateway_found (split_whitespace l) o r))
            skipped,
        gateway_route (split_whitespace line) octets here,
      ),
  λ (before, line, after, cut, skipped, here).
      ap (find_map (λ l. route_gateway (split_whitespace l))) cut
      ∙ some-find_map (λ l. route_gateway (split_whitespace l)) before line after octets
          (All-mono NoRoute (λ l. route_gateway (split_whitespace l) ≡ none) before
            (λ l never. unread (split_whitespace l) never) skipped)
          (route_gateway_found (split_whitespace line) octets here),
)
  where
    NoRoute : List ℕ → Type 0
    NoRoute l = (o : Bytes) → ¬ IsDefaultRoute (split_whitespace l) o

    none_is_not_some : {o : Bytes} → ◌≡◌ {A = Option Bytes} none (some o) → ⊥
    none_is_not_some e = cc

    unread :
        (fields : List (List ℕ))
        → ((o : Bytes) → ¬ IsDefaultRoute fields o)
        → route_gateway fields ≡ none
    unread fields never = elim (Option-cases (route_gateway fields)) [
      | inl e ↦ e
      | inr (o, e) ↦ absurd (never o (gateway_route fields o e))
    ]
