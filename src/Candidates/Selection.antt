-- ===== src/Candidates/Selection.antt =====
-- Which addresses `listen_for_peer_candidates` of src/candidates.rs selects from a message.
use p2p_tunnler.Prelude.{
  ◌+◌, ◌≤◌, ◌≡◌, ap, ◌∙◌, Bool, Bool-cases, inl, inr, true, not, ◌&&◌, ◌||◌, List, [], ◌∷◌, ◌==◌,
  if-elim, length, length-take, take, take-all, arith,
}
use p2p_tunnler.Net.{SocketAddr, socket_addr_eq, ip, is_ipv4}
use p2p_tunnler.Collections.Sets
use p2p_tunnler.Collections.Sets.{
  retain, collect, contains, IsNodup, IsNodup-collect, IsNodup-insert, length-collect-le,
  length-insert-le, contains-insert, contains-collect, contains-take, contains-retain,
  length-retain-le,
}
use p2p_tunnler.Candidates.Types.{max_remote_candidates}
use p2p_tunnler.Candidates.Filter.{is_usable_peer_addr, retained_known_connections}
use p2p_tunnler.Candidates.Listener.{ConnectionFlags, listed_peers, keep_known, updated_peers}

-- The family is one that the flags let through.
abbrev pub family_ok : Bool → SocketAddr → Bool
family_ok only_ipv4 addr = not only_ipv4 || is_ipv4 (ip addr)

pub length-listed_peers :
    (flags : ConnectionFlags) (xs : List SocketAddr) → length (listed_peers flags xs) ≤ 64
unfolding listed_peers
length-listed_peers flags xs =
    let kept = retain is_usable_peer_addr (retain (family_ok flags.filter_ipv6) xs) in
    ground (arith, length-collect-le (take 64 kept), length-take 64 kept)

pub IsNodup-listed_peers :
    (flags : ConnectionFlags) (xs : List SocketAddr) → IsNodup (listed_peers flags xs)
unfolding listed_peers
IsNodup-listed_peers flags xs =
    IsNodup-collect (take 64 (retain is_usable_peer_addr (retain (family_ok flags.filter_ipv6) xs)))

pub listed_peers-from :
    (flags : ConnectionFlags) (xs : List SocketAddr) (a : SocketAddr)
    → contains (listed_peers flags xs) a ≡ true
    → (contains xs a && family_ok flags.filter_ipv6 a && is_usable_peer_addr a) ≡ true
unfolding listed_peers
listed_peers-from flags xs a h =
    let inner = retain (family_ok flags.filter_ipv6) xs in
    let kept = retain is_usable_peer_addr inner in
    ground (
      arith,
      contains-collect (take 64 kept) a,
      contains-take 64 kept a,
      contains-retain is_usable_peer_addr inner a,
      contains-retain (family_ok flags.filter_ipv6) xs a,
    )

swap3 : (u f c : Bool) → (u && (f && c)) ≡ (c && f && u)
swap3 u f c = ground arith

pub listed_peers-all :
    (flags : ConnectionFlags) (xs : List SocketAddr) (a : SocketAddr)
    → length xs ≤ 64
    → contains (listed_peers flags xs) a
      ≡ (contains xs a && family_ok flags.filter_ipv6 a && is_usable_peer_addr a)
unfolding listed_peers
listed_peers-all flags xs a h =
    let inner = retain (family_ok flags.filter_ipv6) xs in
    let kept = retain is_usable_peer_addr inner in
    let short : length kept ≤ 64 = ground (
      arith,
      length-retain-le is_usable_peer_addr inner,
      length-retain-le (family_ok flags.filter_ipv6) xs,
    ) in
    let all : contains (collect (take 64 kept)) a ≡ contains kept a =
      contains-collect (take 64 kept) a ∙ ap (λ ys. contains ys a) (take-all 64 kept short) in
    rw
      (
        all,
        contains-retain is_usable_peer_addr inner a,
        contains-retain (family_ok flags.filter_ipv6) xs a,
      )
      (swap3 (is_usable_peer_addr a) (family_ok flags.filter_ipv6 a) (contains xs a))

length-keep_known : (xs ys : List SocketAddr) → length xs ≤ 64 → length (keep_known xs ys) ≤ 64
length-keep_known xs [] h = h
length-keep_known xs (y ∷ ys) h =
    ground (arith, length-keep_known (Sets.insert y xs) ys, length-insert-le y xs)

IsNodup-keep_known : (xs ys : List SocketAddr) → IsNodup xs → IsNodup (keep_known xs ys)
IsNodup-keep_known xs [] h = h
IsNodup-keep_known xs (y ∷ ys) h =
    if-elim IsNodup (length xs == max_remote_candidates) _ _ h
      (IsNodup-keep_known (Sets.insert y xs) ys (IsNodup-insert y xs h))

keep_known-from :
    (xs ys : List SocketAddr) (a : SocketAddr)
    → contains (keep_known xs ys) a ≡ true
    → (contains xs a || contains ys a) ≡ true
keep_known-from xs [] a h = ground arith
keep_known-from xs (y ∷ ys) a h =
    ground (arith, keep_known-from (Sets.insert y xs) ys a, contains-insert y a xs)

keep_known-keeps :
    (xs ys : List SocketAddr) (a : SocketAddr)
    → contains xs a ≡ true
    → contains (keep_known xs ys) a ≡ true
keep_known-keeps xs [] a h = h
keep_known-keeps xs (y ∷ ys) a h =
    ground (arith, keep_known-keeps (Sets.insert y xs) ys a, contains-insert y a xs)

-- The loop ends early only when the set is full.
keep_known-all :
    (xs ys : List SocketAddr) (a : SocketAddr)
    → length xs + length ys ≤ 64
    → contains (keep_known xs ys) a ≡ (contains xs a || contains ys a)
keep_known-all xs [] a h = ground arith
keep_known-all xs (y ∷ ys) a h =
    ground
      (arith, keep_known-all (Sets.insert y xs) ys a, contains-insert y a xs, length-insert-le y xs)

pub length-updated_peers :
    (flags : ConnectionFlags) (known xs : List SocketAddr)
    → length (updated_peers flags known xs) ≤ max_remote_candidates
unfolding updated_peers
length-updated_peers flags known xs =
    let listed = length-listed_peers flags xs in
    ground (
      arith,
      length-keep_known (listed_peers flags xs) (retained_known_connections known flags.filter_ipv6)
          listed,
    )

pub IsNodup-updated_peers :
    (flags : ConnectionFlags) (known xs : List SocketAddr) → IsNodup (updated_peers flags known xs)
unfolding updated_peers
IsNodup-updated_peers flags known xs =
    let listed = IsNodup-listed_peers flags xs in
    if-elim IsNodup flags.no_clear _ _
      (IsNodup-keep_known _ (retained_known_connections known flags.filter_ipv6) listed) listed

-- With at most 64 addresses in the message and without `no_clear`, exactly its usable addresses of an
-- allowed family are selected, however many are known; with `no_clear`, the known ones of an allowed
-- family as well, if with those of the message they are at most 64.
pub updated_peers-exact :
    (flags : ConnectionFlags) (known xs : List SocketAddr) (a : SocketAddr)
    → length xs ≤ max_remote_candidates
    → (flags.no_clear ≡ true
        → length (listed_peers flags xs)
            + length (retained_known_connections known flags.filter_ipv6)
          ≤ max_remote_candidates)
    → contains (updated_peers flags known xs) a ≡ (
        family_ok flags.filter_ipv6 a
        && ((contains xs a && is_usable_peer_addr a) || (flags.no_clear && contains known a)))
unfolding updated_peers retained_known_connections
updated_peers-exact flags known xs a h fits = elim (Bool-cases flags.no_clear) [
  | inl keeps ↦ ground (
    arith,
    listed_peers-all flags xs a h,
    keep_known-all (listed_peers flags xs) (retain (family_ok flags.filter_ipv6) known) a
        (fits keeps),
    contains-retain (family_ok flags.filter_ipv6) known a,
  )
  | inr clears ↦ ground (arith, listed_peers-all flags xs a h, clears)
]

-- Whatever a message holds, the addresses selected from it are at most 64, without repetition, and each
-- is of an allowed family, and is a usable address of the message or, with `no_clear`, a known one.
pub updated_peers_sound :
    (flags : ConnectionFlags) (known xs : List SocketAddr)
    → (length (updated_peers flags known xs) ≤ max_remote_candidates)
      × IsNodup (updated_peers flags known xs)
      × ((a : SocketAddr)
          → contains (updated_peers flags known xs) a ≡ true
          → (family_ok flags.filter_ipv6 a
              && ((contains xs a && is_usable_peer_addr a) || (flags.no_clear && contains known a)))
            ≡ true)
unfolding updated_peers retained_known_connections
updated_peers_sound flags known xs = (
  length-updated_peers flags known xs,
  IsNodup-updated_peers flags known xs,
  λ a h. ground (
    arith,
    listed_peers-from flags xs a,
    keep_known-from (listed_peers flags xs) (retain (family_ok flags.filter_ipv6) known) a,
    contains-retain (family_ok flags.filter_ipv6) known a,
  ),
)
