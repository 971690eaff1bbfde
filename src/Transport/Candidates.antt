-- ===== src/Transport/Candidates.antt =====
-- `CandidateSet` of src/transport.rs.
pub mod History
pub mod Reference
use p2p_tunnler.Prelude.{
  ℕ, ◌≤◌, ◌<◌, ◌≡◌, refl, ap, ◌∙◌, Bool, true, false, not, ◌&&◌, ◌||◌, List, [], ◌∷◌, ◌++◌, ◌==◌,
  if◌then◌else◌, length, arith, Eq, length-append,
}
use p2p_tunnler.Net.{SocketAddr, socket_addr_eq}
use p2p_tunnler.Collections.Sets
use p2p_tunnler.Collections.Sets.{
  retain, insert, IsNodup, contains-append, contains-retain, IsNodup-retain, IsNodup-insert,
  contains-insert, length-insert-le,
}

abbrev pub max_peer_reflexive_candidates : ℕ
max_peer_reflexive_candidates = 64

pub record CandidateSet : Type 0 where
  pub advertised : List SocketAddr
  pub peer_reflexive : List SocketAddr

abbrev pub default : CandidateSet
default = record { advertised = []; peer_reflexive = [] }

unfoldable pub contains : CandidateSet → SocketAddr → Bool
contains c address = Sets.contains c.advertised address || Sets.contains c.peer_reflexive address

unfoldable pub addresses : CandidateSet → List SocketAddr
addresses c =
    c.advertised ++ retain (λ address. not (Sets.contains c.advertised address)) c.peer_reflexive

unfoldable pub replace_advertised : CandidateSet → List SocketAddr → CandidateSet
replace_advertised c addresses = record c { advertised = addresses }

-- The candidates afterwards, and whether the address was added.
unfoldable pub add_peer_reflexive : CandidateSet → SocketAddr → CandidateSet × Bool
unfolding contains
add_peer_reflexive c address =
    if contains c address || length c.peer_reflexive == max_peer_reflexive_candidates
    then (c, false)
    else (
      record c { peer_reflexive = insert address c.peer_reflexive },
      not (Sets.contains c.peer_reflexive address),
    )

-- Both sets without repetitions, and the learned addresses within their limit.
pub record IsValid (c : CandidateSet) : Type 0 where
  pub advertised : IsNodup c.advertised
  pub peer_reflexive : IsNodup c.peer_reflexive
  pub bounded : length c.peer_reflexive ≤ max_peer_reflexive_candidates

pub replace_advertised-IsValid :
    (c : CandidateSet) (new : List SocketAddr)
    → IsNodup new
    → IsValid c
    → IsValid (replace_advertised c new)
unfolding replace_advertised
replace_advertised-IsValid c new h v = record {
  advertised = h;
  peer_reflexive = v.peer_reflexive;
  bounded = v.bounded;
}

pub add_peer_reflexive-IsValid :
    (c : CandidateSet) (address : SocketAddr) → IsValid c → IsValid (add_peer_reflexive c address).0
unfolding add_peer_reflexive
add_peer_reflexive-IsValid c address v = ground arith
