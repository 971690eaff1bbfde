-- ===== src/Transport/Candidates/History.antt =====
-- The candidates of a peer over a history of DHT records and control probes.
use p2p_tunnler.Prelude.{◌≡◌, ◌≢◌, ◌↔◌, true, false, not, ◌&&◌, ◌||◌, List, [], ◌∷◌, length, arith}
use p2p_tunnler.Net.{SocketAddr, socket_addr_eq, socket_addr_beq, socket_addr_beq_iff}
use p2p_tunnler.Collections.Sets
use p2p_tunnler.Collections.Sets.{
  retain, collect, IsNodup, contains-append, contains-retain, IsNodup-retain, IsNodup-append,
  IsNodup-collect, contains-insert,
}
use p2p_tunnler.Transport.Candidates.{
  CandidateSet, default, contains, addresses, replace_advertised, add_peer_reflexive,
  max_peer_reflexive_candidates, IsValid, replace_advertised-IsValid, add_peer_reflexive-IsValid,
}

-- The addresses that packets are sent to: exactly the set's, and none of them twice.
pub addresses-contains :
    (c : CandidateSet)
    → IsValid c
    → IsNodup (addresses c)
      × ((address : SocketAddr) → Sets.contains (addresses c) address ≡ contains c address)
unfolding addresses contains
addresses-contains c v = (
  IsNodup-append c.advertised (fresh c) v.advertised
      (IsNodup-retain (λ a. not (Sets.contains c.advertised a)) c.peer_reflexive v.peer_reflexive)
      (λ a h.
        ground
          (arith, contains-retain (λ x. not (Sets.contains c.advertised x)) c.peer_reflexive a)),
  λ address. ground (
    arith,
    contains-append c.advertised (fresh c) address,
    contains-retain (λ x. not (Sets.contains c.advertised x)) c.peer_reflexive address,
  ),
)
  where
    fresh : CandidateSet → List SocketAddr
    fresh c = retain (λ x. not (Sets.contains c.advertised x)) c.peer_reflexive

-- A new source is admitted exactly when it is not yet a candidate and there is room; whatever the
-- answer, the advertised addresses stay, and the candidates are the old ones and the admitted source.
pub add_peer_reflexive_lem :
    (c : CandidateSet) (source : SocketAddr)
    → let (after, added) = add_peer_reflexive c source in
      ((added ≡ true)
        ↔ ((contains c source ≡ false) × (length c.peer_reflexive ≢ max_peer_reflexive_candidates)))
      × (after.advertised ≡ c.advertised)
      × ((address : SocketAddr)
          → contains after address
            ≡ (contains c address || (added && socket_addr_beq source address)))
unfolding add_peer_reflexive
add_peer_reflexive_lem c source = (
  (λ e. ground arith, λ h. ground arith),
  ground arith,
  λ address. ground (arith, contains-insert source address c.peer_reflexive),
)

-- What changes the candidates: a DHT record with new addresses, and a probe from a source.
pub data Change : Type 0 where
  advertise : List SocketAddr → Change
  admit : SocketAddr → Change

unfoldable pub apply : CandidateSet → Change → CandidateSet
apply c (advertise new) = replace_advertised c (collect new)
apply c (admit source) = (add_peer_reflexive c source).0

unfoldable pub run : CandidateSet → List Change → CandidateSet
unfolding apply
run c [] = c
run c (change ∷ rest) = run (apply c change) rest

apply-IsValid : (c : CandidateSet) (change : Change) → IsValid c → IsValid (apply c change)
unfolding apply
apply-IsValid c (advertise new) v =
    replace_advertised-IsValid c (collect new) (IsNodup-collect new) v
apply-IsValid c (admit source) v = add_peer_reflexive-IsValid c source v

run-IsValid : (c : CandidateSet) (changes : List Change) → IsValid c → IsValid (run c changes)
unfolding run
run-IsValid c [] v = v
run-IsValid c (change ∷ rest) v = run-IsValid (apply c change) rest (apply-IsValid c change v)

apply_keeps :
    (c : CandidateSet) (change : Change) (source : SocketAddr)
    → Sets.contains c.peer_reflexive source ≡ true
    → Sets.contains (apply c change).peer_reflexive source ≡ true
unfolding apply replace_advertised add_peer_reflexive
apply_keeps c (advertise new) source h = h
apply_keeps c (admit other) source h = ground (arith, contains-insert other source c.peer_reflexive)

run_keeps :
    (c : CandidateSet) (changes : List Change) (source : SocketAddr)
    → Sets.contains c.peer_reflexive source ≡ true
    → Sets.contains (run c changes).peer_reflexive source ≡ true
unfolding run
run_keeps c [] source h = h
run_keeps c (change ∷ rest) source h =
    run_keeps (apply c change) rest source (apply_keeps c change source h)

-- Whatever DHT records and probes come, in any order, both sets are free of repetitions and at most
-- 64 addresses are learned from probes.
pub run-default-IsValid : (changes : List Change) → IsValid (run default changes)
run-default-IsValid changes =
    run-IsValid default changes
      (record { advertised = tt; peer_reflexive = tt; bounded = omega arith })

learned :
    (c : CandidateSet) (source : SocketAddr)
    → (add_peer_reflexive c source).1 ≡ true
    → Sets.contains (add_peer_reflexive c source).0.peer_reflexive source ≡ true
unfolding add_peer_reflexive
learned c source h =
    ground
      (arith, contains-insert source source c.peer_reflexive, socket_addr_beq_iff source source)

-- A source that a probe has admitted stays a candidate, whatever is advertised or admitted later.
pub admitted_stays :
    (c : CandidateSet) (source : SocketAddr) (later : List Change)
    → (add_peer_reflexive c source).1 ≡ true
    → contains (run (add_peer_reflexive c source).0 later) source ≡ true
unfolding contains
admitted_stays c source later h =
    ground (arith, run_keeps (add_peer_reflexive c source).0 later source (learned c source h))
