-- ===== src/Candidates/Source.antt =====
-- The source of own candidates in src/candidates.rs: the loop of `lookup_public_address` with the pauses of
-- `wait_for_next_stun_attempt`, and the channel that `start_stun_candidates` makes.
use p2p_tunnler.Prelude.{
  ℕ, ◌+◌, ◌≡◌, refl, ap, subst, ◌∙◌, Bool, true, false, Option, none, some, List, [], ◌∷◌,
  if◌then◌else◌, arith, Result, ok, err, ◌>>=◌, >>=-eq-ok, ok-injective,
}
use p2p_tunnler.Net.{SocketAddr}
use p2p_tunnler.Candidates.Gather.{Mapping, GatherError, Outside, gather_round}

-- How a wait for a change of the mapping ends: the time is up, the router's worker has changed it, or it
-- has gone, the last two after some time.
pub data Watch : Type 0 where
  elapsed : Watch
  changed : ℕ → Watch
  gone : ℕ → Watch

-- The time that `wait_for_next_stun_attempt` takes.
unfoldable pub wait_for_next_stun_attempt : Option Mapping → ℕ → Watch → ℕ
wait_for_next_stun_attempt none delay watch = delay
wait_for_next_stun_attempt (some mapping) delay elapsed = delay
wait_for_next_stun_attempt (some mapping) delay (changed after) = after
wait_for_next_stun_attempt (some mapping) delay (gone after) = after + delay

-- `broadcast(1)` with overflow: a new value takes the place of one that was not received.
pub record Broadcast : Type 0 where
  pub held : Option (List SocketAddr)
  pub closed : Bool

abbrev pub new_broadcast : Broadcast
new_broadcast = record { held = none; closed = false }

unfoldable pub broadcast_direct : Broadcast → List SocketAddr → Result GatherError Broadcast
broadcast_direct b addresses =
    if b.closed then err GatherError.no_receivers else ok (record b { held = some addresses })

-- What a round of the loop meets: the system, the router's mapping, and the wait after it.
pub record Round : Type 0 where
  pub outside : Outside
  pub nat_mapping : Option Mapping
  pub watch : Watch

-- What the loop has broadcast and how long it has waited, and whether it has returned.
pub record Lookups : Type 0 where
  pub candidates : Broadcast
  pub broadcasts : List (List SocketAddr)
  pub waits : List ℕ
  pub returned : Bool

abbrev pub prepend : List SocketAddr → ℕ → Lookups → Lookups
prepend addresses wait l = record l {
  broadcasts = addresses ∷ l.broadcasts;
  waits = wait ∷ l.waits;
}

module _ (local_port : ℕ) (gather_ipv6 run_once : Bool) where
  -- `lookup_public_address` over the rounds that it makes; after the last it is still running.
  unfoldable pub lookup_public_address : List Round → Broadcast → Result GatherError Lookups
  lookup_public_address [] candidates =
      ok (record { candidates = candidates; broadcasts = []; waits = []; returned = false })
  lookup_public_address (r ∷ rounds) candidates = do
    (addresses, delay) ← gather_round r.outside local_port gather_ipv6 r.nat_mapping
    candidates' ← broadcast_direct candidates addresses
    let wait = wait_for_next_stun_attempt r.nat_mapping delay r.watch
    let rest = lookup_public_address rounds candidates'
    if run_once
        then ok (record {
          candidates = candidates';
          broadcasts = addresses ∷ [];
          waits = wait ∷ [];
          returned = true;
        })
        else do l ← rest; ok (prepend addresses wait l)

-- What the wiring hands to the task: its sockets and the router's mapping are in the rounds.
pub record StunSetup : Type 0 where
  pub local_port : ℕ
  pub gather_ipv6 : Bool
  pub run_once : Bool

-- The task that `start_stun_candidates` spawns, on the channel that it makes.
unfoldable pub start_stun_candidates : StunSetup → List Round → Result GatherError Lookups
start_stun_candidates setup rounds =
    lookup_public_address setup.local_port setup.gather_ipv6 setup.run_once rounds new_broadcast

-- Each round in order: what it gathers is broadcast, and it is followed by the pause for its delay.
pub AreRounds : ℕ → Bool → List Round → List (List SocketAddr) → List ℕ → Type 0
AreRounds local_port gather_ipv6 [] [] [] = Unit
AreRounds local_port gather_ipv6 (r ∷ rounds) (addresses ∷ broadcasts) (wait ∷ waits) =
    ((delay : ℕ) × (gather_round r.outside local_port gather_ipv6 r.nat_mapping
        ≡ ok (addresses, delay))
      × (wait ≡ wait_for_next_stun_attempt r.nat_mapping delay r.watch))
    × AreRounds local_port gather_ipv6 rounds broadcasts waits
AreRounds local_port gather_ipv6 rounds broadcasts waits = ⊥

abbrev pub latest : Option (List SocketAddr) → List (List SocketAddr) → Option (List SocketAddr)
latest held [] = held
latest held (addresses ∷ broadcasts) = latest (some addresses) broadcasts

broadcast-ok :
    (b b' : Broadcast) (addresses : List SocketAddr)
    → broadcast_direct b addresses ≡ ok b'
    → b'.held ≡ some addresses
unfolding broadcast_direct
broadcast-ok b b' addresses h = ground arith

-- Unless it runs once, the source of own candidates only ends by an error: it has then made every round in
-- order, each with its broadcast and its pause, and the channel holds what the last round gathered.
pub lookup_public_address-rounds :
    (local_port : ℕ) (gather_ipv6 : Bool) (rounds : List Round) (candidates : Broadcast)
    (l : Lookups)
    → lookup_public_address local_port gather_ipv6 false rounds candidates ≡ ok l
    → (l.returned ≡ false)
      × AreRounds local_port gather_ipv6 rounds l.broadcasts l.waits
      × (l.candidates.held ≡ latest candidates.held l.broadcasts)
unfolding lookup_public_address AreRounds
lookup_public_address-rounds local_port gather_ipv6 [] candidates l h =
    subst
      (λ x.
        (x.returned ≡ false)
        × AreRounds local_port gather_ipv6 [] x.broadcasts x.waits
        × (x.candidates.held ≡ latest candidates.held x.broadcasts))
      (ok-injective h) (refl, tt, refl)
lookup_public_address-rounds local_port gather_ipv6 (r ∷ rounds) candidates l h =
    let ((addresses, delay), gathered, h1) =
      >>=-eq-ok (gather_round r.outside local_port gather_ipv6 r.nat_mapping) _ h in
    let (candidates', sent, h2) = >>=-eq-ok (broadcast_direct candidates addresses) _ h1 in
    let (m, rest, h3) =
      >>=-eq-ok (lookup_public_address local_port gather_ipv6 false rounds candidates') _ h2 in
    let (running, are, held) =
      lookup_public_address-rounds local_port gather_ipv6 rounds candidates' m rest in
    subst
      (λ x.
        (x.returned ≡ false)
        × AreRounds local_port gather_ipv6 (r ∷ rounds) x.broadcasts x.waits
        × (x.candidates.held ≡ latest candidates.held x.broadcasts))
      (ok-injective h3)
      (
        running,
        ((delay, gathered, refl), are),
        held ∙ ap (λ o. latest o m.broadcasts) (broadcast-ok candidates candidates' addresses sent),
      )
