-- ===== src/Nat/Lease.antt =====
-- How a mapping on the router ends in src/nat.rs.
use p2p_tunnler.Prelude.{
  ℕ, ◌+◌, ◌≤◌, ◌<◌, ◌≡◌, ◌↔◌, refl, ap, true, false, Option, none, some, List, [], ◌∷◌, arith,
}
use p2p_tunnler.Net.{SocketAddr}
use p2p_tunnler.Probe.Types.{from_secs}
use p2p_tunnler.Nat.{
  Mapping, Method, Receipt, Turn, Ending, renewal_delay, renew_pcp_natpmp, renew_upnp_igd,
  mapping_worker,
}

-- The router renews a number of times, each time for a number of seconds.
abbrev pub renewals : List ℕ → List Turn → List Turn
renewals [] rest = rest
renewals (n ∷ ns) rest = Turn.renewed n ∷ renewals ns rest

-- What must have happened for each ending: only renewals so far, or renewals and then the owner's end, by
-- what the router answers to the removal, or a refusal.
pub Ended : List Turn → Ending → Type 0
Ended turns Ending.waiting = (ns : List ℕ) × (turns ≡ renewals ns [])
Ended turns Ending.removed =
    (ns : List ℕ) × (rest : List Turn) × (turns ≡ renewals ns (Turn.shut_down true ∷ rest))
Ended turns Ending.removal_failed =
    (ns : List ℕ) × (rest : List Turn) × (turns ≡ renewals ns (Turn.shut_down false ∷ rest))
Ended turns Ending.inactive =
    (ns : List ℕ) × (rest : List Turn) × (turns ≡ renewals ns (Turn.renewal_failed ∷ rest))

renewed_more :
    (n : ℕ) (turns : List Turn) (e : Ending) → Ended turns e → Ended (Turn.renewed n ∷ turns) e
unfolding Ended
renewed_more n turns Ending.waiting (ns, eq) = (n ∷ ns, ap (◌∷◌ (Turn.renewed n)) eq)
renewed_more n turns Ending.removed (ns, rest, eq) = (n ∷ ns, rest, ap (◌∷◌ (Turn.renewed n)) eq)
renewed_more n turns Ending.removal_failed (ns, rest, eq) =
    (n ∷ ns, rest, ap (◌∷◌ (Turn.renewed n)) eq)
renewed_more n turns Ending.inactive (ns, rest, eq) = (n ∷ ns, rest, ap (◌∷◌ (Turn.renewed n)) eq)

pcp_ends : (lifetime : ℕ) (turns : List Turn) → Ended turns (renew_pcp_natpmp lifetime turns).1
unfolding renew_pcp_natpmp Ended
pcp_ends lifetime [] = ([], refl)
pcp_ends lifetime (Turn.shut_down true ∷ rest) = ([], rest, refl)
pcp_ends lifetime (Turn.shut_down false ∷ rest) = ([], rest, refl)
pcp_ends lifetime (Turn.renewal_failed ∷ rest) = ([], rest, refl)
pcp_ends lifetime (Turn.renewed n ∷ rest) = renewed_more n rest _ (pcp_ends n rest)

upnp_ends : (turns : List Turn) → Ended turns (renew_upnp_igd turns).1
unfolding renew_upnp_igd Ended
upnp_ends [] = ([], refl)
upnp_ends (Turn.shut_down true ∷ rest) = ([], rest, refl)
upnp_ends (Turn.shut_down false ∷ rest) = ([], rest, refl)
upnp_ends (Turn.renewal_failed ∷ rest) = ([], rest, refl)
upnp_ends (Turn.renewed n ∷ rest) = renewed_more n rest _ (upnp_ends rest)

-- The wait is at least a minute, and the renewal is due by half of a lifetime of two minutes or more.
abbrev pub InTime : ℕ → List Turn → List ℕ → Type 0
InTime lifetime turns [] = Unit
InTime lifetime [] (wait ∷ waits) =
    (from_secs 60 ≤ wait) × (120 ≤ lifetime → wait + wait ≤ from_secs lifetime)
InTime lifetime (Turn.renewed n ∷ rest) (wait ∷ waits) =
    (from_secs 60 ≤ wait)
    × (120 ≤ lifetime → wait + wait ≤ from_secs lifetime)
    × InTime n rest waits
InTime lifetime (turn ∷ rest) (wait ∷ waits) =
    (from_secs 60 ≤ wait) × (120 ≤ lifetime → wait + wait ≤ from_secs lifetime)

delay_ok :
    (lifetime : ℕ)
    → (from_secs 60 ≤ renewal_delay lifetime)
      × (120 ≤ lifetime → renewal_delay lifetime + renewal_delay lifetime ≤ from_secs lifetime)
delay_ok lifetime = (omega arith, λ h. omega arith)

-- A loop of PCP or NAT-PMP waits at least a minute before each renewal, and renews by half of each
-- lifetime that the router grants if that is two minutes or more.
pub renew_pcp_natpmp-InTime :
    (lifetime : ℕ) (turns : List Turn) → InTime lifetime turns (renew_pcp_natpmp lifetime turns).0
unfolding renew_pcp_natpmp
renew_pcp_natpmp-InTime lifetime [] = delay_ok lifetime
renew_pcp_natpmp-InTime lifetime (Turn.shut_down taken ∷ rest) = delay_ok lifetime
renew_pcp_natpmp-InTime lifetime (Turn.renewal_failed ∷ rest) = delay_ok lifetime
renew_pcp_natpmp-InTime lifetime (Turn.renewed n ∷ rest) =
    let (low, half) = delay_ok lifetime in (low, half, renew_pcp_natpmp-InTime n rest)

-- The mapping that the worker has: that of PCP or NAT-PMP, or else that of UPnP.
abbrev pub obtained : Option (Mapping × ℕ) → Option SocketAddr → Option Mapping
obtained (some (mapping, lifetime)) upnp = some mapping
obtained none (some external_addr) =
    some (record { external_addr = external_addr; method = Method.upnp_igd })
obtained none none = none

-- What the ending of a mapping means: without a mapping there is none; if the caller has gone, it is the
-- router's answer to the removal; else the rounds led to it.
pub IsEnding : Option Mapping → Receipt → List Turn → Option Ending → Type 0
IsEnding none receipt turns ending = ending ≡ none
IsEnding (some m) (Receipt.gone true) turns ending = ending ≡ some Ending.removed
IsEnding (some m) (Receipt.gone false) turns ending = ending ≡ some Ending.removal_failed
IsEnding (some m) Receipt.received turns ending = (e : Ending) × (ending ≡ some e) × Ended turns e

-- The worker hands out the mapping of PCP or NAT-PMP if it got one, and else that of UPnP if it got one.
-- If the caller has gone, it asks the router at once to remove the mapping. Otherwise it holds it as long
-- as all renewals succeed; it asks for the removal if the owner stops or goes after renewals only, and
-- says that it is inactive, without a removal, if a renewal is refused first. A removal may fail, and then
-- the mapping is not removed.
pub mapping_worker-IsEnding :
    (lease : Option (Mapping × ℕ)) (upnp : Option SocketAddr) (receipt : Receipt)
    (turns : List Turn)
    → ((mapping_worker lease upnp receipt turns).sent ≡ obtained lease upnp)
      × IsEnding
          (obtained lease upnp)
          receipt
          turns
          (mapping_worker lease upnp receipt turns).ending
unfolding mapping_worker IsEnding
mapping_worker-IsEnding none none receipt turns = (refl, refl)
mapping_worker-IsEnding none (some a) Receipt.received turns =
    (refl, ((renew_upnp_igd turns).1, refl, upnp_ends turns))
mapping_worker-IsEnding none (some a) (Receipt.gone true) turns = (refl, refl)
mapping_worker-IsEnding none (some a) (Receipt.gone false) turns = (refl, refl)
mapping_worker-IsEnding (some (m, lifetime)) upnp Receipt.received turns =
    (refl, ((renew_pcp_natpmp lifetime turns).1, refl, pcp_ends lifetime turns))
mapping_worker-IsEnding (some (m, lifetime)) upnp (Receipt.gone true) turns = (refl, refl)
mapping_worker-IsEnding (some (m, lifetime)) upnp (Receipt.gone false) turns = (refl, refl)

-- A mapping is renewed before its lifetime, in seconds, is over exactly if the router gave it more than a
-- minute; the first wait of the loop for PCP and NAT-PMP is that delay, and is at least a minute.
pub renew_pcp_natpmp-in_time :
    (lifetime : ℕ) (turns : List Turn)
    → (wait : ℕ) × (later : List ℕ) × ((renew_pcp_natpmp lifetime turns).0 ≡ wait ∷ later)
      × (from_secs 60 ≤ wait)
      × ((wait < from_secs lifetime) ↔ (60 < lifetime))
unfolding renew_pcp_natpmp
renew_pcp_natpmp-in_time lifetime turns =
    let (later, e) = first_wait turns in
    (renewal_delay lifetime, later, e, omega arith, (λ h. omega arith, λ h. omega arith))
  where
    first_wait :
        (turns : List Turn)
        → (later : List ℕ) × ((renew_pcp_natpmp lifetime turns).0 ≡ renewal_delay lifetime ∷ later)
    first_wait [] = ([], refl)
    first_wait (Turn.shut_down taken ∷ rest) = ([], refl)
    first_wait (Turn.renewal_failed ∷ rest) = ([], refl)
    first_wait (Turn.renewed next ∷ rest) = ((renew_pcp_natpmp next rest).0, refl)
