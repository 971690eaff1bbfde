-- ===== src/Nat.antt =====
-- src/nat.rs: the worker that asks the router for a mapping and keeps it, `mapping_worker` and its two
-- renewal loops. What the router protocols answer is a parameter; the log is left out.
pub mod Lease
pub mod Gateway
pub mod Protocols
pub mod Obtained
use p2p_tunnler.Prelude.{
  ℕ, ◌*◌, ◌/◌, max, Bool, true, false, Option, none, some, List, [], ◌∷◌, if◌then◌else◌,
}
use p2p_tunnler.Net.{SocketAddr}
use p2p_tunnler.Probe.Types.{from_secs}

abbrev pub mapping_lifetime_seconds : ℕ
mapping_lifetime_seconds = 7200

abbrev pub mapping_renewal_minimum : ℕ
mapping_renewal_minimum = from_secs 60

pub data Method : Type 0 where
  pcp nat_pmp upnp_igd : Method

-- What `Mapping` tells of the router's mapping, without its channels.
pub record Mapping : Type 0 where
  pub external_addr : SocketAddr
  pub method : Method

-- What a round of a renewal loop meets: the owner of the mapping has gone or asks to stop, where the router
-- takes the removal or fails it; or the wait is over and the router renews, for a number of seconds, or
-- refuses.
pub data Turn : Type 0 where
  shut_down : Bool → Turn
  renewed : ℕ → Turn
  renewal_failed : Turn

-- Where a loop is: in a wait, ended with the mapping removed, ended with a removal that the router failed,
-- which is only logged, or ended with `active` set to false.
pub data Ending : Type 0 where
  waiting removed removal_failed inactive : Ending

-- `remove_pcp_natpmp_mapping` and `remove_upnp_igd_mapping`, by whether the router takes the removal.
abbrev pub remove_mapping : Bool → Ending
remove_mapping true = removed
remove_mapping false = removal_failed

abbrev pub renewal_delay : ℕ → ℕ
renewal_delay lifetime = max (from_secs (lifetime / 2)) mapping_renewal_minimum

-- `renew_pcp_natpmp` from a lifetime in seconds: its waits, and where it is after the rounds.
unfoldable pub renew_pcp_natpmp : ℕ → List Turn → List ℕ × Ending
renew_pcp_natpmp lifetime [] = (renewal_delay lifetime ∷ [], waiting)
renew_pcp_natpmp lifetime (shut_down taken ∷ rest) =
    (renewal_delay lifetime ∷ [], remove_mapping taken)
renew_pcp_natpmp lifetime (renewal_failed ∷ rest) = (renewal_delay lifetime ∷ [], inactive)
renew_pcp_natpmp lifetime (renewed next ∷ rest) =
    let (waits, ending) = renew_pcp_natpmp next rest in (renewal_delay lifetime ∷ waits, ending)

-- `renew_upnp_igd`, which always asks for the same lifetime.
unfoldable pub renew_upnp_igd : List Turn → List ℕ × Ending
renew_upnp_igd [] = (from_secs (mapping_lifetime_seconds / 2) ∷ [], waiting)
renew_upnp_igd (shut_down taken ∷ rest) =
    (from_secs (mapping_lifetime_seconds / 2) ∷ [], remove_mapping taken)
renew_upnp_igd (renewal_failed ∷ rest) = (from_secs (mapping_lifetime_seconds / 2) ∷ [], inactive)
renew_upnp_igd (renewed next ∷ rest) =
    let (waits, ending) = renew_upnp_igd rest in
    (from_secs (mapping_lifetime_seconds / 2) ∷ waits, ending)

-- What the worker sends to its caller, an error as `none`, and where the mapping is if it got one.
pub record Worked : Type 0 where
  pub sent : Option Mapping
  pub ending : Option Ending

-- Whether the caller takes the worker's answer; if it has gone, whether the router takes the removal.
pub data Receipt : Type 0 where
  received : Receipt
  gone : Bool → Receipt

abbrev pub keep : Receipt → Ending → Ending
keep received ending = ending
keep (gone taken) ending = remove_mapping taken

abbrev pub work_upnp : Option SocketAddr → Receipt → List Turn → Worked
work_upnp none receipt turns = record { sent = none; ending = none }
work_upnp (some external_addr) receipt turns = record {
  sent = some (record { external_addr = external_addr; method = upnp_igd });
  ending = some (keep receipt (renew_upnp_igd turns).1);
}

-- `mapping_worker` over what `try_pcp_natpmp` gives, with its lifetime, what `try_upnp_igd` gives,
-- whether the caller still takes the answer, and the rounds of the loop.
unfoldable pub mapping_worker :
    Option (Mapping × ℕ) → Option SocketAddr → Receipt → List Turn → Worked
mapping_worker none upnp receipt turns = work_upnp upnp receipt turns
mapping_worker (some (mapping, lifetime)) upnp receipt turns = record {
  sent = some mapping;
  ending = some (keep receipt (renew_pcp_natpmp lifetime turns).1);
}
