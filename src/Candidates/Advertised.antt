-- ===== src/Candidates/Advertised.antt =====
-- What `listen_for_peer_candidates` of src/candidates.rs keeps of the advertised addresses.
use p2p_tunnler.Prelude.{
  ◌≤◌, ◌≡◌, Bool, true, not, ◌&&◌, Option, none, some, List, [], ◌∷◌, if-elim, length, arith,
}
use p2p_tunnler.Net.{SocketAddr, socket_addr_eq}
use p2p_tunnler.Collections.Sets.{contains, IsNodup, set_eq}
use p2p_tunnler.Transport.Candidates.{CandidateSet, replace_advertised}
use p2p_tunnler.Probe.Types.{Instant}
use p2p_tunnler.Candidates.Types.{Message, max_remote_candidates}
use p2p_tunnler.Candidates.Filter.{is_usable_peer_addr}
use p2p_tunnler.Candidates.Selection.{family_ok, updated_peers_sound}
use p2p_tunnler.Candidates.Listener.{
  Codecs, ConnectionFlags, Listener, Arrival, accept, updated_peers, apply_message, apply_accepted,
  listen, listen_all,
}

-- At most 64 addresses, none twice, each usable and of an allowed family.
pub record IsFiltered (only_ipv4 : Bool) (xs : List SocketAddr) : Type 0 where
  pub few : length xs ≤ max_remote_candidates
  pub distinct : IsNodup xs
  pub usable :
      (a : SocketAddr)
      → contains xs a ≡ true
      → (family_ok only_ipv4 a && is_usable_peer_addr a) ≡ true

IsFiltered-updated_peers :
    (flags : ConnectionFlags) (known xs : List SocketAddr)
    → IsFiltered flags.filter_ipv6 known
    → IsFiltered flags.filter_ipv6 (updated_peers flags known xs)
IsFiltered-updated_peers flags known xs v =
    let (few, distinct, from) = updated_peers_sound flags known xs in
    record { few = few; distinct = distinct; usable = λ a h. ground (arith, from a h, v.usable a) }

IsFiltered-after_accepted :
    (codecs : Codecs) (flags : ConnectionFlags) (instant : Instant) (found : Option Message)
    (l : Listener)
    → IsFiltered flags.filter_ipv6 l.connections.advertised
    → IsFiltered flags.filter_ipv6
        (apply_accepted codecs flags instant found l).connections.advertised
unfolding apply_message replace_advertised
IsFiltered-after_accepted codecs flags instant none l v = v
IsFiltered-after_accepted codecs flags instant (some m) l v =
    if-elim (λ (c : CandidateSet). IsFiltered flags.filter_ipv6 c.advertised)
      (not (
        set_eq l.connections.advertised
          (updated_peers flags l.connections.advertised m.ip_addr_list)))
      _ _ (IsFiltered-updated_peers flags l.connections.advertised m.ip_addr_list v) v

-- Whatever values arrive, the advertised addresses stay at most 64 without repetition, each usable and,
-- when IPv6 is filtered, IPv4.
pub listen_all-IsFiltered :
    (codecs : Codecs) (flags : ConnectionFlags) (arrivals : List Arrival) (l : Listener)
    → IsFiltered flags.filter_ipv6 l.connections.advertised
    → IsFiltered flags.filter_ipv6 (listen_all codecs flags arrivals l).connections.advertised
unfolding listen
listen_all-IsFiltered codecs flags [] l v = v
listen_all-IsFiltered codecs flags (a ∷ rest) l v =
    listen_all-IsFiltered codecs flags rest (listen codecs flags a l) (
      IsFiltered-after_accepted codecs flags a.instant
        (accept codecs a.now l.last_timestamp a.value) l v)
