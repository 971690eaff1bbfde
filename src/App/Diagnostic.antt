-- ===== src/App/Diagnostic.antt =====
-- What the STUN diagnostic of src/app.rs shows.
use p2p_tunnler.Prelude.{ℕ, ◌≡◌, refl, ap, true, Option, none, some, List, [], ◌∷◌, Result, ok, err}
use p2p_tunnler.Net.{SocketAddr, socket_addr_eq, IpAddr, ip, is_ipv4}
use p2p_tunnler.Collections.Sets.{contains}
use p2p_tunnler.Candidates.Gather.{
  GatherError, Outside, stun_lookup, get_local_ipv6_addr, gather_round, is_own, local_of,
  gather_round-ok,
}
use p2p_tunnler.Candidates.Source.{
  Round, broadcast_direct, lookup_public_address, start_stun_candidates,
}
use p2p_tunnler.Config.{StunFlags, Command, CliConfig}
use p2p_tunnler.Config.Files.{new}
use p2p_tunnler.Service.Setup.{open_internet_socket}
use p2p_tunnler.App.{public_address, World, received, stun_round, run_stun, run}

-- What is shown of a round of the lookup at a port: nothing if it fails, and else exactly the local IPv6
-- address if there is one, and what STUN found at an IPv4 server.
pub IsReport : Outside → ℕ → Option (List SocketAddr) → Type 0
IsReport o local_port none = (e : GatherError) × (gather_round o local_port true none ≡ err e)
IsReport o local_port (some addresses) =
    (resolved : List SocketAddr) × (server : SocketAddr) × (local_ipv6 : Option IpAddr)
    × (o.lookup_host ≡ ok resolved)
    × (contains resolved server ≡ true)
    × (is_ipv4 (ip server) ≡ true)
    × (get_local_ipv6_addr o ≡ ok local_ipv6)
    × ((a : SocketAddr)
        → contains addresses a
          ≡ is_own (local_of true local_ipv6 local_port) none (stun_lookup o server) a)

abbrev reported : Result GatherError (List SocketAddr × ℕ) → Option (List SocketAddr)
reported (ok (addresses, delay)) = some addresses
reported (err e) = none

reported-IsReport :
    (o : Outside) (local_port : ℕ) (g : Result GatherError (List SocketAddr × ℕ))
    → gather_round o local_port true none ≡ g
    → IsReport o local_port (reported g)
unfolding IsReport
reported-IsReport o local_port (err e) h = (e, h)
reported-IsReport o local_port (ok (addresses, delay)) h =
    let (resolved, server, local_ipv6, found, inside, v4, local, exactly, after) =
      gather_round-ok o local_port true none addresses delay h in
    (resolved, server, local_ipv6, found, inside, v4, local refl, exactly)

received-round :
    (r : Round) (local_port : ℕ) (g : Result GatherError (List SocketAddr × ℕ))
    → gather_round r.outside local_port true none ≡ g
    → r.nat_mapping ≡ none
    → received (
        start_stun_candidates
          (record { local_port = local_port; gather_ipv6 = true; run_once = true })
          (r ∷ []))
      ≡ reported g
unfolding start_stun_candidates lookup_public_address broadcast_direct
received-round r local_port (err e) h m = rw (m, h) refl
received-round r local_port (ok (addresses, delay)) h m = rw (m, h) refl

-- If the socket of the STUN diagnostic opens, the command succeeds, whatever comes of the lookup. It
-- shows no addresses only if its one round fails, and else exactly the local IPv6 address if there is one,
-- and what STUN found at an IPv4 address of the server.
pub run-IsReport :
    (world : World) (cli : CliConfig) (flags : StunFlags) (local_port : ℕ)
    → cli.command ≡ Command.stun flags
    → open_internet_socket world.host 0 0 ≡ ok local_port
    → (o : Option (List SocketAddr)) × (run world cli ≡ ok (public_address o))
      × IsReport (world.outside flags.stun_addr) local_port o
unfolding run run_stun new
run-IsReport world cli flags local_port command opens =
    let round = stun_round world flags in
    let g = gather_round round.outside local_port true none in
    (
      reported g,
      rw (command, opens)
          (ap (λ o. ok (public_address o)) (received-round round local_port g refl refl)),
      reported-IsReport round.outside local_port g refl,
    )
