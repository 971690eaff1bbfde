-- ===== src/Examples/ConfigRuns.antt =====
-- Runs of the start of the program: the configuration, the gateway and the router's mapping, the key
-- generator, and the service until its first task ends.
use p2p_tunnler.Prelude.{
  map, ℕ, ◌≡◌, ◌≢◌, ◌↔◌, ◌⊎◌, ◌<◌, ◌^◌, refl, List, [], ◌∷◌, ◌++◌, replicate, none, some, true,
  false, ok, err, All, drop, if◌then◌else◌,
}
use p2p_tunnler.Net.{Bytes, IpAddr, bytes_beq}
use p2p_tunnler.Crypto.{decode_base64_key}
use p2p_tunnler.Crypto.Keys.{
  secret_key_from, public_key_from, to_string, public_key, generate_secret_key_base64,
}
use p2p_tunnler.Text.{codes}
use p2p_tunnler.Text.Numbers.{IsNumeral, from_str_radix, read_digits, to_digit}
use p2p_tunnler.Text.Split.{lines, split_whitespace}
use p2p_tunnler.Utils.Monitor.{Ending}
use p2p_tunnler.Keygen.{GenFlags, System, Effect, open_key_files, public_path}
use p2p_tunnler.Keygen.Generate.{
  Output, Source, Generated, generate, private_output, public_outputs, generate-done, opening,
  writing,
}
use p2p_tunnler.Nat.{Mapping, Method, mapping_worker}
use p2p_tunnler.Nat.Gateway.{
  parse_default_ipv4_gateway, IsDefaultRoute, parse_default_ipv4_gateway_iff,
}
use p2p_tunnler.Nat.Protocols.{
  NatError, PortMappingType, Outside, default_ipv4_gateway_and_client, try_pcp_natpmp, worker,
  map_udp_port, IsLeased, IsForwarded,
}
use p2p_tunnler.Nat.Obtained.{map_udp_port-ok}
use p2p_tunnler.Candidates.Listener.{ConnectionFlags}
use p2p_tunnler.Config.{RunCommand, Command, CliConfig}
use p2p_tunnler.Config.Ports.{parse_out_port, parse_out_port_iff}
use p2p_tunnler.Config.Files.{Reader, new}
use p2p_tunnler.Config.Loaded.{AreLoaded, new_iff}
use p2p_tunnler.Service.Startup.{P2PConnection}
use p2p_tunnler.Service.Setup.{RunError, Host, run}
use p2p_tunnler.Service.Setup.Ends.{Ends, run-Ends}
use p2p_tunnler.Examples.Data.{peer}

abbrev out_port : ℕ
out_port = 1025

parse_out_port_iff_example : (parse_out_port "1025" ≡ ok out_port) ↔ (
    IsNumeral 10 (codes "1025") out_port
    × ((out_port ≡ 0) ⊎ (1024 < out_port))
    × (out_port < 2 ^ 16))
parse_out_port_iff_example = parse_out_port_iff "1025" out_port

-- The table of the test in src/nat.rs.
abbrev route_table : List ℕ
route_table =
    codes
      "Iface\tDestination\tGateway\tFlags\nwlan0\t00000000\t0101A8C0\t0003\nwlan0\t0001A8C0\t00000000\t0001\n"

abbrev router : Bytes
router = 192 ∷ 168 ∷ 1 ∷ 1 ∷ []

router-read : parse_default_ipv4_gateway route_table ≡ some router
unfolding parse_default_ipv4_gateway lines split_whitespace from_str_radix read_digits to_digit
router-read = refl

parse_default_ipv4_gateway_iff_example : (parse_default_ipv4_gateway route_table ≡ some router) ↔ (
    (before : List (List ℕ)) × (line : List ℕ) × (after : List (List ℕ)) × (drop 1
        (lines route_table)
      ≡ before ++ line ∷ after)
    × All (λ skipped. (o : Bytes) → ¬ IsDefaultRoute (split_whitespace skipped) o) before
    × IsDefaultRoute (split_whitespace line) router)
parse_default_ipv4_gateway_iff_example = parse_default_ipv4_gateway_iff route_table router

-- A router without PCP that speaks NAT-PMP.
abbrev outside : Outside ℕ
outside = record {
  route_table = ok route_table;
  local_ip = λ gateway. ok (IpAddr.v4 (192 ∷ 168 ∷ 1 ∷ 20 ∷ []));
  build_runtime = ok tt;
  new_mapping = λ gateway client port. err (NatError.system 1);
  natpmp_mapping = λ gateway port.
      ok (record { mapping_type = PortMappingType.nat_pmp; external_port = port; lifetime = 7200 });
  natpmp_address = λ gateway. ok (192 ∷ 0 ∷ 2 ∷ 10 ∷ []);
  search_gateway = err (NatError.system 2);
  get_any_address = λ gateway local_addr lifetime. err (NatError.system 3);
}

abbrev mapped_port : ℕ
mapped_port = 12345

abbrev mapping : Mapping
mapping = record { external_addr = peer; method = Method.nat_pmp }

map_udp_port-ok_example :
    (mapped_port ≢ 0)
    × (IsLeased outside mapped_port mapping
        ⊎ ((e : NatError) × (try_pcp_natpmp outside mapped_port ≡ err e)
            × IsForwarded outside mapped_port mapping))
unfolding map_udp_port worker mapping_worker try_pcp_natpmp default_ipv4_gateway_and_client
    parse_default_ipv4_gateway lines split_whitespace from_str_radix read_digits to_digit
map_udp_port-ok_example = map_udp_port-ok outside mapped_port [] mapping refl

-- A pair of keys to the terminal, by a codec that knows only them.
abbrev secret : Bytes
secret = replicate 32 3

abbrev public : Bytes
public = replicate 32 4

abbrev pub source : Source
source = record {
  drawn = secret;
  crates = record {
    public_key_of = λ key. public;
    encode = λ bytes. if bytes_beq bytes secret then "secret" else "public";
    decode = λ text. if bytes_beq (codes text) (codes "secret") then some secret else some public;
  };
  writes = λ path. true;
  prints = true;
}

abbrev pub willing : System
willing = record { opens = λ path options. true; changes_mode = λ path mode. true }

abbrev to_stdout : GenFlags
to_stdout = record { path = none; pub_path = none; insecure_priv = false; override_files = false }

abbrev generated : Generated
generated = record { done = writing (Output.stdout "secret\n") ∷ [] }

generate-done_example :
    ((effects : List Effect) × (open_key_files willing to_stdout ≡ ok effects)
      × (generated.done
          ≡ map opening effects
            ++ writing (private_output none "secret")
              ∷ map writing (public_outputs (public_path none none) "public")))
    × (secret_key_from source.crates "secret" ≡ ok (record { bytes = secret }))
    × (public_key_from source.crates "public" ≡ ok (record { bytes = public }))
unfolding generate open_key_files secret_key_from decode_base64_key generate_secret_key_base64
    to_string public_key
generate-done_example = generate-done willing source to_stdout generated refl refl refl refl

-- A file with a connection whose key is in another file.
abbrev stored : P2PConnection
stored = record {
  secret_key = "file:own.key";
  peers = record { local_port = 10001; public_key = "theirs"; name = none } ∷ [];
}

abbrev pub reader : Reader
reader = record { read_to_string = λ path. some "own"; load = λ path. some stored }

abbrev loaded : P2PConnection
loaded = record stored { secret_key = "own" }

abbrev run_flags : ConnectionFlags
run_flags = record { filter_ipv6 = true; no_clear = false; out_port = 0; nat_map = false }

abbrev command : RunCommand
command = record {
  stun_flags = record { stun_addr = "stun.wtfismyip.com:3478" };
  dht_flags = record { bootstrap_addr = "bootstrap.jami.net:4222"; opendht_port = 4222 };
  connection_flags = run_flags;
  tunnels = record { directory = codes "./"; file_name = some (codes "tunnels") } ∷ [];
  connections = [];
}

abbrev configured : RunCommand
configured = record command { connections = loaded ∷ [] }

new_iff_example :
    (new reader (record { verbose = false; command = Command.run command })
      ≡ ok (record { verbose = false; command = Command.run configured }))
    ↔ ((connections : List P2PConnection) × AreLoaded reader command.tunnels connections
        × (◌≡◌ {A = CliConfig}
            (record { verbose = false; command = Command.run configured })
            (record {
              verbose = false;
              command = Command.run (record command { connections = connections });
            })))
new_iff_example =
    new_iff reader false command (record { verbose = false; command = Command.run configured }) refl

-- A decoder by which every text is a key, on a host that refuses nothing.
abbrev pub host : Host
host = record {
  base64_decode = λ text. some (replicate 32 1);
  new_dht = λ port. ok tt;
  lookup_host = λ server. ok tt;
  bootstrap = λ server. ok tt;
  new_socket = ok tt;
  set_dual_stack = ok tt;
  bind_internet = λ port. ok tt;
  into_tokio = ok tt;
  local_port = λ peer. ok 40000;
  bind_loopback = λ port. ok tt;
  router = outside;
}

run-Ends_example :
    (e : RunError) × (run host configured
        ("STUN candidate gathering", Ending.failed "no address")
        []
      ≡ err e)
    × Ends host configured "STUN candidate gathering" (Ending.failed "no address") e
run-Ends_example =
    run-Ends host configured "STUN candidate gathering" (Ending.failed "no address") []
