-- ===== src/Examples/AppRuns.antt =====
-- Runs of the commands of the program.
use p2p_tunnler.Prelude.{◌≡◌, refl, false, Option, List, [], ok}
use p2p_tunnler.Net.{SocketAddr}
use p2p_tunnler.Utils.Monitor.{Ending}
use p2p_tunnler.Candidates.Source.{Watch}
use p2p_tunnler.Config.{StunFlags, Command, CliConfig}
use p2p_tunnler.Service.Setup.{open_internet_socket}
use p2p_tunnler.App.{World, public_address, run}
use p2p_tunnler.App.Diagnostic.{IsReport, run-IsReport}
use p2p_tunnler.Examples.ConfigRuns.{willing, source, reader, host}
use p2p_tunnler.Examples.RecordRuns.{outside}

abbrev flags : StunFlags
flags = record { stun_addr = "stun.example:3478" }

abbrev cli : CliConfig
cli = record { verbose = false; command = Command.stun flags }

abbrev world : World
world = record {
  reader = reader;
  system = willing;
  source = source;
  host = host;
  outside = λ server. outside;
  watch = Watch.elapsed;
  dht = record { put_value = λ key value. false; get_values = λ key. [] };
  first_ended = ("UDP socket sender", Ending.returned);
  others = [];
}

run-IsReport_example :
    (o : Option (List SocketAddr)) × (run world cli ≡ ok (public_address o))
    × IsReport outside 40000 o
unfolding open_internet_socket
run-IsReport_example = run-IsReport world cli flags 40000 refl refl
