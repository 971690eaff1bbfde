-- ===== src/Examples/ClientRuns.antt =====
-- Runs of the STUN client and of the router.
use p2p_tunnler.Prelude.{◌<◌, ◌≡◌, ◌≢◌, ◌↔◌, List, [], ◌∷◌, ◌++◌, length, false, some, ok}
use p2p_tunnler.Net.{Bytes, SocketAddr, starts_with, mapped_prefix}
use p2p_tunnler.Stun.Codec.Types.{Response}
use p2p_tunnler.Stun.Client.{Wait, await_response}
use p2p_tunnler.Stun.Client.Answers.{FirstAnswer, await_response_iff}
use p2p_tunnler.Transport.Routing.{InternetPacketKind}
use p2p_tunnler.Probe.Frame.{magic, frame}
use p2p_tunnler.Service.Classify.{packet_kind}
use p2p_tunnler.Service.Kinds.{HasCookie, packet_kind_iff}
use p2p_tunnler.Examples.Data.{server, peer, answer, answered}

abbrev waits : List Wait
waits = Wait.received answer peer ∷ Wait.received answer server ∷ []

await_response_iff_example :
    (await_response 7 server waits ≡ some (ok (Response.bind answered)))
    ↔ FirstAnswer 7 server waits (Response.bind answered)
await_response_iff_example = await_response_iff 7 server (Response.bind answered) waits

-- ::ffff:192.0.2.1 with port 3478.
abbrev mapped_server : SocketAddr
mapped_server = SocketAddr.v6 (mapped_prefix ++ 192 ∷ 0 ∷ 2 ∷ 1 ∷ []) 3478 0 5

packet_kind_iff_example :
    ((packet_kind answer ≡ InternetPacketKind.probe)
      ↔ ((token : Bytes) × (length token ≡ 16) × (answer ≡ frame token)))
    × ((packet_kind answer ≡ InternetPacketKind.drop)
        ↔ ((rest : Bytes) × (length rest ≢ 16) × (answer ≡ magic ++ rest)))
    × ((packet_kind answer ≡ InternetPacketKind.stun)
        ↔ ((starts_with answer magic ≡ false) × (20 < length answer) × HasCookie answer))
packet_kind_iff_example = packet_kind_iff answer
