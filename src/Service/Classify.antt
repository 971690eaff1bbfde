-- ===== src/Service/Classify.antt =====
-- The closure in `setup_connection` of src/service.rs that classifies received datagrams.
use p2p_tunnler.Prelude.{◌&&◌, ◌==◌, ltb, if◌then◌else◌, length, slice}
use p2p_tunnler.Net.{Bytes, bytes_beq}
use p2p_tunnler.Wire.{to_be_bytes}
use p2p_tunnler.Stun.Codec.Decode.{cookie_word}
use p2p_tunnler.Probe.Frame.{frame_len, classify}
use p2p_tunnler.Transport.Routing.{InternetPacketKind}

unfoldable pub packet_kind : Bytes → InternetPacketKind
unfolding classify
packet_kind packet =
    if classify packet
    then (if length packet == frame_len then InternetPacketKind.probe else InternetPacketKind.drop)
    else if ltb 20 (length packet) && bytes_beq (slice 4 12 packet) (to_be_bytes 8 cookie_word)
    then InternetPacketKind.stun
    else InternetPacketKind.data_packet
