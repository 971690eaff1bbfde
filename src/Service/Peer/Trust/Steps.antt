-- ===== src/Service/Peer/Trust/Steps.antt =====
-- The rounds of the tasks of src/service.rs, over any history.
use p2p_tunnler.Prelude.{
  ◌≡◌, refl, ap, ◌∙◌, true, ◌&&◌, Bool-cases, Option, none, some, ◌⊎◌, inl, inr, arith,
}
use p2p_tunnler.Net.{Bytes, SocketAddr, socket_addr_eq}
use p2p_tunnler.Collections.Sets
use p2p_tunnler.Transport.Candidates.{contains, replace_advertised}
use p2p_tunnler.Probe.Types.{Instant}
use p2p_tunnler.Probe.Frame.{parse_frame}
use p2p_tunnler.Probe.Controller.{update_remote}
use p2p_tunnler.Candidates.Types.{Message}
use p2p_tunnler.Candidates.Filter.{is_usable_peer_addr, is_fresh_dht_timestamp}
use p2p_tunnler.Candidates.Listener.{
  Codecs, ConnectionFlags, Listener, Arrival, accept, listen, apply_message, apply_accepted,
}
use p2p_tunnler.Candidates.Replay.{message_of, checked-some}
use p2p_tunnler.Candidates.Selection.{family_ok, updated_peers_sound}
use p2p_tunnler.Service.Peer.{Event}
use p2p_tunnler.Service.Peer.Trust.{IsReceipt, Vouches, IsListed}

module _ (codecs : Codecs) (flags : ConnectionFlags) (token : Bytes) where
  -- A received frame of the token vouches for its source.
  pub receipt-Vouches :
      (packet : Bytes) (source a : SocketAddr)
      → parse_frame packet ≡ some token
      → source ≡ a
      → (event : Event) → IsReceipt packet source event
      → Vouches codecs flags token a event
  receipt-Vouches packet source a parsed same (Event.received bytes from) (is, normal) =
      (ap parse_frame is ∙ parsed, normal ∙ same)
  receipt-Vouches packet source a parsed same Event.routed h = absurd h
  receipt-Vouches packet source a parsed same (Event.control now percent) h = absurd h
  receipt-Vouches packet source a parsed same (Event.scheduled now percent) h = absurd h
  receipt-Vouches packet source a parsed same (Event.stun_request bytes server) h = absurd h
  receipt-Vouches packet source a parsed same Event.stun_response h = absurd h
  receipt-Vouches packet source a parsed same Event.inbound h = absurd h
  receipt-Vouches packet source a parsed same (Event.written bytes from) h = absurd h
  receipt-Vouches packet source a parsed same Event.outbound h = absurd h
  receipt-Vouches packet source a parsed same (Event.value arrival) h = absurd h
  receipt-Vouches packet source a parsed same Event.sent h = absurd h
  receipt-Vouches packet source a parsed same Event.delivered h = absurd h

  -- What a value adds to the candidates, it lists.
  listed :
      (arrival : Arrival) (l : Listener) (found : Option Message) (a : SocketAddr)
      → ((m : Message)
          → found ≡ some m
          → (message_of codecs arrival.value ≡ some m)
            × (is_fresh_dht_timestamp m.timestamp arrival.now ≡ true))
      → contains (apply_accepted codecs flags arrival.instant found l).connections a ≡ true
      → (contains l.connections a ≡ true) ⊎ IsListed codecs flags a arrival
  unfolding apply_message replace_advertised contains
  listed arrival l none a checks h = inl h
  listed arrival l (some m) a checks h =
      let (few, distinct, from) =
        updated_peers_sound flags l.connections.advertised m.ip_addr_list in
      let (holds, fresh) = checks m refl in
      elim (Bool-cases (contains l.connections a)) [
        | inl inside ↦ inl inside
        | inr outside ↦
            let usable : (Sets.contains m.ip_addr_list a
                  && is_usable_peer_addr a
                  && family_ok flags.filter_ipv6 a)
                ≡ true =
              ground (arith, from a, h, outside) in
            inr (record { message = m; holds = holds; fresh = fresh; usable = usable })
      ]

  pub IsListed-after :
      (arrival : Arrival) (l : Listener) (a : SocketAddr)
      → contains (listen codecs flags arrival l).connections a ≡ true
      → (contains l.connections a ≡ true) ⊎ IsListed codecs flags a arrival
  unfolding listen accept
  IsListed-after arrival l a h =
      listed arrival l (accept codecs arrival.now l.last_timestamp arrival.value) a
        (λ m e.
          let (holds, fresh, new) =
            checked-some arrival.now l.last_timestamp (message_of codecs arrival.value) m e in
          (holds, fresh))
        h

  pub local-apply_accepted :
      (instant : Instant) (found : Option Message) (l : Listener)
      → (apply_accepted codecs flags instant found l).probes.local_token ≡ l.probes.local_token
  unfolding apply_message update_remote
  local-apply_accepted instant none l = refl
  local-apply_accepted instant (some m) l = ground arith

  pub local-listen :
      (arrival : Arrival) (l : Listener)
      → (listen codecs flags arrival l).probes.local_token ≡ l.probes.local_token
  unfolding listen
  local-listen arrival l =
      local-apply_accepted arrival.instant
        (accept codecs arrival.now l.last_timestamp arrival.value) l
