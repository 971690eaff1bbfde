-- ===== src/Service/Peer/Trust/Tasks.antt =====
-- What a round of each task in the set-up of src/service.rs does to queues and candidates.
use p2p_tunnler.Prelude.{
  ℕ, ◌≡◌, refl, sym, ap, subst, ◌∙◌, true, Bool-cases, Option, none, some, ◌⊎◌, inl, inr, ok,
  if◌then◌else◌, map, >>=-eq-ok, All, if-elim, ok-injective,
}
use p2p_tunnler.Net.{Bytes, SocketAddr, socket_addr_eq}
use p2p_tunnler.Utils.Channel.{Channel, try_send, try_send_all}
use p2p_tunnler.Transport.Candidates.{contains, addresses}
use p2p_tunnler.Transport.Routing.{
  Datagram, Router, InternetPacketKind, normalize_ipv4_mapped_source, route, route_as,
}
use p2p_tunnler.Transport.Forwarding.{
  LocalPeer, Tunnel, deliver, forward_inbound, forward_outbound, address_is,
}
use p2p_tunnler.Probe.Types.{Instant, State}
use p2p_tunnler.Probe.Frame.{parse_frame}
use p2p_tunnler.Probe.Controller.{packet_action}
use p2p_tunnler.Probe.Schedule.{due_frames, frames_for}
use p2p_tunnler.Probe.Handler.{Shared, handle_packet, schedule_tick}
use p2p_tunnler.Probe.Admission.{echo-token, local-token_action, act-contains, act-controller}
use p2p_tunnler.Service.Classify.{packet_kind}
use p2p_tunnler.Service.Peer.{receive}
use p2p_tunnler.Service.Peer.Trust.{All-try_send}

module _ (P : Datagram → Type 0) where
  pub All-receive :
      (c c' : Channel Datagram) (d : Datagram)
      → receive c d ≡ ok c'
      → All P c.queue
      → P d
      → All P c'.queue
  All-receive c c' d e h hd =
      let ((queued, c1), sent, same) = >>=-eq-ok (try_send c d) _ e in
      subst (λ x. All P x.queue) (ok-injective same) (All-try_send P c c1 d queued sent h hd)

  -- The router puts a datagram into one queue, its source normalized, or drops it.
  pub All-route :
      (r r' : Router) (packet : Bytes) (source : SocketAddr)
      → route packet_kind r (packet, source) ≡ ok r'
      → P (packet, normalize_ipv4_mapped_source source)
      → All P r.probes.queue
      → All P r.packets.queue
      → All P r'.probes.queue × All P r'.packets.queue
  unfolding route
  All-route r r' packet source e h probes packets = go (packet_kind packet) e
    where
      go :
          (kind : InternetPacketKind)
          → route_as kind r (packet, normalize_ipv4_mapped_source source) ≡ ok r'
          → All P r'.probes.queue × All P r'.packets.queue
      go InternetPacketKind.probe e' =
          let ((queued, c), sent, same) = >>=-eq-ok (try_send r.probes _) _ e' in
          subst (λ x. All P x.probes.queue × All P x.packets.queue) (ok-injective same)
            (All-try_send P r.probes c _ queued sent probes h, packets)
      go InternetPacketKind.stun e' =
          let ((queued, c), sent, same) = >>=-eq-ok (try_send r.stuns _) _ e' in
          subst (λ x. All P x.probes.queue × All P x.packets.queue) (ok-injective same)
            (probes, packets)
      go InternetPacketKind.data_packet e' =
          let ((queued, c), sent, same) = >>=-eq-ok (try_send r.packets _) _ e' in
          subst (λ x. All P x.probes.queue × All P x.packets.queue) (ok-injective same)
            (probes, All-try_send P r.packets c _ queued sent packets h)
      go InternetPacketKind.drop e' =
          subst (λ x. All P x.probes.queue × All P x.packets.queue) (ok-injective e')
            (probes, packets)

  -- Only a packet from a candidate is passed on to WireGuard.
  pub All-forward_inbound :
      (packet : Bytes) (source : SocketAddr) (t t' : Tunnel)
      → forward_inbound packet source t ≡ ok t'
      → ((receiver : SocketAddr) → contains t.connections source ≡ true → P (packet, receiver))
      → All P t.local_peer.sender.queue
      → All P t'.local_peer.sender.queue
  unfolding forward_inbound
  All-forward_inbound packet source t t' e hd h =
      elim (Bool-cases (contains t.connections source)) [
        | inl inside ↦
            go t.local_peer.address inside
              (ap (λ b. if b then deliver packet t.local_peer.address t else ok t) (sym inside) ∙ e)
        | inr outside ↦
            subst (λ x. All P x.local_peer.sender.queue)
              (ok-injective (
                ap (λ b. if b then deliver packet t.local_peer.address t else ok t) (sym outside)
                ∙ e))
              h
      ]
    where
      go :
          (o : Option SocketAddr)
          → contains t.connections source ≡ true
          → deliver packet o t ≡ ok t'
          → All P t'.local_peer.sender.queue
      go none inside e' = subst (λ x. All P x.local_peer.sender.queue) (ok-injective e') h
      go (some receiver) inside e' =
          let ((queued, c), sent, same) =
            >>=-eq-ok (try_send t.local_peer.sender (packet, receiver)) _ e' in
          subst (λ x. All P x.local_peer.sender.queue) (ok-injective same)
            (All-try_send P t.local_peer.sender c _ queued sent h (hd receiver inside))

pub forward_outbound-sender :
    (packet : Bytes) (source : SocketAddr) (t t' : Tunnel)
    → forward_outbound packet source t ≡ ok t'
    → t'.local_peer.sender ≡ t.local_peer.sender
unfolding forward_outbound
forward_outbound-sender packet source t t' e =
    let (c, sent, same) =
      >>=-eq-ok
        (try_send_all t.to_internet
          (map (λ remote_peer. (packet, remote_peer)) (addresses t.connections)))
        _ e in
    subst (λ x. x.local_peer.sender ≡ t.local_peer.sender) (ok-injective same)
      (if-elim (λ (l : LocalPeer). l.sender ≡ t.local_peer.sender)
        (address_is t.local_peer.address source) t.local_peer
        (record (t.local_peer) { address = some source }) refl refl)

-- A tick changes neither the local token nor the candidates.
pub schedule_tick-keeps :
    (now : Instant) (percent : SocketAddr → ℕ) (g g' : Shared)
    → schedule_tick now percent g ≡ ok g'
    → (g'.controller.local_token ≡ g.controller.local_token) × (g'.connections ≡ g.connections)
unfolding schedule_tick due_frames
schedule_tick-keeps now percent g g' e =
    let (c, sent, same) =
      >>=-eq-ok
        (try_send_all g.to_internet
          (frames_for now percent g.controller g.controller.remote_token).0)
        _ e in
    subst
      (λ x. (x.controller.local_token ≡ g.controller.local_token) × (x.connections ≡ g.connections))
      (ok-injective same) (local g.controller.remote_token, refl)
  where
    local :
        (remote : Option Bytes)
        → (frames_for now percent g.controller remote).1.local_token ≡ g.controller.local_token
    local none = refl
    local (some token) = refl

-- A control packet makes its source a candidate only if it is the frame of the local token.
pub handle_packet-keeps :
    (now : Instant) (percent : ℕ) (packet : Bytes) (source : SocketAddr) (g g' : Shared)
    → handle_packet now percent packet source g ≡ ok g'
    → (g'.controller.local_token ≡ g.controller.local_token)
      × ((a : SocketAddr)
          → contains g'.connections a ≡ true
          → (contains g.connections a ≡ true)
            ⊎ ((source ≡ a) × (parse_frame packet ≡ some g.controller.local_token)))
unfolding handle_packet packet_action
handle_packet-keeps now percent packet source g g' e =
    let s = packet_action now percent packet source g.controller in
    (
      ap (λ (x : State). x.local_token) (act-controller packet source _ g' s.0 e)
          ∙ local-token_action now percent source g.controller (parse_frame packet),
      λ a after. elim (Bool-cases (contains g.connections a)) [
        | inl inside ↦ inl inside
        | inr outside ↦
            let (echo, from) = act-contains packet source a _ g' s.0 e after outside in
            inr (from, echo-token now percent source g.controller (parse_frame packet) echo)
      ],
    )
