-- ===== src/Service/Peer/Trust/Rounds.antt =====
-- One round of each task of src/service.rs over what the queues and the candidates rest on.
use p2p_tunnler.Prelude.{
  ℕ, ◌≡◌, sym, ap, subst, ◌∙◌, true, Option, none, some, List, inl, inr, ok, >>=-eq-ok, All,
  ok-injective,
}
use p2p_tunnler.Net.{Bytes, SocketAddr, socket_addr_eq}
use p2p_tunnler.Utils.Channel.{Channel}
use p2p_tunnler.Transport.Candidates.{contains}
use p2p_tunnler.Transport.Routing.{Datagram, route}
use p2p_tunnler.Transport.Forwarding.{forward_inbound, forward_outbound}
use p2p_tunnler.Probe.Types.{Instant}
use p2p_tunnler.Probe.Handler.{handle_packet, schedule_tick}
use p2p_tunnler.Candidates.Listener.{Codecs, ConnectionFlags}
use p2p_tunnler.Service.Classify.{packet_kind}
use p2p_tunnler.Service.Peer.{
  PeerState, Event, recv, route_next, control_next, inbound_next, outbound_next, shared_of,
  tunnel_of, step,
}
use p2p_tunnler.Service.Peer.Trust.{
  IsReceipt, Vouches, recv-All, HasCome, IsRouted, IsTrusted, IsVetted,
}
use p2p_tunnler.Service.Peer.Trust.Tasks.{
  All-route, All-forward_inbound, forward_outbound-sender, schedule_tick-keeps, handle_packet-keeps,
}
use p2p_tunnler.Service.Peer.Trust.Steps.{receipt-Vouches}
use p2p_tunnler.Prelude.{Some-mono}

module _ (codecs : Codecs) (flags : ConnectionFlags) (token : Bytes) where
  module _ (history : List Event) (p p' : PeerState)
      (v : IsVetted codecs flags token history p) where
    abbrev Vetted : PeerState → Type 0
    Vetted = IsVetted codecs flags token history

    -- The parts that the invariant does not look at.
    pub others :
        (to_internet from_loopback : Channel Datagram) (stuns : Channel Datagram)
        → Vetted (record p {
          to_internet = to_internet;
          from_loopback = from_loopback;
          router = record (p.router) { stuns = stuns };
        })
    others to_internet from_loopback stuns = record {
      own = v.own;
      come = v.come;
      probes = v.probes;
      packets = v.packets;
      candidates = v.candidates;
      forwarded = v.forwarded;
    }

    pub routed-IsVetted :
        (o : Option (Datagram × Channel Datagram))
        → recv p.from_internet ≡ o
        → route_next o p ≡ ok p'
        → Vetted p'
    routed-IsVetted none e h = subst Vetted (ok-injective h) v
    routed-IsVetted (some ((packet, source), c)) e h =
        let (router, sent, same) = >>=-eq-ok (route packet_kind p.router (packet, source)) _ h in
        let (came, left) =
          recv-All (HasCome codecs flags token history) p.from_internet c (packet, source) e
            v.come in
        let (probes, packets) =
          All-route (IsRouted codecs flags token history) p.router router packet source sent came
            v.probes v.packets in
        subst Vetted (ok-injective same) (record {
          own = v.own;
          come = left;
          probes = probes;
          packets = packets;
          candidates = v.candidates;
          forwarded = v.forwarded;
        })

    pub control-IsVetted :
        (now : Instant) (percent : ℕ) (o : Option (Datagram × Channel Datagram))
        → recv p.router.probes ≡ o
        → control_next now percent o p ≡ ok p'
        → Vetted p'
    control-IsVetted now percent none e h = subst Vetted (ok-injective h) v
    control-IsVetted now percent (some ((packet, source), c)) e h =
        let (g, done, same) =
          >>=-eq-ok (handle_packet now percent packet source (shared_of p)) _ h in
        let (came, left) =
          recv-All (IsRouted codecs flags token history) p.router.probes c (packet, source) e
            v.probes in
        let (local, new) = handle_packet-keeps now percent packet source (shared_of p) g done in
        subst Vetted (ok-injective same) (record {
          own = local ∙ v.own;
          come = v.come;
          probes = left;
          packets = v.packets;
          candidates = λ a inside. elim (new a inside) [
            | inl before ↦ v.candidates a before
            | inr (from, parsed) ↦
                Some-mono (IsReceipt packet source) (Vouches codecs flags token a) history
                  (receipt-Vouches codecs flags token packet source a (parsed ∙ ap some v.own) from)
                  came
          ];
          forwarded = v.forwarded;
        })

    pub scheduled-IsVetted :
        (now : Instant) (percent : SocketAddr → ℕ)
        → step codecs flags (Event.scheduled now percent) p ≡ ok p'
        → Vetted p'
    unfolding step
    scheduled-IsVetted now percent h =
        let (g, done, same) = >>=-eq-ok (schedule_tick now percent (shared_of p)) _ h in
        let (local, same_connections) = schedule_tick-keeps now percent (shared_of p) g done in
        subst Vetted (ok-injective same) (record {
          own = local ∙ v.own;
          come = v.come;
          probes = v.probes;
          packets = v.packets;
          candidates =
              λ a inside. v.candidates a (subst (λ c. contains c a ≡ true) same_connections inside);
          forwarded = v.forwarded;
        })

    pub inbound-IsVetted :
        (o : Option (Datagram × Channel Datagram))
        → recv p.router.packets ≡ o
        → inbound_next o p ≡ ok p'
        → Vetted p'
    inbound-IsVetted none e h = subst Vetted (ok-injective h) v
    inbound-IsVetted (some ((packet, source), c)) e h =
        let (t, done, same) = >>=-eq-ok (forward_inbound packet source (tunnel_of p)) _ h in
        let (came, left) =
          recv-All (IsRouted codecs flags token history) p.router.packets c (packet, source) e
            v.packets in
        subst Vetted (ok-injective same) (record {
          own = v.own;
          come = v.come;
          probes = v.probes;
          packets = left;
          candidates = v.candidates;
          forwarded =
              All-forward_inbound (IsTrusted codecs flags token history) packet source (tunnel_of p)
                t done (λ receiver inside. (source, came, v.candidates source inside)) v.forwarded;
        })

    pub outbound-IsVetted :
        (o : Option (Datagram × Channel Datagram)) → outbound_next o p ≡ ok p' → Vetted p'
    outbound-IsVetted none h = subst Vetted (ok-injective h) v
    outbound-IsVetted (some ((packet, source), c)) h =
        let (t, done, same) = >>=-eq-ok (forward_outbound packet source (tunnel_of p)) _ h in
        subst Vetted (ok-injective same) (record {
          own = v.own;
          come = v.come;
          probes = v.probes;
          packets = v.packets;
          candidates = v.candidates;
          forwarded =
              subst (λ (s : Channel Datagram). All (IsTrusted codecs flags token history) s.queue)
                (sym (forward_outbound-sender packet source (tunnel_of p) t done)) v.forwarded;
        })
