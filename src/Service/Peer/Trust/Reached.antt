-- ===== src/Service/Peer/Trust/Reached.antt =====
-- What holds of every state that the tasks of one peer in src/service.rs reach.
use p2p_tunnler.Prelude.{
  ◌≡◌, refl, subst, ◌∙◌, true, List, ◌∷◌, inl, inr, ok, >>=-eq-ok, All, Some, ok-injective,
}
use p2p_tunnler.Net.{Bytes, SocketAddr, socket_addr_eq}
use p2p_tunnler.Utils.Channel.{try_send}
use p2p_tunnler.Transport.Candidates.{contains}
use p2p_tunnler.Candidates.Listener.{Codecs, ConnectionFlags}
use p2p_tunnler.Service.Peer.{
  PeerState, Event, receive, recv, listener_of, without_oldest, step, Reaches,
}
use p2p_tunnler.Service.Peer.Trust.{
  Vouches, All-without_oldest, HasCome, IsTrusted, IsVetted, IsVetted-new_peer, IsVetted-later,
}
use p2p_tunnler.Service.Peer.Trust.Tasks.{All-receive}
use p2p_tunnler.Service.Peer.Trust.Steps.{IsListed-after, local-listen}
use p2p_tunnler.Service.Peer.Trust.Rounds.{
  others, routed-IsVetted, control-IsVetted, scheduled-IsVetted, inbound-IsVetted,
  outbound-IsVetted,
}

module _ (codecs : Codecs) (flags : ConnectionFlags) (token : Bytes) where
  -- A round keeps the invariant over a history that it is in already.
  step-IsVetted :
      (history : List Event) (event : Event) (p p' : PeerState)
      → IsVetted codecs flags token (event ∷ history) p
      → step codecs flags event p ≡ ok p'
      → IsVetted codecs flags token (event ∷ history) p'
  unfolding step
  step-IsVetted history (Event.received packet source) p p' v h =
      let (c, done, same) = >>=-eq-ok (receive p.from_internet (packet, source)) _ h in
      subst (IsVetted codecs flags token _) (ok-injective same) (record {
        own = v.own;
        come =
            All-receive (HasCome codecs flags token (Event.received packet source ∷ history))
              p.from_internet c (packet, source) done v.come (inl (refl, refl));
        probes = v.probes;
        packets = v.packets;
        candidates = v.candidates;
        forwarded = v.forwarded;
      })
  step-IsVetted history Event.routed p p' v h =
      routed-IsVetted codecs flags token _ p p' v (recv p.from_internet) refl h
  step-IsVetted history (Event.control now percent) p p' v h =
      control-IsVetted codecs flags token _ p p' v now percent (recv p.router.probes) refl h
  step-IsVetted history (Event.scheduled now percent) p p' v h =
      scheduled-IsVetted codecs flags token _ p p' v now percent h
  step-IsVetted history (Event.stun_request packet server) p p' v h =
      let ((queued, c), done, same) = >>=-eq-ok (try_send p.to_internet (packet, server)) _ h in
      subst (IsVetted codecs flags token _) (ok-injective same)
        (others codecs flags token _ p p' v c p.from_loopback p.router.stuns)
  step-IsVetted history Event.stun_response p p' v h =
      subst (IsVetted codecs flags token _) (ok-injective h) (
        others codecs flags token _ p p' v p.to_internet p.from_loopback
          (without_oldest (recv p.router.stuns) p.router.stuns))
  step-IsVetted history Event.inbound p p' v h =
      inbound-IsVetted codecs flags token _ p p' v (recv p.router.packets) refl h
  step-IsVetted history (Event.written packet source) p p' v h =
      let (c, done, same) = >>=-eq-ok (receive p.from_loopback (packet, source)) _ h in
      subst (IsVetted codecs flags token _) (ok-injective same)
        (others codecs flags token _ p p' v p.to_internet c p.router.stuns)
  step-IsVetted history Event.outbound p p' v h =
      outbound-IsVetted codecs flags token _ p p' v (recv p.from_loopback) h
  step-IsVetted history (Event.value arrival) p p' v h =
      subst (IsVetted codecs flags token _) (ok-injective h) (record {
        own = local-listen codecs flags token arrival (listener_of p) ∙ v.own;
        come = v.come;
        probes = v.probes;
        packets = v.packets;
        candidates = λ a inside.
            elim (IsListed-after codecs flags token arrival (listener_of p) a inside) [
              | inl before ↦ v.candidates a before
              | inr new ↦ inl new
            ];
        forwarded = v.forwarded;
      })
  step-IsVetted history Event.sent p p' v h =
      subst (IsVetted codecs flags token _) (ok-injective h) (
        others codecs flags token _ p p' v (without_oldest (recv p.to_internet) p.to_internet)
          p.from_loopback p.router.stuns)
  step-IsVetted history Event.delivered p p' v h =
      subst (IsVetted codecs flags token _) (ok-injective h) (record {
        own = v.own;
        come = v.come;
        probes = v.probes;
        packets = v.packets;
        candidates = v.candidates;
        forwarded =
            All-without_oldest (IsTrusted codecs flags token (Event.delivered ∷ history))
              p.local_peer.sender v.forwarded;
      })

  reached-IsVetted :
      (history : List Event) (p : PeerState)
      → Reaches codecs flags token history p
      → IsVetted codecs flags token history p
  reached-IsVetted history p r = go r
    where
      go :
          {history : List Event} {p : PeerState}
          → Reaches codecs flags token history p
          → IsVetted codecs flags token history p
      go Reaches.start = IsVetted-new_peer codecs flags token
      go (Reaches.next event r e) =
          step-IsVetted _ event _ _ (IsVetted-later codecs flags token _ event _ (go r)) e

  -- In every state that the tasks of a peer reach, by any rounds in any order, each packet that waits for
  -- WireGuard was received from an address, and each candidate is an address, that a received frame of
  -- the local token came from or that a fresh message of the peer lists as a usable one of an allowed
  -- family.
  pub reached-IsTrusted :
      (history : List Event) (p : PeerState)
      → Reaches codecs flags token history p
      → All (IsTrusted codecs flags token history) p.local_peer.sender.queue
        × ((a : SocketAddr)
            → contains p.connections a ≡ true
            → Some (Vouches codecs flags token a) history)
  reached-IsTrusted history p r =
      let v = reached-IsVetted history p r in (v.forwarded, v.candidates)
