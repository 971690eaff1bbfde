-- ===== src/Service/Peer/Trust.antt =====
-- Whom the tasks of `setup_connection` in src/service.rs take packets from.
pub mod Tasks
pub mod Steps
pub mod Rounds
pub mod Reached
use p2p_tunnler.Prelude.{
  ℕ, ◌≡◌, refl, sym, ap, subst, ◌∙◌, Bool, true, false, not, ◌&&◌, ◌||◌, Bool-cases, Option, none,
  some, List, [], ◌∷◌, ◌++◌, ◌⊎◌, inl, inr, Result, ok, err, ◌>>=◌, >>=-eq-ok, arith, All, Some,
  All-snoc, All-mono, if-elim, if-elim_with, ok-injective,
}
use p2p_tunnler.Net.{Bytes, SocketAddr, socket_addr_eq}
use p2p_tunnler.Collections.Sets
use p2p_tunnler.Utils.Channel.{Channel, TaskError, try_send, try_send-ok}
use p2p_tunnler.Transport.Candidates.{CandidateSet, contains, replace_advertised}
use p2p_tunnler.Transport.Routing.{
  Datagram, Router, InternetPacketKind, normalize_ipv4_mapped_source, route, route_as,
}
use p2p_tunnler.Transport.Forwarding.{
  LocalPeer, Tunnel, deliver, forward_inbound, forward_outbound, address_is,
}
use p2p_tunnler.Probe.Types.{Instant, State, PacketAction}
use p2p_tunnler.Probe.Frame.{parse_frame}
use p2p_tunnler.Probe.Controller.{packet_action, update_remote, token_action}
use p2p_tunnler.Probe.Schedule.{due_frames, frames_for}
use p2p_tunnler.Probe.Handler.{Shared, act, handle_packet, schedule_tick}
use p2p_tunnler.Probe.Admission.{echo-token, local-token_action, act-contains, act-controller}
use p2p_tunnler.Candidates.Types.{Message}
use p2p_tunnler.Candidates.Filter.{is_usable_peer_addr, is_fresh_dht_timestamp}
use p2p_tunnler.Candidates.Listener.{
  Codecs, ConnectionFlags, Listener, Arrival, accept, listen, apply_message, apply_accepted,
  updated_peers, replace_if_changed,
}
use p2p_tunnler.Candidates.Replay.{message_of, checked-some}
use p2p_tunnler.Candidates.Selection.{family_ok, updated_peers_sound}
use p2p_tunnler.Service.Classify.{packet_kind}
use p2p_tunnler.Service.Peer.{
  PeerState, Event, receive, recv, recv_from, route_next, control_next, inbound_next, outbound_next,
  shared_of, with_shared, tunnel_of, with_tunnel, listener_of, with_listener, without_oldest, step,
  Reaches, new_peer,
}

-- The packet was received from the address, normalized as the router does.
abbrev pub IsReceipt : Bytes → SocketAddr → Event → Type 0
IsReceipt packet source (Event.received bytes from) =
    (bytes ≡ packet) × (normalize_ipv4_mapped_source from ≡ source)
IsReceipt packet source event = ⊥

-- A fresh message of the peer that a value holds, which lists the address.
pub record IsListed (codecs : Codecs) (flags : ConnectionFlags) (a : SocketAddr) (v : Arrival)
    : Type 0 where
  pub message : Message
  pub holds : message_of codecs v.value ≡ some message
  pub fresh : is_fresh_dht_timestamp message.timestamp v.now ≡ true
  pub usable :
      (Sets.contains message.ip_addr_list a
        && is_usable_peer_addr a
        && family_ok flags.filter_ipv6 a)
      ≡ true

-- What makes an address a candidate: the local token in a probe from it, or a record that lists it.
abbrev pub Vouches : Codecs → ConnectionFlags → Bytes → SocketAddr → Event → Type 0
Vouches codecs flags token a (Event.received packet from) =
    (parse_frame packet ≡ some token) × (normalize_ipv4_mapped_source from ≡ a)
Vouches codecs flags token a (Event.value arrival) = IsListed codecs flags a arrival
Vouches codecs flags token a event = ⊥

module _ {A : Type 0} (P : A → Type 0) where
  pub All-try_send :
      (c c' : Channel A) (message : A) (queued : Bool)
      → try_send c message ≡ ok (queued, c')
      → All P c.queue
      → P message
      → All P c'.queue
  unfolding try_send
  All-try_send c c' message queued e h hm =
      let (running, cap, open_, q, room, full) = try_send-ok c c' message queued e in
      subst (All P) (sym q) (if-elim (All P) queued _ _ (All-snoc P c.queue message h hm) h)

  pub All-without_oldest : (c : Channel A) → All P c.queue → All P (without_oldest (recv c) c).queue
  All-without_oldest c h = go c.queue refl h
    where
      go : (xs : List A) → c.queue ≡ xs → All P xs → All P (without_oldest (recv_from c xs) c).queue
      go [] e h' = subst (All P) (sym e) tt
      go (x ∷ xs) e h' = h'.1

  -- The oldest message, and the rest of the queue.
  pub recv-All :
      (c c' : Channel A) (message : A)
      → recv c ≡ some (message, c')
      → All P c.queue
      → P message × All P c'.queue
  recv-All c c' message e h = go c.queue e h
    where
      go :
          (xs : List A)
          → recv_from c xs ≡ some (message, c')
          → All P xs
          → P message × All P c'.queue
      go [] e' h' = absurd cc
      go (x ∷ xs) e' h' =
          let same : (x, record c { queue = xs }) ≡ (message, c') = cc in
          subst (λ (y : A × Channel A). P y.0 × All P y.1.queue) same h'

module _ (codecs : Codecs) (flags : ConnectionFlags) (token : Bytes) where
  module _ (history : List Event) where
    abbrev pub IsVouched : SocketAddr → Type 0
    IsVouched a = Some (Vouches codecs flags token a) history

    -- Received as it came from the socket, or after the router has normalized the source.
    abbrev pub HasCome : Datagram → Type 0
    HasCome (packet, from) = Some (IsReceipt packet (normalize_ipv4_mapped_source from)) history

    abbrev pub IsRouted : Datagram → Type 0
    IsRouted (packet, source) = Some (IsReceipt packet source) history

    -- A packet for WireGuard: it was received from an address that something vouches for.
    abbrev pub IsTrusted : Datagram → Type 0
    IsTrusted (packet, receiver) =
        (source : SocketAddr) × Some (IsReceipt packet source) history × IsVouched source

  -- What the queues and the candidates of a state rest on.
  pub record IsVetted (history : List Event) (p : PeerState) : Type 0 where
    pub own : p.controller.local_token ≡ token
    pub come : All (HasCome history) p.from_internet.queue
    pub probes : All (IsRouted history) p.router.probes.queue
    pub packets : All (IsRouted history) p.router.packets.queue
    pub candidates : (a : SocketAddr) → contains p.connections a ≡ true → IsVouched history a
    pub forwarded : All (IsTrusted history) p.local_peer.sender.queue

  pub IsVetted-new_peer : IsVetted [] (new_peer token)
  unfolding contains
  IsVetted-new_peer = record {
    own = refl;
    come = tt;
    probes = tt;
    packets = tt;
    candidates = λ a h. absurd cc;
    forwarded = tt;
  }

  -- What a history supports, a longer one does.
  pub IsVetted-later :
      (history : List Event) (event : Event) (p : PeerState)
      → IsVetted history p
      → IsVetted (event ∷ history) p
  IsVetted-later history event p v = record {
    own = v.own;
    come = All-mono (HasCome history) (HasCome (event ∷ history)) _ (λ d h. inr h) v.come;
    probes = All-mono (IsRouted history) (IsRouted (event ∷ history)) _ (λ d h. inr h) v.probes;
    packets = All-mono (IsRouted history) (IsRouted (event ∷ history)) _ (λ d h. inr h) v.packets;
    candidates = λ a h. inr (v.candidates a h);
    forwarded =
        All-mono (IsTrusted history) (IsTrusted (event ∷ history)) _
          (λ d (source, come, vouched). (source, inr come, inr vouched)) v.forwarded;
  }
