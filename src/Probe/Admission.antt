-- ===== src/Probe/Admission.antt =====
-- Which addresses the prober of src/probe.rs makes candidates.
use p2p_tunnler.Prelude.{
  ℕ, ◌≡◌, ◌⊎◌, refl, ap, subst, Bool-cases, ◌∙◌, true, false, Option, none, some, List, [], ◌∷◌,
  arith, inl, inr, ok, >>=-eq-ok,
}
use p2p_tunnler.Net.{Bytes, SocketAddr, socket_addr_eq, bytes_eq}
use p2p_tunnler.Collections.Maps.{get}
use p2p_tunnler.Utils.Channel.{try_send}
use p2p_tunnler.Transport.Candidates.{contains, add_peer_reflexive}
use p2p_tunnler.Transport.Candidates.History.{add_peer_reflexive_lem}
use p2p_tunnler.Probe.Types.{Instant, ProbePath, State, PacketAction}
use p2p_tunnler.Probe.Frame.{parse_frame}
use p2p_tunnler.Probe.Controller.{
  packet_action, token_action, reply_action, ack_action, ack_path, recent,
}
use p2p_tunnler.Probe.Packets.{ack_path-echo}
use p2p_tunnler.Probe.Handler.{Shared, act, handle_packet, Received, handle_packets}

pub echo-token :
    (now : Instant) (percent : ℕ) (a : SocketAddr) (s : State) (parsed : Option Bytes)
    → (token_action now percent a s parsed).0 ≡ PacketAction.echo_and_admit
    → parsed ≡ some s.local_token
unfolding ack_action
echo-token now percent a s none h = cc
echo-token now percent a s (some token) h =
    let swept : State = record s { reply_sources = recent now s.reply_sources } in
    ground (
      arith,
      ack_path-echo now percent a swept (get s.paths a),
      bytes_eq.beq_iff token s.local_token,
    )

local-ack_path :
    (now : Instant) (percent : ℕ) (a : SocketAddr) (s : State) (found : Option ProbePath)
    → (ack_path now percent a s found).1.local_token ≡ s.local_token
local-ack_path now percent a s none = refl
local-ack_path now percent a s (some path) = ground arith

pub local-token_action :
    (now : Instant) (percent : ℕ) (a : SocketAddr) (s : State) (parsed : Option Bytes)
    → (token_action now percent a s parsed).1.local_token ≡ s.local_token
unfolding ack_action reply_action
local-token_action now percent a s none = refl
local-token_action now percent a s (some token) =
    let swept : State = record s { reply_sources = recent now s.reply_sources } in
    ground (arith, local-ack_path now percent a swept (get s.paths a))

-- One of the packets is the frame of the token and came from the address.
abbrev pub HasProbe : Bytes → SocketAddr → List Received → Type 0
HasProbe token a [] = ⊥
HasProbe token a (r ∷ rest) =
    ((r.source ≡ a) × (parse_frame r.packet ≡ some token)) ⊎ HasProbe token a rest

pub act-controller :
    (packet : Bytes) (source : SocketAddr) (g g' : Shared) (action : PacketAction)
    → act packet source g action ≡ ok g'
    → g'.controller ≡ g.controller
act-controller packet source g g' PacketAction.echo_and_admit h =
    let ((queued, c), sent, e) = >>=-eq-ok (try_send g.to_internet (packet, source)) _ h in cc
act-controller packet source g g' PacketAction.acknowledged h = cc
act-controller packet source g g' PacketAction.drop h = cc

-- A new candidate is the source of a packet that is echoed.
pub act-contains :
    (packet : Bytes) (source a : SocketAddr) (g g' : Shared) (action : PacketAction)
    → act packet source g action ≡ ok g'
    → contains g'.connections a ≡ true
    → contains g.connections a ≡ false
    → (action ≡ PacketAction.echo_and_admit) × (source ≡ a)
act-contains packet source a g g' PacketAction.echo_and_admit h after before =
    let ((queued, c), sent, e) = >>=-eq-ok (try_send g.to_internet (packet, source)) _ h in
    let new = (add_peer_reflexive_lem g.connections source).2 a in
    let same : g'.connections ≡ (add_peer_reflexive g.connections source).0 = cc in
    let after' : contains (add_peer_reflexive g.connections source).0 a ≡ true =
      subst (λ c. contains c a ≡ true) same after in
    (refl, (socket_addr_eq.beq_iff source a).0 (ground (arith, new, after', before)))
act-contains packet source a g g' PacketAction.acknowledged h after before = absurd cc
act-contains packet source a g g' PacketAction.drop h after before = absurd cc

-- An address becomes a candidate while packets are handled only if one of the packets is the frame of
-- the local token and came from it.
pub handle_packets-admits :
    (received : List Received) (g g' : Shared) (a : SocketAddr)
    → handle_packets received g ≡ ok g'
    → contains g'.connections a ≡ true
    → contains g.connections a ≡ false
    → HasProbe g.controller.local_token a received
unfolding handle_packets handle_packet packet_action
handle_packets-admits [] g g' a h after before = absurd cc
handle_packets-admits (r ∷ rest) g g' a h after before =
    let s = (packet_action r.now r.percent r.packet r.source g.controller) in
    let (g1, first, others) = >>=-eq-ok (handle_packet r.now r.percent r.packet r.source g) _ h in
    let token : g1.controller.local_token ≡ g.controller.local_token =
      ap (λ (x : State). x.local_token) (act-controller r.packet r.source _ g1 s.0 first)
      ∙ local-token_action r.now r.percent r.source g.controller (parse_frame r.packet) in
    elim (Bool-cases (contains g1.connections a)) [
      | inl now_in ↦
          let (echo, from) = act-contains r.packet r.source a _ g1 s.0 first now_in before in
          inl (from, echo-token r.now r.percent r.source g.controller (parse_frame r.packet) echo)
      | inr still_out ↦ inr (
          subst (λ t. HasProbe t a rest) token
            (handle_packets-admits rest g1 g' a others after still_out))
    ]
