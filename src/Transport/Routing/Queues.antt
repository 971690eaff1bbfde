-- ===== src/Transport/Routing/Queues.antt =====
-- What the three queues behind the router hold.
use p2p_tunnler.Prelude.{
  ◌≡◌, sym, ap, ◌∙◌, Bool, true, false, List, [], ◌∷◌, ◌++◌, if◌then◌else◌, ok,
}
use p2p_tunnler.Net.{Bytes}
use p2p_tunnler.Utils.Channel.{
  IsBounded, after, after-nil, after-after, after-IsBounded, try_send-after,
}
use p2p_tunnler.Transport.Routing.{
  InternetPacketKind, Datagram, Router, route, route_as, route_all, normalize_ipv4_mapped_source,
}

-- All receivers run and no queue holds more than fits.
pub record IsReady (r : Router) : Type 0 where
  pub probes : (r.probes.closed ≡ false) × IsBounded r.probes
  pub stuns : (r.stuns.closed ≡ false) × IsBounded r.stuns
  pub packets : (r.packets.closed ≡ false) × IsBounded r.packets

abbrev same_kind : InternetPacketKind → InternetPacketKind → Bool
same_kind InternetPacketKind.probe InternetPacketKind.probe = true
same_kind InternetPacketKind.stun InternetPacketKind.stun = true
same_kind InternetPacketKind.data_packet InternetPacketKind.data_packet = true
same_kind InternetPacketKind.drop InternetPacketKind.drop = true
same_kind a b = false

-- A datagram if it is of the kind.
abbrev only_of : InternetPacketKind → InternetPacketKind → Datagram → List Datagram
only_of actual kind d = if same_kind actual kind then d ∷ [] else []

abbrev grown : Router → List Datagram → List Datagram → List Datagram → Router
grown r ps ss ds = record {
  probes = after r.probes ps;
  stuns = after r.stuns ss;
  packets = after r.packets ds;
}

grown-nil : (r : Router) → IsReady r → grown r [] [] [] ≡ r
grown-nil r h =
    cc (after-nil r.probes h.probes.1, after-nil r.stuns h.stuns.1, after-nil r.packets h.packets.1)

route_as-grown :
    (k : InternetPacketKind) (r : Router) (d : Datagram)
    → IsReady r
    → route_as k r d
      ≡ ok (
          grown r
            (only_of k InternetPacketKind.probe d)
            (only_of k InternetPacketKind.stun d)
            (only_of k InternetPacketKind.data_packet d))
route_as-grown InternetPacketKind.probe r d h =
    let (queued, e) = try_send-after r.probes d h.probes.0 h.probes.1 in
    rw e (cc (after-nil r.stuns h.stuns.1, after-nil r.packets h.packets.1))
route_as-grown InternetPacketKind.stun r d h =
    let (queued, e) = try_send-after r.stuns d h.stuns.0 h.stuns.1 in
    rw e (cc (after-nil r.probes h.probes.1, after-nil r.packets h.packets.1))
route_as-grown InternetPacketKind.data_packet r d h =
    let (queued, e) = try_send-after r.packets d h.packets.0 h.packets.1 in
    rw e (cc (after-nil r.probes h.probes.1, after-nil r.stuns h.stuns.1))
route_as-grown InternetPacketKind.drop r d h = cc (grown-nil r h)

IsReady-grown : (r : Router) (ps ss ds : List Datagram) → IsReady r → IsReady (grown r ps ss ds)
IsReady-grown r ps ss ds h = record {
  probes = (h.probes.0, after-IsBounded r.probes ps);
  stuns = (h.stuns.0, after-IsBounded r.stuns ss);
  packets = (h.packets.0, after-IsBounded r.packets ds);
}

grown-grown :
    (r : Router) (ps ss ds ps' ss' ds' : List Datagram)
    → grown (grown r ps ss ds) ps' ss' ds' ≡ grown r (ps ++ ps') (ss ++ ss') (ds ++ ds')
grown-grown r ps ss ds ps' ss' ds' =
    cc (after-after r.probes ps ps', after-after r.stuns ss ss', after-after r.packets ds ds')

module _ (classify : Bytes → InternetPacketKind) where
  -- The datagrams of a kind in the order of arrival, each with its source normalized.
  abbrev pub of_kind : InternetPacketKind → List Datagram → List Datagram
  of_kind kind [] = []
  of_kind kind ((packet, source) ∷ rest) =
      only_of (classify packet) kind (packet, normalize_ipv4_mapped_source source)
      ++ of_kind kind rest

  -- While the three receivers run, the router never fails, and what it makes of any datagrams is: each
  -- queue holds what it held and then the datagrams of its kind in the order of arrival, their sources
  -- normalized, cut off at the capacity; the datagrams of the fourth kind are in no queue.
  pub route_all-queues :
      (r : Router) (datagrams : List Datagram)
      → IsReady r
      → route_all classify r datagrams
        ≡ ok (record {
          probes = after r.probes (of_kind InternetPacketKind.probe datagrams);
          stuns = after r.stuns (of_kind InternetPacketKind.stun datagrams);
          packets = after r.packets (of_kind InternetPacketKind.data_packet datagrams);
        })
  unfolding route_all route
  route_all-queues r [] h = ap ok (sym (grown-nil r h))
  route_all-queues r ((packet, source) ∷ rest) h =
      let d : Datagram = (packet, normalize_ipv4_mapped_source source) in
      rw (route_as-grown (classify packet) r d h) (
        route_all-queues
          (grown r (only_of (classify packet) InternetPacketKind.probe d)
            (only_of (classify packet) InternetPacketKind.stun d)
            (only_of (classify packet) InternetPacketKind.data_packet d))
          rest (IsReady-grown r _ _ _ h)
        ∙ ap ok (grown-grown r _ _ _ _ _ _))
