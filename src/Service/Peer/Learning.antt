-- ===== src/Service/Peer/Learning.antt =====
-- How a record from the DHT starts probes through the tasks of one peer in src/service.rs.
use p2p_tunnler.Prelude.{
  ℕ, ◌≤◌, ◌≡◌, refl, ap, ◌∙◌, Bool, true, false, not, ◌||◌, Bool-cases, Option, none, some, List,
  [], ◌∷◌, map, inl, inr, ok, ◌>>=◌, arith, length, if-elim_with,
}
use p2p_tunnler.Net.{Bytes, SocketAddr, socket_addr_eq}
use p2p_tunnler.Collections.Sets
use p2p_tunnler.Collections.Sets.{IsNodup, set_eq}
use p2p_tunnler.Collections.Counting.{set_eq-contains}
use p2p_tunnler.Collections.Maps.{get, IsUnique}
use p2p_tunnler.Utils.Channel.{IsBounded, after, try_send_all-after}
use p2p_tunnler.Transport.Candidates.{CandidateSet, contains, replace_advertised}
use p2p_tunnler.Probe.Types.{Instant, State, ProbePath}
use p2p_tunnler.Probe.Frame.{frame}
use p2p_tunnler.Probe.Controller.{update_remote, remote_eq}
use p2p_tunnler.Probe.Schedule.{due_frames}
use p2p_tunnler.Probe.Paths.{due_frames-exact, is_due}
use p2p_tunnler.Probe.Update.{update_remote-paths, IsUnique-update_paths}
use p2p_tunnler.Probe.Handler.{schedule_tick}
use p2p_tunnler.Candidates.Types.{Message}
use p2p_tunnler.Candidates.Selection.{length-updated_peers}
use p2p_tunnler.Candidates.Listener.{
  Codecs, ConnectionFlags, Arrival, accept, control_token, updated_peers, replace_if_changed,
  apply_message, listen,
}
use p2p_tunnler.Service.Peer.{PeerState, Event, step, run}

replaced-contains :
    (c : CandidateSet) (updated : List SocketAddr) (a : SocketAddr)
    → IsNodup c.advertised
    → Sets.contains updated a ≡ true
    → contains (replace_if_changed c updated) a ≡ true
unfolding contains replace_advertised
replaced-contains c updated a nodup h =
    if-elim_with
      (λ (x : CandidateSet).
        (Sets.contains x.advertised a || Sets.contains x.peer_reflexive a) ≡ true)
      (not (set_eq c.advertised updated)) _ _ (λ e. ground arith)
      (λ e. ground (arith, set_eq-contains c.advertised updated a nodup))

IsUnique-update_remote :
    (now : Instant) (token : Bytes) (candidates : List SocketAddr) (s : State)
    → IsUnique s.paths
    → IsUnique (update_remote now (some token) candidates s).paths
unfolding update_remote
IsUnique-update_remote now token candidates s u =
    elim (Bool-cases (remote_eq s.remote_token (some token))) [
      | inl same ↦ rw same (IsUnique-update_paths now candidates s.paths u)
      | inr other ↦ rw other (IsUnique-update_paths now candidates [] tt)
    ]

remote-update_remote :
    (now : Instant) (token : Bytes) (candidates : List SocketAddr) (s : State)
    → (update_remote now (some token) candidates s).remote_token ≡ some token
unfolding update_remote
remote-update_remote now token candidates s = refl

-- The path of an address counts as unknown if there is none or the token is another.
abbrev pub is_new : Bytes → SocketAddr → State → Bool
is_new token a s = not (remote_eq s.remote_token (some token)) || is_absent (get s.paths a)
  where
    is_absent : Option ProbePath → Bool
    is_absent none = true
    is_absent (some path) = false

new-is_due :
    (now instant : Instant) (token : Bytes) (candidates : List SocketAddr) (s : State)
    (a : SocketAddr)
    → length candidates ≤ 64
    → Sets.contains candidates a ≡ true
    → is_new token a s ≡ true
    → instant ≤ now
    → is_due now (get (update_remote instant (some token) candidates s).paths a) ≡ true
new-is_due now instant token candidates s a few listed fresh order =
    let path = update_remote-paths instant token candidates s a few in ground (arith, path)

-- The two rounds: a record is taken, and then the scheduler runs.
abbrev pub learning : Arrival → Instant → (SocketAddr → ℕ) → List Event
learning arrival now percent = Event.value arrival ∷ Event.scheduled now percent ∷ []

module _ (codecs : Codecs) (flags : ConnectionFlags) where
  ticked :
      (now : Instant) (percent : SocketAddr → ℕ) (p : PeerState)
      → p.to_internet.closed ≡ false
      → IsBounded p.to_internet
      → step codecs flags (Event.scheduled now percent) p
        ≡ ok (record p {
          controller = (due_frames now percent p.controller).1;
          to_internet = after p.to_internet (due_frames now percent p.controller).0;
        })
  unfolding step schedule_tick
  ticked now percent p running bounded =
      rw (try_send_all-after p.to_internet (due_frames now percent p.controller).0 running bounded)
        refl

  -- If a value holds an acceptable message with a token, then the next round of the scheduler queues a
  -- probe with it, as far as there is room, once to each of some addresses; among them is every address
  -- selected from the message that has no path yet under this token, and every selected address is a
  -- candidate.
  pub record_starts_probes :
      (p : PeerState) (arrival : Arrival) (message : Message) (token : Bytes) (now : Instant)
      (percent : SocketAddr → ℕ)
      → let selected = updated_peers flags p.connections.advertised message.ip_addr_list in
        accept codecs arrival.now p.last_timestamp arrival.value ≡ some message
        → control_token codecs message.control ≡ some token
        → IsNodup p.connections.advertised
        → IsUnique p.controller.paths
        → p.to_internet.closed ≡ false
        → IsBounded p.to_internet
        → arrival.instant ≤ now
        → (p' : PeerState) × (destinations : List SocketAddr) × (run codecs flags
              (learning arrival now percent)
              p
            ≡ ok p')
          × (p'.to_internet ≡ after p.to_internet (map (λ a. (frame token, a)) destinations))
          × IsNodup destinations
          × ((a : SocketAddr)
              → Sets.contains selected a ≡ true
              → (contains p'.connections a ≡ true)
                × (is_new token a p.controller ≡ true → Sets.contains destinations a ≡ true))
  unfolding run step listen apply_message
  record_starts_probes p arrival message token now percent accepted known nodup unique running
        bounded order =
      let selected = updated_peers flags p.connections.advertised message.ip_addr_list in
      let s : State = update_remote arrival.instant (some token) selected p.controller in
      let learned : PeerState = record p {
        last_timestamp = some message.timestamp;
        connections = replace_if_changed p.connections selected;
        controller = s;
      } in
      let (destinations, sent, once, exact) =
        due_frames-exact now percent s token
          (remote-update_remote arrival.instant token selected p.controller)
          (IsUnique-update_remote arrival.instant token selected p.controller unique) in
      (
        record learned {
          controller = (due_frames now percent s).1;
          to_internet = after p.to_internet (due_frames now percent s).0;
        },
        destinations,
        rw (accepted, known) (ap (λ r. r >>= ok) (ticked now percent learned running bounded)),
        ap (after p.to_internet) sent,
        once,
        λ a listed. (
          replaced-contains p.connections selected a nodup listed,
          λ fresh.
              exact a
              ∙ new-is_due now arrival.instant token selected p.controller a
                  (length-updated_peers flags p.connections.advertised message.ip_addr_list) listed
                  fresh order,
        ),
      )
