-- ===== src/Transport/Candidates/Reference.antt =====
-- What `CandidateSet` of src/transport.rs comes to, told from the history alone.
use p2p_tunnler.Prelude.{
  ◌≡◌, ◌<◌, ◌↔◌, refl, ap, ◌∙◌, true, false, ◌||◌, ◌==◌, List, [], ◌∷◌, length, arith,
  if◌then◌else◌,
}
use p2p_tunnler.Net.{SocketAddr, socket_addr_eq}
use p2p_tunnler.Collections.Sets
use p2p_tunnler.Collections.Sets.{
  collect, insert, IsNodup, contains-collect, contains-insert, IsNodup-collect,
}
use p2p_tunnler.Transport.Candidates.{
  CandidateSet, default, contains, addresses, replace_advertised, add_peer_reflexive, IsValid,
  replace_advertised-IsValid, add_peer_reflexive-IsValid,
}
use p2p_tunnler.Transport.Candidates.History.{
  Change, apply, addresses-contains, add_peer_reflexive_lem,
}

-- The candidates after a history, which has the latest change first.
unfoldable pub reached : List Change → CandidateSet
reached [] = default
reached (change ∷ past) = apply (reached past) change

-- The addresses of the latest record.
abbrev pub last_record : List Change → List SocketAddr
last_record [] = []
last_record (Change.advertise xs ∷ past) = xs
last_record (Change.admit a ∷ past) = last_record past

-- The sources that were new when they came, the latest first, and at most 64.
abbrev pub new_sources : List Change → List SocketAddr
new_sources [] = []
new_sources (Change.advertise xs ∷ past) = new_sources past
new_sources (Change.admit a ∷ past) =
    let known = new_sources past in
    if Sets.contains (last_record past) a || (Sets.contains known a || length known == 64)
    then known
    else a ∷ known

-- The two sets hold these addresses.
record Tracks (c : CandidateSet) (history : List Change) : Type 0 where
  valid : IsValid c
  advertised :
      (a : SocketAddr) → Sets.contains c.advertised a ≡ Sets.contains (last_record history) a
  peer_reflexive :
      (a : SocketAddr) → Sets.contains c.peer_reflexive a ≡ Sets.contains (new_sources history) a
  size : length c.peer_reflexive ≡ length (new_sources history)

admitted :
    (c : CandidateSet) (past : List Change) (a b : SocketAddr)
    → Tracks c past
    → (Sets.contains (add_peer_reflexive c a).0.peer_reflexive b
        ≡ Sets.contains (new_sources (Change.admit a ∷ past)) b)
      × (length (add_peer_reflexive c a).0.peer_reflexive
          ≡ length (new_sources (Change.admit a ∷ past)))
unfolding add_peer_reflexive contains
admitted c past a b t = (
  ground (
    arith,
    t.advertised a,
    t.peer_reflexive a,
    t.peer_reflexive b,
    t.size,
    contains-insert a b c.peer_reflexive,
  ),
  ground (arith, t.advertised a, t.peer_reflexive a, t.size),
)

reached-Tracks : (history : List Change) → Tracks (reached history) history
unfolding reached apply replace_advertised
reached-Tracks [] = record {
  valid = record { advertised = tt; peer_reflexive = tt; bounded = omega arith };
  advertised = λ a. refl;
  peer_reflexive = λ a. refl;
  size = refl;
}
reached-Tracks (Change.advertise xs ∷ past) =
    let t = reached-Tracks past in
    record {
      valid = replace_advertised-IsValid (reached past) (collect xs) (IsNodup-collect xs) t.valid;
      advertised = λ a. contains-collect xs a;
      peer_reflexive = t.peer_reflexive;
      size = t.size;
    }
reached-Tracks (Change.admit a ∷ past) =
    let t = reached-Tracks past in
    record {
      valid = add_peer_reflexive-IsValid (reached past) a t.valid;
      advertised = λ b.
          ap (λ xs. Sets.contains xs b) (add_peer_reflexive_lem (reached past) a).1
          ∙ t.advertised b;
      peer_reflexive = λ b. (admitted (reached past) past a b t).0;
      size = (admitted (reached past) past a a t).1;
    }

answered :
    (c : CandidateSet) (past : List Change) (source : SocketAddr)
    → Tracks c past
    → ((add_peer_reflexive c source).1 ≡ true) ↔ (
        (Sets.contains (last_record past) source ≡ false)
        × (Sets.contains (new_sources past) source ≡ false)
        × (length (new_sources past) < 64))
unfolding add_peer_reflexive contains
answered c past source t = (
  λ e.
      let bounded = t.valid.bounded in
      (
        ground (arith, t.advertised source),
        ground (arith, t.peer_reflexive source),
        ground (arith, t.size, bounded),
      ),
  λ (fresh, new, room). ground (arith, t.advertised source, t.peer_reflexive source, t.size),
)

held :
    (c : CandidateSet) (past : List Change) (a : SocketAddr)
    → Tracks c past
    → contains c a ≡ (Sets.contains (last_record past) a || Sets.contains (new_sources past) a)
unfolding contains
held c past a t = ground (arith, t.advertised a, t.peer_reflexive a)

-- Whatever records and sources have come, in any order, the candidates are exactly the addresses of the
-- latest record and the sources that were new when they came; packets are sent once to each of them and
-- to no other address. A source is added exactly if it is in neither and less than 64 are known: records
-- that come and go neither remove a source nor make room for one.
pub reached-exact :
    (history : List Change)
    → let c = reached history in
      let known = new_sources history in
      ((a : SocketAddr)
        → contains c a ≡ (Sets.contains (last_record history) a || Sets.contains known a))
      × IsNodup (addresses c)
      × ((a : SocketAddr)
          → Sets.contains (addresses c) a
            ≡ (Sets.contains (last_record history) a || Sets.contains known a))
      × ((source : SocketAddr)
          → ((add_peer_reflexive c source).1 ≡ true) ↔ (
              (Sets.contains (last_record history) source ≡ false)
              × (Sets.contains known source ≡ false)
              × (length known < 64)))
reached-exact history =
    let c = reached history in
    let t = reached-Tracks history in
    let (once, sent) = addresses-contains c t.valid in
    (
      λ a. held c history a t,
      once,
      λ a. sent a ∙ held c history a t,
      λ source. answered c history source t,
    )
