-- ===== src/Probe/Update.antt =====
-- What `update_remote` of src/probe.rs makes of the paths.
use p2p_tunnler.Prelude.{
  ◌+◌, ◌≤◌, ◌≡◌, sym, ◌∙◌, Bool, true, ◌||◌, none, some, List, [], ◌∷◌, arith, if◌then◌else◌,
  length,
}
use p2p_tunnler.Net.{Bytes, SocketAddr, bytes_eq, socket_addr_eq}
use p2p_tunnler.Collections.Sets.{
  contains, retain, IsNodup, contains-insert, length-insert-le, IsNodup-insert,
}
use p2p_tunnler.Collections.Sets
use p2p_tunnler.Collections.Maps.{
  get, contains_key, or_insert, IsUnique, IsUnique-retain, get-retain_keys,
  contains_key-retain_keys, contains_key-get, get_none-contains_key,
}
use p2p_tunnler.Collections.Counting.{length-le-of_keys}
use p2p_tunnler.Probe.Types.{Instant, ProbePath, State, max_probe_paths}
use p2p_tunnler.Probe.Controller.{
  select, new_path, add_paths, retain_paths, update_paths, update_remote, remote_eq,
}

select-length : (s cs : List SocketAddr) → length s ≤ 64 → length (select s cs) ≤ 64
select-length s [] h = h
select-length s (c ∷ cs) h =
    ground (arith, select-length (Sets.insert c s) cs, length-insert-le c s)

-- Few enough candidates are all selected.
select-contains :
    (s cs : List SocketAddr) (a : SocketAddr)
    → length s + length cs ≤ 64
    → contains (select s cs) a ≡ (contains s a || contains cs a)
select-contains s [] a h = ground arith
select-contains s (c ∷ cs) a h =
    ground
      (arith, select-contains (Sets.insert c s) cs a, length-insert-le c s, contains-insert c a s)

-- What is selected was a candidate.
select-from :
    (s cs : List SocketAddr) (a : SocketAddr)
    → contains (select s cs) a ≡ true
    → (contains s a || contains cs a) ≡ true
select-from s [] a h = ground arith
select-from s (c ∷ cs) a h =
    ground (arith, select-from (Sets.insert c s) cs a, contains-insert c a s)

get-add_paths :
    (now : Instant) (selected : List SocketAddr) (m : List (SocketAddr × ProbePath))
    (a : SocketAddr)
    → get (add_paths now selected m) a ≡ (
        if contains_key m a
        then get m a
        else if contains selected a
        then some (new_path now)
        else none)
get-add_paths now [] m a = ground (arith, contains_key-get m a)
get-add_paths now (x ∷ selected) m a =
    ground (
      arith,
      get-add_paths now selected (or_insert x (new_path now) m) a,
      socket_addr_eq.beq_iff x a,
    )

contains_key-add_paths :
    (now : Instant) (selected : List SocketAddr) (m : List (SocketAddr × ProbePath))
    (a : SocketAddr)
    → contains_key (add_paths now selected m) a ≡ (contains_key m a || contains selected a)
contains_key-add_paths now [] m a = ground arith
contains_key-add_paths now (x ∷ selected) m a = ground (
  arith,
  contains_key-add_paths now selected (or_insert x (new_path now) m) a,
  socket_addr_eq.beq_iff x a,
)

IsUnique-add_paths :
    (now : Instant) (selected : List SocketAddr) (m : List (SocketAddr × ProbePath))
    → IsUnique m
    → IsUnique (add_paths now selected m)
IsUnique-add_paths now [] m h = h
IsUnique-add_paths now (x ∷ selected) m h =
    IsUnique-add_paths now selected (or_insert x (new_path now) m) (ground arith)

pub IsUnique-update_paths :
    (now : Instant) (cs : List SocketAddr) (m : List (SocketAddr × ProbePath))
    → IsUnique m
    → IsUnique (update_paths now cs m)
IsUnique-update_paths now cs m h =
    IsUnique-add_paths now (select [] cs) _
      (IsUnique-retain (λ (a, p). contains (select [] cs) a) m h)

keys-update_paths :
    (now : Instant) (cs : List SocketAddr) (m : List (SocketAddr × ProbePath)) (a : SocketAddr)
    → contains_key (update_paths now cs m) a ≡ contains (select [] cs) a
keys-update_paths now cs m a = ground (
  arith,
  contains_key-add_paths now (select [] cs) (retain_paths (select [] cs) m) a,
  contains_key-retain_keys (λ a. contains (select [] cs) a) m a,
)

pub length-update_paths :
    (now : Instant) (cs : List SocketAddr) (m : List (SocketAddr × ProbePath))
    → IsUnique m
    → length (update_paths now cs m) ≤ max_probe_paths
length-update_paths now cs m h =
    let short : length (select [] cs) ≤ 64 = select-length [] cs (omega arith) in
    let fits =
      length-le-of_keys (update_paths now cs m) (select [] cs) (IsUnique-update_paths now cs m h)
        (λ k hk. sym (keys-update_paths now cs m k) ∙ hk) in
    omega arith

get-update_paths :
    (now : Instant) (cs : List SocketAddr) (m : List (SocketAddr × ProbePath)) (a : SocketAddr)
    → get (update_paths now cs m) a ≡ (
        if contains (select [] cs) a
        then if contains_key m a then get m a else some (new_path now)
        else none)
get-update_paths now cs m a = ground (
  arith,
  get-add_paths now (select [] cs) (retain_paths (select [] cs) m) a,
  contains_key-retain_keys (λ a. contains (select [] cs) a) m a,
  get-retain_keys (λ a. contains (select [] cs) a) m a,
)

-- What a path was before, if it counts: the token has not changed and the path exists.
abbrev pub kept_path : Bool → List (SocketAddr × ProbePath) → SocketAddr → Instant → ProbePath
kept_path same m a now = elim (if same then get m a else none) [ none ↦ new_path now | some p ↦ p ]

-- With a token and at most 64 candidates, the paths afterwards are exactly at the candidates; a path
-- that was there before is kept as it is if the token is the one from before, and every other one is
-- new and due at once.
pub update_remote-paths :
    (now : Instant) (token : Bytes) (candidates : List SocketAddr) (s : State) (a : SocketAddr)
    → length candidates ≤ max_probe_paths
    → get (update_remote now (some token) candidates s).paths a ≡ (
        if contains candidates a
        then some (kept_path (remote_eq s.remote_token (some token)) s.paths a now)
        else none)
unfolding update_remote
update_remote-paths now token candidates s a h = ground (
  arith,
  select-contains [] candidates a,
  get-update_paths now candidates s.paths a,
  get-update_paths now candidates [] a,
  contains_key-get s.paths a,
  get_none-contains_key s.paths a,
)
