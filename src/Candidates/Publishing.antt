-- ===== src/Candidates/Publishing.antt =====
-- The loop of `publish_candidates` in src/candidates.rs, and what the peer's listener makes of all that it
-- puts into the DHT.
use p2p_tunnler.Prelude.{
  ◌≡◌, refl, ap, ◌∙◌, sym, true, false, Option, some, List, [], ◌∷◌, length, Bool, ensure, Result,
  ok, ◌>>=◌, >>=-eq-ok, ok-injective,
}
use Prim.Native.String.{String}
use p2p_tunnler.Net.{Bytes, SocketAddr}
use p2p_tunnler.Crypto.{SalsaBox, nonce_bytes}
use p2p_tunnler.Probe.Types.{Instant}
use p2p_tunnler.Candidates.Types.{SystemTime, Message}
use p2p_tunnler.Candidates.Filter.{is_fresh_dht_timestamp}
use p2p_tunnler.Candidates.Listener.{
  Codecs, ConnectionFlags, Listener, Arrival, is_replay, apply_message, listen_all,
}
use p2p_tunnler.Candidates.Publisher.{
  Received, PublishError, published_message, reread, publish_value, next_addresses,
  listen-publish_value,
}

-- What a round of the loop meets: the clock, the nonce that the cipher draws, whether the DHT takes the
-- value, and what comes from the source of own candidates within a minute.
pub record Turn : Type 0 where
  pub now : SystemTime
  pub nonce : Bytes
  pub put : Bool
  pub received : Received

module _ (to_vec : Message → Option Bytes) (salsa : SalsaBox) (token : String) where
  -- The values that are put over the rounds, from the addresses that are known.
  unfoldable pub publish_from : List SocketAddr → List Turn → Result PublishError (List Bytes)
  publish_from addresses [] = ok []
  publish_from addresses (t ∷ turns) = do
    value ← publish_value to_vec salsa t.nonce t.now addresses token
    _ ← ensure t.put PublishError.dht_put
    addresses' ← next_addresses addresses t.received
    values ← publish_from addresses' turns
    ok (value ∷ values)

  -- `publish_candidates`: at first no address is known.
  unfoldable pub publish_candidates : List Turn → Result PublishError (List Bytes)
  publish_candidates turns = publish_from [] turns

-- When a value arrives at the peer.
pub record Clocks : Type 0 where
  pub arrival : SystemTime
  pub instant : Instant

-- The values as they arrive, each by the clocks of its round.
abbrev pub arrivals : List Clocks → List Bytes → List Arrival
arrivals [] values = []
arrivals (c ∷ clocks) [] = []
arrivals (c ∷ clocks) (value ∷ values) =
    record { value = value; now = c.arrival; instant = c.instant } ∷ arrivals clocks values

-- The addresses that are known after a round.
abbrev pub known_after : List SocketAddr → Received → List SocketAddr
known_after addresses (Received.new_addresses new) = new
known_after addresses Received.timed_out = addresses
known_after addresses Received.closed = addresses
known_after addresses (Received.overflowed n) = addresses

-- The messages of the rounds applied one after the other: each has the addresses that were known then,
-- without their flow labels.
pub apply_all :
    Codecs
    → ConnectionFlags
    → String
    → List SocketAddr
    → List Turn
    → List Clocks
    → Listener
    → Listener
apply_all codecs flags token addresses [] clocks l = l
apply_all codecs flags token addresses (t ∷ turns) [] l = l
apply_all codecs flags token addresses (t ∷ turns) (c ∷ clocks) l =
    apply_all codecs flags token (known_after addresses t.received) turns clocks
      (apply_message codecs flags c.instant (reread (published_message t.now addresses token)) l)

-- Each nonce is whole, each value is fresh when it arrives, and each timestamp is later than the one
-- before.
unfoldable pub AreTimely : Option SystemTime → List Turn → List Clocks → Type 0
AreTimely last [] clocks = Unit
AreTimely last (t ∷ turns) [] = Unit
AreTimely last (t ∷ turns) (c ∷ clocks) =
    (length t.nonce ≡ nonce_bytes)
    × (is_fresh_dht_timestamp t.now c.arrival ≡ true)
    × (is_replay last t.now ≡ false)
    × AreTimely (some t.now) turns clocks

known-next :
    (addresses next : List SocketAddr) (r : Received)
    → next_addresses addresses r ≡ ok next
    → next ≡ known_after addresses r
unfolding next_addresses
known-next addresses next Received.timed_out h = sym (ok-injective h)
known-next addresses next (Received.new_addresses new) h = sym (ok-injective h)
known-next addresses next Received.closed h = absurd cc
known-next addresses next (Received.overflowed n) h = sym (ok-injective h)

module _ (to_vec : Message → Option Bytes) (ours : SalsaBox) (theirs : Codecs)
    (flags : ConnectionFlags)
    (opens : (n p c : Bytes) → ours.seal n p ≡ some c → theirs.salsa.unseal n c ≡ some p)
    (parses : (m : Message) (p : Bytes) → to_vec m ≡ some p → theirs.from_slice p ≡ some (reread m))
    (token : String) where
  publish_from-listen_all :
      (addresses : List SocketAddr) (turns : List Turn) (clocks : List Clocks) (values : List Bytes)
      (l : Listener)
      → publish_from to_vec ours token addresses turns ≡ ok values
      → AreTimely l.last_timestamp turns clocks
      → listen_all theirs flags (arrivals clocks values) l
        ≡ apply_all theirs flags token addresses turns clocks l
  unfolding publish_from AreTimely apply_all apply_message
  publish_from-listen_all addresses [] [] values l h timely = refl
  publish_from-listen_all addresses [] (c ∷ clocks) values l h timely =
      ap (λ vs. listen_all theirs flags (arrivals (c ∷ clocks) vs) l) (sym (ok-injective h))
  publish_from-listen_all addresses (t ∷ turns) [] values l h timely = refl
  publish_from-listen_all addresses (t ∷ turns) (c ∷ clocks) values l h (n, fresh, newer, timely) =
      let (value, sealed, h1) =
        >>=-eq-ok (publish_value to_vec ours t.nonce t.now addresses token) _ h in
      let (u, put, h2) = >>=-eq-ok (ensure t.put PublishError.dht_put) _ h1 in
      let (next, knows, h3) = >>=-eq-ok (next_addresses addresses t.received) _ h2 in
      let (rest, others, h4) = >>=-eq-ok (publish_from to_vec ours token next turns) _ h3 in
      let m = reread (published_message t.now addresses token) in
      let l' = apply_message theirs flags c.instant m l in
      let first =
        listen-publish_value to_vec ours theirs flags l t.nonce value t.now addresses token
          c.arrival c.instant opens parses n sealed fresh newer in
      ap (λ vs. listen_all theirs flags (arrivals (c ∷ clocks) vs) l) (sym (ok-injective h4))
      ∙ ap (listen_all theirs flags (arrivals clocks rest)) first
      ∙ publish_from-listen_all next turns clocks rest l' others timely
      ∙ ap (λ a. apply_all theirs flags token a turns clocks l')
          (known-next addresses next t.received knows)

  -- What one side publishes, round after round, the other takes over: if the peer's cipher undoes this
  -- side's, its parser reads back what was printed but for the flow labels of addresses, each nonce has 24
  -- bytes, and each value is fresh when it arrives and has a later timestamp than the one before, then the
  -- peer's listener applies exactly the messages that were published, each with the token and with the
  -- addresses, without flow labels, that the source of own candidates had given last.
  pub publish_candidates-listen_all :
      (turns : List Turn) (clocks : List Clocks) (values : List Bytes) (l : Listener)
      → publish_candidates to_vec ours token turns ≡ ok values
      → AreTimely l.last_timestamp turns clocks
      → listen_all theirs flags (arrivals clocks values) l
        ≡ apply_all theirs flags token [] turns clocks l
  unfolding publish_candidates
  publish_candidates-listen_all turns clocks values l h timely =
      publish_from-listen_all [] turns clocks values l h timely
