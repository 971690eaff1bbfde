-- ===== src/Candidates/Replay.antt =====
-- The replay protection of `listen_for_peer_candidates` in src/candidates.rs over histories.
use p2p_tunnler.Prelude.{
  ◌≤◌, ◌≡◌, refl, ap, true, false, not, Option, none, some, List, [], ◌∷◌, if-elim_with, arith,
}
use p2p_tunnler.Net.{Bytes}
use p2p_tunnler.Crypto.{decrypt}
use p2p_tunnler.Probe.Types.{Instant}
use p2p_tunnler.Candidates.Types.{SystemTime, Message}
use p2p_tunnler.Candidates.Filter.{is_fresh_dht_timestamp}
use p2p_tunnler.Candidates.Listener.{
  Codecs, ConnectionFlags, Listener, Arrival, accept, checked, decrypted, is_replay, apply_message,
  apply_accepted, listen, listen_all,
}

-- The message that a value holds, whatever its timestamp.
abbrev pub message_of : Codecs → Bytes → Option Message
message_of codecs value = decrypted codecs (decrypt codecs.salsa value)

pub checked-some :
    (now : SystemTime) (last : Option SystemTime) (found : Option Message) (message : Message)
    → checked now last found ≡ some message
    → (found ≡ some message)
      × (is_fresh_dht_timestamp message.timestamp now ≡ true)
      × (is_replay last message.timestamp ≡ false)
checked-some now last none message h = absurd cc
checked-some now last (some m) message h = ground arith

-- No message at or before the instant is accepted any more.
record IsPast (bound : SystemTime) (l : Listener) : Type 0 where
  last : SystemTime
  reached : l.last_timestamp ≡ some last
  late : bound ≤ last

IsPast-after_accepted :
    (codecs : Codecs) (flags : ConnectionFlags) (instant : Instant) (now bound : SystemTime)
    (found : Option Message) (l : Listener)
    → IsPast bound l
    → IsPast bound (apply_accepted codecs flags instant (checked now l.last_timestamp found) l)
unfolding apply_message
IsPast-after_accepted codecs flags instant now bound none l p = p
IsPast-after_accepted codecs flags instant now bound (some m) l p =
    let P : Option Message → Type 0 =
      λ found. IsPast bound (apply_accepted codecs flags instant found l) in
    if-elim_with P (not (is_fresh_dht_timestamp m.timestamp now)) _ _ (λ e. p)
      (λ e.
        if-elim_with P (is_replay l.last_timestamp m.timestamp) _ _ (λ e'. p)
          (λ e'. record {
            last = m.timestamp;
            reached = refl;
            late = ground (arith, e', p.reached, p.late);
          }))

IsPast-after_listen :
    (codecs : Codecs) (flags : ConnectionFlags) (bound : SystemTime) (arrivals : List Arrival)
    (l : Listener)
    → IsPast bound l
    → IsPast bound (listen_all codecs flags arrivals l)
unfolding listen accept
IsPast-after_listen codecs flags bound [] l p = p
IsPast-after_listen codecs flags bound (a ∷ rest) l p =
    IsPast-after_listen codecs flags bound rest (listen codecs flags a l)
      (IsPast-after_accepted codecs flags a.instant a.now bound (message_of codecs a.value) l p)

IsPast-accepted :
    (codecs : Codecs) (flags : ConnectionFlags) (instant : Instant) (found : Option Message)
    (message : Message) (l : Listener)
    → found ≡ some message
    → IsPast message.timestamp (apply_accepted codecs flags instant found l)
unfolding apply_message
IsPast-accepted codecs flags instant none message l h = absurd cc
IsPast-accepted codecs flags instant (some m) message l h = record {
  last = m.timestamp;
  reached = refl;
  late = ground arith;
}

replayed :
    (now last : SystemTime) (l : Option SystemTime) (found : Option Message) (old : Message)
    → found ≡ some old
    → l ≡ some last
    → old.timestamp ≤ last
    → checked now l found ≡ none
replayed now last none found old h e earlier = absurd cc
replayed now last (some t) none old h e earlier = absurd cc
replayed now last (some t) (some m) old h e earlier = ground arith

-- Once a message is accepted, no value that holds a message with the same or an earlier timestamp is,
-- whatever has arrived in between and whenever it comes; so no accepted value has an effect twice, and
-- the listener is unchanged by it.
pub no_replay :
    (codecs : Codecs) (flags : ConnectionFlags) (l : Listener) (first again : Arrival)
    (between : List Arrival) (message old : Message)
    → accept codecs first.now l.last_timestamp first.value ≡ some message
    → message_of codecs again.value ≡ some old
    → old.timestamp ≤ message.timestamp
    → let l' = listen_all codecs flags between (listen codecs flags first l) in
      (accept codecs again.now l'.last_timestamp again.value ≡ none)
      × (listen codecs flags again l' ≡ l')
unfolding listen accept
no_replay codecs flags l first again between message old h held earlier =
    let accepted : Option Message = accept codecs first.now l.last_timestamp first.value in
    let l1 = listen codecs flags first l in
    let l2 = listen_all codecs flags between l1 in
    let p =
      IsPast-after_listen codecs flags message.timestamp between l1
        (IsPast-accepted codecs flags first.instant accepted message l h) in
    let none_again : accept codecs again.now l2.last_timestamp again.value ≡ none =
      replayed again.now p.last l2.last_timestamp (message_of codecs again.value) old held p.reached
        (omega (arith, earlier, p.late)) in
    (none_again, ap (λ found. apply_accepted codecs flags again.instant found l2) none_again)
