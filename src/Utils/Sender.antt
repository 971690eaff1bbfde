-- ===== src/Utils/Sender.antt =====
-- The UDP sender task in `split_udp_socket` of src/utils.rs: `should_retry_udp_send` and the loop around
-- `send_to`, over the outcomes of the calls.
use p2p_tunnler.Prelude.{
  ℕ, zero, suc, ◌≡◌, ◌↔◌, refl, ap, ◌∙◌, Bool, true, false, Option, none, some, List, [], ◌∷◌, ◌==◌,
  if◌then◌else◌, arith, Result, ok, err, length,
}

-- The kinds of `io::Error` that the code tells apart.
pub data SendError : Type 0 where
  network_unreachable : SendError
  other : ℕ → SendError

unfoldable pub should_retry_udp_send : SendError → Bool
should_retry_udp_send network_unreachable = true
should_retry_udp_send (other code) = false

-- An outcome of `send_to`: the number of bytes sent, or an error.
pub data Sent : Type 0 where
  sent : ℕ → Sent
  refused : SendError → Sent

-- How the task fails: a part of a datagram was sent, or the socket failed.
pub data SenderError : Type 0 where
  short_send : ℕ → ℕ → SenderError
  socket_failed : SendError → SenderError

-- The inner loop for one datagram. `none`: it still retries. The outcomes that it leaves are for the
-- next datagrams.
unfoldable pub send_datagram : ℕ → List Sent → Option (Result SenderError (List Sent))
unfolding should_retry_udp_send
send_datagram len [] = none
send_datagram len (sent n ∷ rest) = some (if n == len then ok rest else err (short_send n len))
send_datagram len (refused error ∷ rest) =
    let again = send_datagram len rest in
    if should_retry_udp_send error then again else some (err (socket_failed error))

-- What follows the inner loop.
abbrev pub and_then :
    Option (Result SenderError (List Sent))
    → (List Sent → Option (Result SenderError (List Sent)))
    → Option (Result SenderError (List Sent))
and_then none next = none
and_then (some (err e)) next = some (err e)
and_then (some (ok rest)) next = next rest

-- The outer loop over the queued datagrams, by their lengths.
unfoldable pub send_queue : List ℕ → List Sent → Option (Result SenderError (List Sent))
send_queue [] outcomes = some (ok outcomes)
send_queue (len ∷ queue) outcomes = and_then (send_datagram len outcomes) (send_queue queue)

-- `n` times the network is unreachable.
abbrev pub unreachable : ℕ → List Sent → List Sent
unreachable zero rest = rest
unreachable (suc n) rest = refused network_unreachable ∷ unreachable n rest

send_datagram-unreachable :
    (len n : ℕ) (rest : List Sent) → send_datagram len (unreachable n rest) ≡ send_datagram len rest
unfolding send_datagram
send_datagram-unreachable len zero rest = refl
send_datagram-unreachable len (suc n) rest = send_datagram-unreachable len n rest

sends :
    (len : ℕ) (outcomes rest : List Sent)
    → send_datagram len outcomes ≡ some (ok rest)
    → (n : ℕ) × (outcomes ≡ unreachable n (sent len ∷ rest))
unfolding send_datagram
sends len [] rest h = absurd cc
sends len (sent n ∷ others) rest h = (0, ground arith)
sends len (refused network_unreachable ∷ others) rest h =
    let (n, e) = sends len others rest h in (suc n, ap (◌∷◌ (refused network_unreachable)) e)
sends len (refused (other code) ∷ others) rest h = absurd cc

-- A datagram is done exactly if, after any number of refusals because the network is unreachable, all
-- of it was sent; what follows is left for the next one.
pub send_datagram_iff :
    (len : ℕ) (outcomes rest : List Sent)
    → (send_datagram len outcomes ≡ some (ok rest))
      ↔ ((n : ℕ) × (outcomes ≡ unreachable n (sent len ∷ rest)))
unfolding send_datagram
send_datagram_iff len outcomes rest = (
  sends len outcomes rest,
  λ (n, e).
      ap (send_datagram len) e ∙ send_datagram-unreachable len n (sent len ∷ rest) ∙ ground arith,
)

-- The outcomes of serving a queue: for each datagram in turn, as often as its number says that the network
-- is unreachable, and then all of it sent.
pub served : List ℕ → List ℕ → List Sent → List Sent
served [] tries rest = rest
served (len ∷ queue) [] rest = rest
served (len ∷ queue) (n ∷ tries) rest = unreachable n (sent len ∷ served queue tries rest)

served_ok :
    (queue : List ℕ) (outcomes rest : List Sent)
    → send_queue queue outcomes ≡ some (ok rest)
    → (tries : List ℕ) × (length tries ≡ length queue) × (outcomes ≡ served queue tries rest)
unfolding send_queue served
served_ok [] outcomes rest h = ([], refl, cc)
served_ok (len ∷ queue) outcomes rest h =
    go (λ others. served_ok queue others rest) (send_datagram len outcomes) refl h
  where
    go :
        ((others : List Sent)
          → send_queue queue others ≡ some (ok rest)
          → (tries : List ℕ) × (length tries ≡ length queue) × (others ≡ served queue tries rest))
        → (r : Option (Result SenderError (List Sent))) → send_datagram len outcomes ≡ r
        → and_then r (send_queue queue) ≡ some (ok rest)
        → (tries : List ℕ) × (length tries ≡ suc (length queue))
          × (outcomes ≡ served (len ∷ queue) tries rest)
    go again none e h = absurd cc
    go again (some (err x)) e h = absurd cc
    go again (some (ok others)) e h =
        let (n, first) = sends len outcomes others e in
        let (tries, size, later) = again others h in
        (n ∷ tries, ap suc size, first ∙ ap (λ xs. unreachable n (sent len ∷ xs)) later)

next_datagram :
    (len : ℕ) (queue : List ℕ) (outcomes others : List Sent)
    → send_datagram len outcomes ≡ some (ok others)
    → send_queue (len ∷ queue) outcomes ≡ send_queue queue others
unfolding send_queue
next_datagram len queue outcomes others e = ap (λ r. and_then r (send_queue queue)) e

served_back :
    (queue tries : List ℕ) (rest : List Sent)
    → length tries ≡ length queue
    → send_queue queue (served queue tries rest) ≡ some (ok rest)
unfolding send_queue served
served_back [] tries rest size = refl
served_back (len ∷ queue) [] rest size = absurd (omega arith)
served_back (len ∷ queue) (n ∷ tries) rest size =
    let others = served queue tries rest in
    next_datagram len queue (unreachable n (sent len ∷ others)) others
      ((send_datagram_iff len (unreachable n (sent len ∷ others)) others).1 (n, refl))
    ∙ served_back queue tries rest (omega (arith, size))

-- The sender is done with all datagrams that it takes from its queue exactly if the calls of the socket
-- sent all of each of them once, in the order of the queue, and before each were refused any number of
-- times because the network was unreachable. What follows in the outcomes is left.
pub send_queue_iff :
    (queue : List ℕ) (outcomes rest : List Sent)
    → (send_queue queue outcomes ≡ some (ok rest))
      ↔ ((tries : List ℕ) × (length tries ≡ length queue) × (outcomes ≡ served queue tries rest))
send_queue_iff queue outcomes rest = (
  served_ok queue outcomes rest,
  λ (tries, size, e). ap (send_queue queue) e ∙ served_back queue tries rest size,
)
