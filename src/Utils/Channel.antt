-- ===== src/Utils/Channel.antt =====
-- The bounded channels, `tokio::sync::mpsc`, and `try_send` of src/utils.rs.
use p2p_tunnler.Prelude.{
  ℕ, ◌≤◌, ◌<◌, ◌≡◌, Bool, true, false, List, [], ◌∷◌, ◌++◌, leb, if◌then◌else◌, length,
  length-append, length-take, take, take-all, take_full, take-take-append, append-nil, append_assoc,
  dec_lt, ap, sym, ◌∙◌, Result, ok, err, ◌>>=◌, arith,
}

abbrev pub udp_queue_capacity : ℕ
udp_queue_capacity = 256

-- What has been sent and not yet received, oldest first.
pub record Channel {ℓ} (A : Type ℓ) : Type ℓ where
  pub queue : List A
  pub capacity : ℕ
  pub closed : Bool

-- The one error of `try_send`: the task that receives has stopped.
pub data TaskError : Type 0 where
  task_stopped : TaskError

module _ {ℓ} {A : Type ℓ} where
  -- `mpsc::channel(capacity)`.
  abbrev pub channel : ℕ → Channel A
  channel capacity = record { queue = []; capacity = capacity; closed = false }

  -- `try_send`: whether the message was queued, and the channel afterwards.
  unfoldable pub try_send : Channel A → A → Result TaskError (Bool × Channel A)
  try_send c message =
      if c.closed
      then err task_stopped
      else if leb c.capacity (length c.queue)
      then ok (false, c)
      else ok (true, record c { queue = c.queue ++ message ∷ [] })

  -- No more waits than fit.
  abbrev pub IsBounded : Channel A → Type 0
  IsBounded c = length c.queue ≤ c.capacity

  -- A message is queued last if there is room and dropped if not; an error needs a stopped task.
  pub try_send-ok :
      (c c' : Channel A) (message : A) (queued : Bool)
      → try_send c message ≡ ok (queued, c')
      → (c.closed ≡ false)
        × (c'.capacity ≡ c.capacity)
        × (c'.closed ≡ false)
        × (c'.queue ≡ (if queued then c.queue ++ message ∷ [] else c.queue))
        × ((queued ≡ true) → length c.queue < c.capacity)
        × ((queued ≡ false) → c.capacity ≤ length c.queue)
  unfolding try_send
  try_send-ok c c' message queued e = ground arith

  pub try_send-IsBounded :
      (c c' : Channel A) (message : A) (queued : Bool)
      → IsBounded c
      → try_send c message ≡ ok (queued, c')
      → IsBounded c'
  unfolding try_send
  try_send-IsBounded c c' message queued h e = ground (arith, length-append c.queue (message ∷ []))

module _ {ℓ} {A : Type ℓ} where
  -- A channel after messages that nobody receives: those that fit, the oldest first.
  abbrev pub after : Channel A → List A → Channel A
  after c messages = record c { queue = take c.capacity (c.queue ++ messages) }

  pub after-nil : (c : Channel A) → IsBounded c → after c [] ≡ c
  after-nil c h =
      ap (λ q. record c { queue = q })
        (ap (take c.capacity) (append-nil c.queue) ∙ take-all c.capacity c.queue h)

  pub after-after : (c : Channel A) (xs ys : List A) → after (after c xs) ys ≡ after c (xs ++ ys)
  after-after c xs ys =
      ap (λ q. record c { queue = q })
        (take-take-append c.capacity (c.queue ++ xs) ys
          ∙ ap (take c.capacity) (append_assoc c.queue xs ys))

  pub after-IsBounded : (c : Channel A) (xs : List A) → IsBounded (after c xs)
  after-IsBounded c xs = omega (arith, length-take c.capacity (c.queue ++ xs))

  after_room :
      (c : Channel A) (message : A)
      → length c.queue < c.capacity
      → take c.capacity (c.queue ++ message ∷ []) ≡ c.queue ++ message ∷ []
  after_room c message room =
      take-all c.capacity (c.queue ++ message ∷ [])
        (omega (arith, length-append c.queue (message ∷ [])))

  after_full :
      (c : Channel A) (message : A)
      → length c.queue ≡ c.capacity
      → take c.capacity (c.queue ++ message ∷ []) ≡ c.queue
  after_full c message full =
      ap (λ (n : ℕ). take n (c.queue ++ message ∷ [])) (sym full) ∙ take_full c.queue (message ∷ [])

  -- To an open channel a message is always sent or dropped.
  pub try_send-after :
      (c : Channel A) (message : A)
      → c.closed ≡ false
      → IsBounded c
      → (queued : Bool) × (try_send c message ≡ ok (queued, after c (message ∷ [])))
  unfolding try_send
  try_send-after c message open_ h = elim (dec_lt (length c.queue) c.capacity) [
    | yes room ↦ (true, ground (arith, after_room c message room))
    | no full ↦ (false, ground (arith, after_full c message (omega arith)))
  ]

  -- The loop `for message in messages { let _ = try_send(sender, message)?; }`.
  unfoldable pub try_send_all : Channel A → List A → Result TaskError (Channel A)
  try_send_all c [] = ok c
  try_send_all c (message ∷ messages) = do (_, c') ← try_send c message; try_send_all c' messages

  pub try_send_all-after :
      (c : Channel A) (messages : List A)
      → c.closed ≡ false
      → IsBounded c
      → try_send_all c messages ≡ ok (after c messages)
  unfolding try_send_all
  try_send_all-after c [] open_ h = ap ok (sym (after-nil c h))
  try_send_all-after c (message ∷ messages) open_ h =
      let (queued, e) = try_send-after c message open_ h in
      rw e (
        try_send_all-after (after c (message ∷ [])) messages open_
          (after-IsBounded c (message ∷ []))
        ∙ ap ok (after-after c (message ∷ []) messages))
