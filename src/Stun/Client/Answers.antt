-- ===== src/Stun/Client/Answers.antt =====
-- Which datagram `send_request` returns.
use p2p_tunnler.Prelude.{
  ℕ, ◌≡◌, ◌↔◌, ◌⊎◌, inl, inr, refl, ap, ◌∙◌, true, false, none, some, List, [], ◌∷◌, ◌++◌, ok,
  arith,
}
use p2p_tunnler.Net.{Bytes, SocketAddr}
use p2p_tunnler.Stun.Codec.Types.{Response}
use p2p_tunnler.Stun.Codec.Decode.{decode_const}
use p2p_tunnler.Stun.Client.{
  Wait, timed_out, closed, received, is_expected_stun_source, await_response,
}

-- What the loop goes past: a datagram from elsewhere, or one that is not for this transaction.
abbrev Ignored : ℕ → SocketAddr → Wait → Type 0
Ignored id server timed_out = ⊥
Ignored id server closed = ⊥
Ignored id server (received buf source) =
    (is_expected_stun_source source server ≡ false) ⊎ (decode_const id buf ≡ some (ok none))

abbrev AllIgnored : ℕ → SocketAddr → List Wait → Type 0
AllIgnored id server [] = Unit
AllIgnored id server (w ∷ rest) = Ignored id server w × AllIgnored id server rest

-- The first datagram that is not ignored comes from the server and decodes to `r`.
pub record FirstAnswer (id : ℕ) (server : SocketAddr) (waits : List Wait) (r : Response)
    : Type 0 where
  pub before : List Wait
  pub buf : Bytes
  pub source : SocketAddr
  pub after : List Wait
  pub order : waits ≡ before ++ received buf source ∷ after
  pub ignored : AllIgnored id server before
  pub expected : is_expected_stun_source source server ≡ true
  pub decoded : decode_const id buf ≡ some (ok (some r))

module _ (id : ℕ) (server : SocketAddr) (r : Response) where
  later :
      (w : Wait) (rest : List Wait)
      → Ignored id server w
      → FirstAnswer id server rest r
      → FirstAnswer id server (w ∷ rest) r
  later w rest i a = record {
    before = w ∷ a.before;
    buf = a.buf;
    source = a.source;
    after = a.after;
    order = ap (◌∷◌ w) a.order;
    ignored = (i, a.ignored);
    expected = a.expected;
    decoded = a.decoded;
  }

  now :
      (buf : Bytes) (source : SocketAddr) (rest : List Wait)
      → is_expected_stun_source source server ≡ true
      → decode_const id buf ≡ some (ok (some r))
      → FirstAnswer id server (received buf source ∷ rest) r
  now buf source rest e d = record {
    before = [];
    buf = buf;
    source = source;
    after = rest;
    order = refl;
    ignored = tt;
    expected = e;
    decoded = d;
  }

  round :
      (buf : Bytes) (source : SocketAddr) (rest : List Wait)
      → await_response id server (received buf source ∷ rest) ≡ some (ok r)
      → ((is_expected_stun_source source server ≡ true)
          × (decode_const id buf ≡ some (ok (some r))))
        ⊎ (Ignored id server (received buf source) × (await_response id server rest ≡ some (ok r)))
  unfolding await_response
  round buf source rest e = ground arith

  answered :
      (waits : List Wait)
      → await_response id server waits ≡ some (ok r)
      → FirstAnswer id server waits r
  unfolding await_response
  answered [] e = cc
  answered (timed_out ∷ rest) e = cc
  answered (closed ∷ rest) e = cc
  answered (received buf source ∷ rest) e = elim (round buf source rest e) [
    | inl (expected, decoded) ↦ now buf source rest expected decoded
    | inr (i, more) ↦ later (received buf source) rest i (answered rest more)
  ]

  skips :
      (w : Wait) (rest : List Wait)
      → Ignored id server w
      → await_response id server (w ∷ rest) ≡ await_response id server rest
  unfolding await_response
  skips timed_out rest i = absurd i
  skips closed rest i = absurd i
  skips (received buf source) rest i = ground arith

  skips_all :
      (before rest : List Wait)
      → AllIgnored id server before
      → await_response id server (before ++ rest) ≡ await_response id server rest
  skips_all [] rest i = refl
  skips_all (w ∷ before) rest i = skips w (before ++ rest) i.0 ∙ skips_all before rest i.1

  returns :
      (buf : Bytes) (source : SocketAddr) (rest : List Wait)
      → is_expected_stun_source source server ≡ true
      → decode_const id buf ≡ some (ok (some r))
      → await_response id server (received buf source ∷ rest) ≡ some (ok r)
  unfolding await_response
  returns buf source rest e d = rw (e, d) refl

  -- The wait for a response returns one exactly when the first datagram that is neither from elsewhere
  -- nor for another transaction decodes to it; before that datagram there is no timeout, no closed
  -- channel and no datagram of the server that fails to decode.
  pub await_response_iff :
      (waits : List Wait)
      → (await_response id server waits ≡ some (ok r)) ↔ FirstAnswer id server waits r
  await_response_iff waits = (
    answered waits,
    λ a.
        ap (await_response id server) a.order
        ∙ skips_all a.before (received a.buf a.source ∷ a.after) a.ignored
        ∙ returns a.buf a.source a.after a.expected a.decoded,
  )
