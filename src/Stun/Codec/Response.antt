-- ===== src/Stun/Codec/Response.antt =====
-- `decode_const` as a whole: what it accepts, what it skips, and that it always answers.
use p2p_tunnler.Prelude.{
  ℕ, suc, ◌+◌, ◌^◌, ◌<◌, ◌≡◌, ◌≢◌, ◌↔◌, refl, sym, ap, subst, ◌∙◌, Option, none, some, List, ◌++◌,
  arith, length, drop, length-drop, ok, err,
}
use p2p_tunnler.Net.{Bytes, IsBytes}
use p2p_tunnler.Wire.{to_be_bytes, Cursor, IoResult, IsBytes-drop}
use p2p_tunnler.Stun.Codec.Types.{Attribute, BindResponse, Response, binding_response}
use p2p_tunnler.Stun.Codec.Encode.{header}
use p2p_tunnler.Stun.Codec.Decode.{
  read_header, cookie_word, check_header, read_body, read_binding_response, decode_const,
  read_attributes, no_fields, Fields, conclude, map_bind, after_header, bind_response,
}
use p2p_tunnler.Stun.Codec.Body.{
  Body, first, mapped_of, source_of, changed_of, reflected_of, note_all,
}
use p2p_tunnler.Stun.Codec.Header.{header_of, read_header-header_of, read_header-inv}
use p2p_tunnler.Stun.Codec.Loop.{read_attributes-Body, read_attributes-total, read_attributes_sound}

-- The key that masks addresses: the cookie, four zero bytes, the transaction.
abbrev pub xor_key : ℕ → Bytes
xor_key id = to_be_bytes 8 cookie_word ++ to_be_bytes 8 id

-- A datagram that answers transaction `id` with `b`: the header with the exact length, a body of
-- attributes, and in `b` the first address of each kind.
pub record Answers (id : ℕ) (msg : Bytes) (b : BindResponse) : Type 0 where
  pub body : Bytes
  pub attributes : List Attribute
  pub fits : length body < 2 ^ 16
  pub message : msg ≡ header binding_response (length body) id ++ body
  pub grammar : Body (xor_key id) body attributes
  pub mapped : first mapped_of attributes ≡ some b.mapped_address
  pub source : b.source_address ≡ first source_of attributes
  pub changed : b.changed_address ≡ first changed_of attributes
  pub reflected : b.reflected_from ≡ first reflected_of attributes

-- The four conditions that `bind_response` puts together.
abbrev Collected : List Attribute → BindResponse → Type 0
Collected attributes b =
    (first mapped_of attributes ≡ some b.mapped_address)
    × (b.source_address ≡ first source_of attributes)
    × (b.changed_address ≡ first changed_of attributes)
    × (b.reflected_from ≡ first reflected_of attributes)

bind_response-Collected :
    (attributes : List Attribute) (b : BindResponse)
    → (bind_response (note_all no_fields attributes) ≡ ok b) ↔ Collected attributes b
bind_response-Collected attributes b = (λ e. ground arith, λ c. ground arith)

abbrev pub at_start : Bytes → Cursor
at_start body = record { get_ref = body; position = 0 }

read_binding_response-Body :
    (key body : Bytes) (attributes : List Attribute) (b : BindResponse)
    → length body < 2 ^ 16
    → Body key body attributes
    → Collected attributes b
    → read_binding_response (at_start body) key ≡ some (ok b)
unfolding read_binding_response
read_binding_response-Body key body attributes b fits g c =
    rw
      (read_attributes-Body (suc (length body)) (at_start body) key no_fields (omega arith)
        (omega arith) refl g)
      (ap some ((bind_response-Collected attributes b).1 c))

conclude-ok :
    (r : Option (IoResult Fields)) (b : BindResponse)
    → conclude r ≡ some (ok b)
    → (f : Fields) × (r ≡ some (ok f)) × (bind_response f ≡ ok b)
conclude-ok none b e = cc
conclude-ok (some (err x)) b e = cc
conclude-ok (some (ok f)) b e = (f, refl, cc)

conclude-none : (r : Option (IoResult Fields)) → conclude r ≡ none → r ≡ none
conclude-none none e = refl
conclude-none (some (err x)) e = cc
conclude-none (some (ok f)) e = cc

read_binding_response_sound :
    (key body : Bytes) (b : BindResponse)
    → IsBytes body
    → read_binding_response (at_start body) key ≡ some (ok b)
    → (attributes : List Attribute) × Body key body attributes × Collected attributes b
unfolding read_binding_response
read_binding_response_sound key body b h e =
    let (f, loop, made) =
      conclude-ok (read_attributes (suc (length body)) (at_start body) key no_fields) b e in
    let (attributes, g, eq) =
      read_attributes_sound (suc (length body)) (at_start body) key no_fields f h loop in
    (attributes, g, (bind_response-Collected attributes b).0 (ap bind_response (sym eq) ∙ made))

pub read_binding_response-total :
    (key body : Bytes) → IsBytes body → read_binding_response (at_start body) key ≢ none
unfolding read_binding_response
read_binding_response-total key body h e =
    read_attributes-total (suc (length body)) (at_start body) key no_fields h (omega arith)
      (conclude-none _ e)

map_bind-ok :
    (r : Option (IoResult BindResponse)) (b : BindResponse)
    → map_bind r ≡ some (ok (some (Response.bind b)))
    → r ≡ some (ok b)
map_bind-ok none b e = cc
map_bind-ok (some (err x)) b e = cc
map_bind-ok (some (ok f)) b e = cc

-- The checks behind the header that a response passes.
check_header-ok :
    (id : ℕ) (msg : Bytes) (typ len id1 id2 : ℕ) (b : BindResponse)
    → check_header id msg (typ, len, id1, id2) ≡ some (ok (some (Response.bind b)))
    → (id2 ≡ id)
      × (id1 ≡ cookie_word)
      × (length msg ≡ 20 + len)
      × (typ ≡ binding_response)
      × (read_binding_response (at_start (drop 20 msg)) (to_be_bytes 8 id1 ++ to_be_bytes 8 id2)
          ≡ some (ok b))
unfolding check_header read_body
check_header-ok id msg typ len id1 id2 b e = ground (
  arith,
  map_bind-ok
      (read_binding_response (at_start (drop 20 msg)) (to_be_bytes 8 id1 ++ to_be_bytes 8 id2)) b,
)

same_header :
    (t t' l l' i i' j j' : ℕ) (rest : Bytes)
    → t ≡ t'
    → l ≡ l'
    → i ≡ i'
    → j ≡ j'
    → header_of t l i j ++ rest ≡ header_of t' l' i' j' ++ rest
same_header t t' l l' i i' j j' rest p q r s = cc

same_key : (i j id : ℕ) → i ≡ cookie_word → j ≡ id → to_be_bytes 8 i ++ to_be_bytes 8 j ≡ xor_key id
same_key i j id p q = cc

check_header-response :
    (id : ℕ) (msg body : Bytes) (len : ℕ) (b : BindResponse)
    → length msg ≡ 20 + len
    → len < 2 ^ 16
    → drop 20 msg ≡ body
    → read_binding_response (at_start body) (xor_key id) ≡ some (ok b)
    → check_header id msg (binding_response, len, cookie_word, id)
      ≡ some (ok (some (Response.bind b)))
unfolding check_header read_body
check_header-response id msg body len b size small rest read = ground arith

module _ (id : ℕ) (msg : Bytes) (b : BindResponse) where
  accepted :
      (h : ℕ × ℕ × ℕ × ℕ)
      → IsBytes msg
      → read_header msg ≡ ok h
      → check_header id msg h ≡ some (ok (some (Response.bind b)))
      → Answers id msg b
  accepted (typ, len, id1, id2) h good checked =
      let (i2, i1, size, t, read) = check_header-ok id msg typ len id1 id2 b checked in
      let (front, ht, hl, _, _, long) = read_header-inv msg (typ, len, id1, id2) h good in
      let (attributes, g, (m, s, c, r)) =
        read_binding_response_sound (to_be_bytes 8 id1 ++ to_be_bytes 8 id2) (drop 20 msg) b
          (IsBytes-drop 20 msg h) read in
      record {
        body = drop 20 msg;
        attributes = attributes;
        fits = omega (arith, length-drop 20 msg);
        message =
            front
            ∙ same_header typ binding_response len (length (drop 20 msg)) id1 cookie_word id2 id
                (drop 20 msg) t (omega (arith, length-drop 20 msg)) i1 i2;
        grammar = subst (λ k. Body k (drop 20 msg) attributes) (same_key id1 id2 id i1 i2) g;
        mapped = m;
        source = s;
        changed = c;
        reflected = r;
      }

  after_header_sound :
      (r : IoResult (ℕ × ℕ × ℕ × ℕ))
      → IsBytes msg
      → read_header msg ≡ r
      → after_header id msg r ≡ some (ok (some (Response.bind b)))
      → Answers id msg b
  after_header_sound (ok x) h good e = accepted x h good e
  after_header_sound (err x) h bad e = cc

  -- A datagram that answers the transaction is accepted.
  pub decode_const-Answers :
      id < 2 ^ 64 → Answers id msg b → decode_const id msg ≡ some (ok (some (Response.bind b)))
  unfolding decode_const
  decode_const-Answers small a =
      rw
        (
          a.message,
          read_header-header_of binding_response (length a.body) cookie_word id a.body (omega arith)
              a.fits (omega arith) small,
        )
        (check_header-response id (header binding_response (length a.body) id ++ a.body) a.body
          (length a.body) b (omega arith) a.fits refl
          (read_binding_response-Body (xor_key id) a.body a.attributes b a.fits a.grammar
            (a.mapped, a.source, a.changed, a.reflected)))

  -- On a datagram of bytes `decode_const` returns a binding response for a transaction exactly when
  -- the datagram answers it: type, cookie, transaction and exact length in the header, a body of
  -- attributes that are all expected, and in the response the first address of each kind.
  pub decode_const_iff :
      IsBytes msg
      → id < 2 ^ 64
      → (decode_const id msg ≡ some (ok (some (Response.bind b)))) ↔ Answers id msg b
  unfolding decode_const
  decode_const_iff h small =
      (λ e. after_header_sound (read_header msg) h refl e, λ a. decode_const-Answers small a)
