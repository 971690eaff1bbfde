-- ===== src/Stun/Codec/Loop.antt =====
-- The loop of `read_binding_response`: it ends, and it reads exactly the bodies.
use p2p_tunnler.Prelude.{
  ℕ, zero, suc, ◌+◌, ◌-◌, ◌^◌, ◌≤◌, ◌<◌, ◌≡◌, ◌≢◌, refl, sym, ap, subst, ◌∙◌, Option, none, some,
  List, [], ◌∷◌, ◌++◌, arith, ltb, lt→ltb, ltb→lt, length, length-drop, drop-all, Bool-cases,
  Result-cases, inl, inr, ok, err,
}
use p2p_tunnler.Net.{Bytes, IsBytes}
use p2p_tunnler.Wire.{
  Cursor, remaining, length-remaining, remaining-advance, IoResult, invalid_data,
}
use p2p_tunnler.Stun.Codec.Types.{Attribute}
use p2p_tunnler.Stun.Codec.Decode.{read_attribute, note_attribute, read_attributes, Fields}
use p2p_tunnler.Stun.Codec.Tlv.{tlv, length-tlv, read_attribute-tlv}
use p2p_tunnler.Stun.Codec.Inversion.{read_attribute-ReadAt}
use p2p_tunnler.Stun.Codec.Body.{
  Body, end, item, note_all, note_all-nil, note_attribute-ok, note_attribute-IsExpected,
}

-- Behind the end of the body the loop stops.
read_attributes-end :
    (fuel : ℕ) (c : Cursor) (key : Bytes) (f : Fields)
    → length c.get_ref ≤ c.position
    → read_attributes (suc fuel) c key f ≡ some (ok f)
unfolding read_attributes
read_attributes-end fuel c key f h = ground arith

-- Before it, an attribute that is read and noted is one round.
read_attributes-step :
    (fuel : ℕ) (c c' : Cursor) (key : Bytes) (f g : Fields) (a : Attribute)
    → c.position < length c.get_ref
    → read_attribute c key ≡ ok (a, c')
    → note_attribute a f ≡ ok g
    → read_attributes (suc fuel) c key f ≡ read_attributes fuel c' key g
unfolding read_attributes
read_attributes-step fuel c c' key f g a h e n = rw (lt→ltb c.position (length c.get_ref) h, e, n)

-- A body is read, whatever was noted before.
pub read_attributes-Body :
    {attributes : List Attribute} {bytes : Bytes} (fuel : ℕ) (c : Cursor) (key : Bytes) (f : Fields)
    → length c.get_ref < 2 ^ 63
    → length c.get_ref - c.position < fuel
    → bytes ≡ remaining c
    → Body key bytes attributes
    → read_attributes fuel c key f ≡ some (ok (note_all f attributes))
read_attributes-Body zero c key f room enough e b = absurd (omega arith)
read_attributes-Body (suc fuel) c key f room enough e end =
    read_attributes-end fuel c key f (omega (arith, ap length e, length-drop c.position c.get_ref))
    ∙ ap (λ g. some (ok g)) (sym (note_all-nil f))
read_attributes-Body (suc fuel) c key f room enough e
      (item {rest = rest} {a = a} {attributes = attributes} typ value pad ht hl hp reads expected eq
        b) =
    let ahead : remaining c ≡ tlv typ value pad ++ rest = sym e ∙ eq in
    let len = length-remaining c (tlv typ value pad) rest ahead in
    let (g, noted, more) = note_attribute-ok a f expected in
    let next : Cursor = record c { position = c.position + length (tlv typ value pad) } in
    read_attributes-step fuel c next key f g a (omega (arith, len, length-tlv typ value pad))
      (read_attribute-tlv c typ value pad rest key ht hl hp room ahead ∙ rw reads) noted
    ∙ read_attributes-Body fuel next key g room (omega (arith, len, length-tlv typ value pad))
        (sym (remaining-advance (length (tlv typ value pad)) c (tlv typ value pad) rest refl ahead))
        b
    ∙ ap (λ x. some (ok x)) (more attributes)

-- One round of the loop.
data Round (fuel : ℕ) (c : Cursor) (key : Bytes) (f : Fields) (r : Option (IoResult Fields))
    : Type 0 where
  stops : length c.get_ref ≤ c.position → r ≡ some (ok f) → Round fuel c key f r
  fails : r ≡ some (err invalid_data) → Round fuel c key f r
  goes_on :
      (a : Attribute) (c' : Cursor) (g : Fields)
      → c.position < length c.get_ref
      → read_attribute c key ≡ ok (a, c')
      → note_attribute a f ≡ ok g
      → r ≡ read_attributes fuel c' key g
      → Round fuel c key f r

read_attributes-Round :
    (fuel : ℕ) (c : Cursor) (key : Bytes) (f : Fields)
    → Round fuel c key f (read_attributes (suc fuel) c key f)
read_attributes-Round fuel c key f = elim (Bool-cases (ltb c.position (length c.get_ref))) [
  | inr past ↦ stops (ground arith) (read_attributes-end fuel c key f (ground arith))
  | inl more ↦ elim (Result-cases (read_attribute c key)) [
    | inr (e, bad) ↦ fails (unfold read_attributes in rw (more, bad))
    | inl (r, good) ↦ elim (Result-cases (note_attribute r.0 f)) [
      | inr (e, bad) ↦ fails (unfold read_attributes in rw (more, good, bad))
      | inl (g, noted) ↦
          let before = ltb→lt c.position (length c.get_ref) more in
          goes_on r.0 r.1 g before good noted
            (read_attributes-step fuel c r.1 key f g r.0 before good noted)
    ]
  ]
]

-- Each round moves the cursor on, so fuel for the bytes ahead is enough.
pub read_attributes-total :
    (fuel : ℕ) (c : Cursor) (key : Bytes) (f : Fields)
    → IsBytes c.get_ref
    → length c.get_ref - c.position < fuel
    → read_attributes fuel c key f ≢ none
read_attributes-total zero c key f h enough = absurd (omega arith)
read_attributes-total (suc fuel) c key f h enough = elim (read_attributes-Round fuel c key f) [
  | stops past e ↦ λ n. cc
  | fails e ↦ λ n. cc
  | goes_on a c' g before good noted e ↦
      let at = read_attribute-ReadAt c c' key a h good in
      λ n.
        read_attributes-total fuel c' key g (subst IsBytes (sym at.same) h)
          (omega (arith, ap length at.same, at.moved)) (sym e ∙ n)
]

-- What the loop has read is a body.
pub read_attributes_sound :
    (fuel : ℕ) (c : Cursor) (key : Bytes) (f g : Fields)
    → IsBytes c.get_ref
    → read_attributes fuel c key f ≡ some (ok g)
    → (attributes : List Attribute) × Body key (remaining c) attributes
      × (g ≡ note_all f attributes)
unfolding read_attributes
read_attributes_sound zero c key f g h e = cc
read_attributes_sound (suc fuel) c key f g h e = elim (read_attributes-Round fuel c key f) [
  | stops past s ↦ (
    [],
    subst (λ bytes. Body key bytes []) (sym (drop-all c.position c.get_ref past)) end,
    cc (note_all-nil f),
  )
  | fails s ↦ absurd (cc)
  | goes_on a c' f' before good noted s ↦
      let at = read_attribute-ReadAt c c' key a h good in
      let (attributes, b, eq) =
        read_attributes_sound fuel c' key f' g (subst IsBytes (sym at.same) h) (sym s ∙ e) in
      let (g', noted', more) = note_attribute-ok a f (note_attribute-IsExpected a f f' noted) in
      (
        a ∷ attributes,
        item at.typ at.value at.pad at.typ_fits at.value_fits at.padded at.reads
            (note_attribute-IsExpected a f f' noted) at.bytes b,
        cc (eq, noted, noted', more attributes),
      )
]
