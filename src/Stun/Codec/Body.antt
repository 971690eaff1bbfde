-- ===== src/Stun/Codec/Body.antt =====
-- What the body of a binding response is, apart from any cursor: attributes one after the other, and
-- of each address the first occurrence.
use p2p_tunnler.Prelude.{
  ℕ, ◌+◌, ◌*◌, ◌/◌, ◌^◌, ◌<◌, ◌≡◌, refl, Option, none, some, List, [], ◌∷◌, ◌++◌, length, ok, arith,
}
use p2p_tunnler.Net.{Bytes, SocketAddr}
use p2p_tunnler.Stun.Codec.Types.{Attribute}
use p2p_tunnler.Stun.Codec.Decode.{read_value, Fields, get_or_insert, note_attribute}
use p2p_tunnler.Stun.Codec.Tlv.{tlv}

-- What the loop does not refuse.
abbrev pub IsExpected : Attribute → Type 0
IsExpected (Attribute.response_address s) = ⊥
IsExpected (Attribute.change_request c) = ⊥
IsExpected (Attribute.username u) = ⊥
IsExpected a = Unit

pub data Body (key : Bytes) : Bytes → List Attribute → Type 0 where
  end : Body key [] []
  item :
      {bytes rest : Bytes} {a : Attribute} {attributes : List Attribute} (typ : ℕ)
      (value pad : Bytes)
      → typ < 2 ^ 16
      → length value < 2 ^ 16
      → length value + length pad ≡ (length value + 3) / 4 * 4
      → read_value typ value key ≡ ok a
      → IsExpected a
      → bytes ≡ tlv typ value pad ++ rest
      → Body key rest attributes
      → Body key bytes (a ∷ attributes)

-- The first attribute that carries an address of a kind.
abbrev pub first : (Attribute → Option SocketAddr) → List Attribute → Option SocketAddr
first kind [] = none
first kind (a ∷ rest) = elim (kind a) [ some s ↦ some s | none ↦ first kind rest ]

abbrev pub mapped_of : Attribute → Option SocketAddr
mapped_of (Attribute.mapped_address s) = some s
mapped_of a = none

abbrev pub source_of : Attribute → Option SocketAddr
source_of (Attribute.source_address s) = some s
source_of a = none

abbrev pub changed_of : Attribute → Option SocketAddr
changed_of (Attribute.changed_address s) = some s
changed_of a = none

abbrev pub reflected_of : Attribute → Option SocketAddr
reflected_of (Attribute.reflected_from s) = some s
reflected_of a = none

abbrev or_else : Option SocketAddr → Option SocketAddr → Option SocketAddr
or_else (some s) o = some s
or_else none o = o

-- The locals after attributes that are read on top of `f`.
abbrev pub note_all : Fields → List Attribute → Fields
note_all f attributes = record {
  mapped = or_else f.mapped (first mapped_of attributes);
  source = or_else f.source (first source_of attributes);
  changed = or_else f.changed (first changed_of attributes);
  reflected = or_else f.reflected (first reflected_of attributes);
}

pub note_all-nil : (f : Fields) → note_all f [] ≡ f
note_all-nil f = ground arith

-- One expected attribute more.
pub note_attribute-ok :
    (a : Attribute) (f : Fields)
    → IsExpected a
    → (g : Fields) × (note_attribute a f ≡ ok g)
      × ((attributes : List Attribute) → note_all g attributes ≡ note_all f (a ∷ attributes))
unfolding note_attribute
note_attribute-ok (Attribute.mapped_address s) f h =
    (record f { mapped = get_or_insert f.mapped s }, refl, λ xs. ground arith)
note_attribute-ok (Attribute.source_address s) f h =
    (record f { source = get_or_insert f.source s }, refl, λ xs. ground arith)
note_attribute-ok (Attribute.changed_address s) f h =
    (record f { changed = get_or_insert f.changed s }, refl, λ xs. ground arith)
note_attribute-ok (Attribute.reflected_from s) f h =
    (record f { reflected = get_or_insert f.reflected s }, refl, λ xs. ground arith)
note_attribute-ok (Attribute.message_integrity x) f h = (f, refl, λ xs. refl)
note_attribute-ok Attribute.unknown_optional f h = (f, refl, λ xs. refl)
note_attribute-ok (Attribute.response_address s) f h = absurd h
note_attribute-ok (Attribute.change_request c) f h = absurd h
note_attribute-ok (Attribute.username u) f h = absurd h

-- The loop goes on only behind an expected attribute.
pub note_attribute-IsExpected :
    (a : Attribute) (f g : Fields) → note_attribute a f ≡ ok g → IsExpected a
unfolding note_attribute
note_attribute-IsExpected (Attribute.response_address s) f g e = cc
note_attribute-IsExpected (Attribute.change_request c) f g e = cc
note_attribute-IsExpected (Attribute.username u) f g e = cc
note_attribute-IsExpected (Attribute.mapped_address s) f g e = tt
note_attribute-IsExpected (Attribute.source_address s) f g e = tt
note_attribute-IsExpected (Attribute.changed_address s) f g e = tt
note_attribute-IsExpected (Attribute.reflected_from s) f g e = tt
note_attribute-IsExpected (Attribute.message_integrity x) f g e = tt
note_attribute-IsExpected Attribute.unknown_optional f g e = tt
