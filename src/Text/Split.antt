-- ===== src/Text/Split.antt =====
-- The parts of a text: `lines`, `split_whitespace` and `strip_prefix` of `str`.
use p2p_tunnler.Prelude.{
  ℕ, ◌≡◌, ◌↔◌, refl, ap, Bool, false, ◌&&◌, ◌||◌, Option, none, some, List, [], ◌∷◌, ◌++◌, ◌==◌,
  leb, if◌then◌else◌, arith, ==_iff, inl, inr, ◌∙◌, sym, All, Option-cases,
}
use Prim.Native.Char.{code}
use Prim.Native.String.{String, ◌++◌ as append}
use text.Mathlib.TextEquality.{Char-path}
use text.Mathlib.TextLemmas.{nil-append, cons-append}

abbrev starts_line_end : List ℕ → Bool
starts_line_end [] = false
starts_line_end (c ∷ cs) = c == b'\n'

abbrev onto_first : ℕ → List (List ℕ) → List (List ℕ)
onto_first c [] = (c ∷ []) ∷ []
onto_first c (line ∷ lines) = (c ∷ line) ∷ lines

-- Each line ends with a line feed, with or without a carriage return before it, or with the text.
unfoldable pub lines : List ℕ → List (List ℕ)
lines [] = []
lines (c ∷ cs) =
    let rest = lines cs in
    if c == b'\n'
    then [] ∷ rest
    else if c == b'\r' && starts_line_end cs
    then rest
    else onto_first c rest

-- `char::is_whitespace`.
abbrev pub is_whitespace : ℕ → Bool
is_whitespace c =
    (leb 9 c && leb c 13)
    || c == 32
    || c == 0x85
    || c == 0xA0
    || c == 0x1680
    || (leb 0x2000 c && leb c 0x200A)
    || c == 0x2028
    || c == 0x2029
    || c == 0x202F
    || c == 0x205F
    || c == 0x3000

abbrev flushed : List ℕ → List (List ℕ) → List (List ℕ)
flushed [] words = words
flushed (c ∷ cs) words = (c ∷ cs) ∷ words

-- The word at the start of a text, which may be empty, and the words behind it.
abbrev words_from : List ℕ → List ℕ × List (List ℕ)
words_from [] = ([], [])
words_from (c ∷ cs) =
    let (word, words) = words_from cs in
    if is_whitespace c then ([], flushed word words) else (c ∷ word, words)

unfoldable pub split_whitespace : List ℕ → List (List ℕ)
split_whitespace text = let (word, words) = words_from text in flushed word words

abbrev pub or_else : {B : Type 0} → Option B → Option B → Option B
or_else (some b) rest = some b
or_else none rest = rest

-- `find_map` of an iterator.
abbrev pub find_map {ℓ} : {A : Type ℓ} {B : Type 0} → (A → Option B) → List A → Option B
find_map f [] = none
find_map f (x ∷ xs) = or_else (f x) (find_map f xs)

unfoldable pub strip_prefix : String → String → Option String
strip_prefix String.[] text = some text
strip_prefix (String.◌∷◌ c prefix) String.[] = none
strip_prefix (String.◌∷◌ c prefix) (String.◌∷◌ d text) =
    let rest = strip_prefix prefix text in if code c == code d then rest else none

pub find_map-some {ℓ} :
    {A : Type ℓ} {B : Type 0} (f : A → Option B) (xs : List A) (b : B)
    → find_map f xs ≡ some b
    → (before : List A) × (x : A) × (after : List A) × (xs ≡ before ++ x ∷ after)
      × All (λ y. f y ≡ none) before
      × (f x ≡ some b)
find_map-some f [] b h = absurd cc
find_map-some f (x ∷ xs) b h = elim (Option-cases (f x)) [
  | inr (found, e) ↦ ([], x, xs, refl, tt, e ∙ (ap (λ o. or_else o (find_map f xs)) (sym e) ∙ h))
  | inl e ↦
      let (before, y, after, split, skipped, here) =
        find_map-some f xs b (ap (λ o. or_else o (find_map f xs)) (sym e) ∙ h) in
      (x ∷ before, y, after, ap (◌∷◌ x) split, (e, skipped), here)
]

pub some-find_map {ℓ} :
    {A : Type ℓ} {B : Type 0} (f : A → Option B) (before : List A) (x : A) (after : List A) (b : B)
    → All (λ y. f y ≡ none) before
    → f x ≡ some b
    → find_map f (before ++ x ∷ after) ≡ some b
some-find_map f [] x after b skipped here = ap (λ o. or_else o (find_map f after)) here
some-find_map f (y ∷ before) x after b (e, skipped) here =
    ap (λ o. or_else o (find_map f (before ++ x ∷ after))) e
    ∙ some-find_map f before x after b skipped here

strip_prefix-some :
    (prefix text rest : String) → strip_prefix prefix text ≡ some rest → text ≡ append prefix rest
unfolding strip_prefix
strip_prefix-some String.[] text rest h = cc (h, nil-append rest)
strip_prefix-some (String.◌∷◌ c prefix) String.[] rest h = absurd cc
strip_prefix-some (String.◌∷◌ c prefix) (String.◌∷◌ d text) rest h =
    let same : code c ≡ code d = ground arith in
    let inner : strip_prefix prefix text ≡ some rest = ground arith in
    cc (Char-path c d same, strip_prefix-some prefix text rest inner, cons-append c prefix rest)

strip_prefix-append : (prefix rest : String) → strip_prefix prefix (append prefix rest) ≡ some rest
unfolding strip_prefix
strip_prefix-append String.[] rest = ap some (nil-append rest)
strip_prefix-append (String.◌∷◌ c prefix) rest =
    ap (strip_prefix (String.◌∷◌ c prefix)) (cons-append c prefix rest)
    ∙ ground (arith, strip_prefix-append prefix rest, ==_iff (code c) (code c))

-- What is left of a text without a prefix.
pub strip_prefix_iff :
    (prefix text rest : String)
    → (strip_prefix prefix text ≡ some rest) ↔ (text ≡ append prefix rest)
strip_prefix_iff prefix text rest = (
  strip_prefix-some prefix text rest,
  λ e. ap (strip_prefix prefix) e ∙ strip_prefix-append prefix rest,
)
