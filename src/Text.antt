-- ===== src/Text.antt =====
-- Text as `str` of the standard library has it: numbers in text and the parts of a text. A text is the
-- list of its code points; what the program looks for is ASCII.
pub mod Numbers
pub mod Split
use p2p_tunnler.Prelude.{List, [], ◌∷◌, ℕ}
use Prim.Native.Char.{code}
use Prim.Native.String.{String}

abbrev pub codes : String → List ℕ
codes String.[] = []
codes (String.◌∷◌ c s) = code c ∷ codes s
