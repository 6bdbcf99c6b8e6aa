-- ===== src/Tests/Collation.antt =====
-- The order of texts by code points, the "C" collation of a UTF-8 database, is a collation.
use Prim.Native.Char.{code}
use text.Mathlib.TextEquality.{Char-path}
use blog_be.Prelude.{String, ◌≡◌, refl, Bool, true, false, if◌then◌else◌, ltb, arith}
use blog_be.Platform.{IsCollation}

abbrev pub text_le : String → String → Bool
text_le String.[] t = true
text_le (String.◌∷◌ c s) String.[] = false
text_le (String.◌∷◌ c s) (String.◌∷◌ d t) =
    if ltb (code c) (code d) then true else if ltb (code d) (code c) then false else text_le s t

text_le-total : (s t : String) → text_le s t ≡ false → text_le t s ≡ true
text_le-total String.[] t h = ground arith
text_le-total (String.◌∷◌ c s) String.[] h = refl
text_le-total (String.◌∷◌ c s) (String.◌∷◌ d t) h = ground (arith, text_le-total s t)

text_le_trans : (s t u : String) → text_le s t ≡ true → text_le t u ≡ true → text_le s u ≡ true
text_le_trans String.[] t u h k = refl
text_le_trans (String.◌∷◌ c s) String.[] u h k = ground arith
text_le_trans (String.◌∷◌ c s) (String.◌∷◌ d t) String.[] h k = ground arith
text_le_trans (String.◌∷◌ c s) (String.◌∷◌ d t) (String.◌∷◌ e u) h k =
    ground (arith, text_le_trans s t u)

text_le_antisymm : (s t : String) → text_le s t ≡ true → text_le t s ≡ true → s ≡ t
text_le_antisymm String.[] String.[] h k = refl
text_le_antisymm String.[] (String.◌∷◌ d t) h k = ground arith
text_le_antisymm (String.◌∷◌ c s) String.[] h k = ground arith
text_le_antisymm (String.◌∷◌ c s) (String.◌∷◌ d t) h k =
    ground (arith, text_le_antisymm s t, Char-path c d)

pub text_le-IsCollation : IsCollation text_le
text_le-IsCollation = record {
  order = record { total = text_le-total; trans = text_le_trans };
  antisymm = text_le_antisymm;
}
