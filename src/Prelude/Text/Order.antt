-- ===== src/Prelude/Text/Order.antt =====
-- The byte order of strings, `strings.Compare`, which on valid UTF-8 is the order of code points.
use Prim.Native.Char.{Char, code}
use Prim.Native.String.{String, [], ◌∷◌}
use mathlib.Core.Path.{◌≡◌, refl, ap₂}
use mathlib.Core.Bool.{Bool, true, false}
use native.Mathlib.Omega.{arith}
use text.Mathlib.TextEquality.{Char-path}
use hush_hush_cli.Prelude.Tests.{ltb, if◌then◌else◌}

-- Whether the first text is not after the second.
unfoldable pub str_le : String → String → Bool
str_le [] t = true
str_le (c ∷ s) [] = false
str_le (c ∷ s) (d ∷ t) =
    if ltb (code c) (code d) then true else if ltb (code d) (code c) then false else str_le s t

pub str_le_total : (s t : String) → str_le s t ≡ false → str_le t s ≡ true
unfolding str_le
str_le_total [] t h = cc
str_le_total (c ∷ s) [] h = refl
str_le_total (c ∷ s) (d ∷ t) h = ground (arith, str_le_total s t)

pub str_le_trans : (s t u : String) → str_le s t ≡ true → str_le t u ≡ true → str_le s u ≡ true
unfolding str_le
str_le_trans [] t u h k = refl
str_le_trans (c ∷ s) [] u h k = cc
str_le_trans (c ∷ s) (d ∷ t) [] h k = cc
str_le_trans (c ∷ s) (d ∷ t) (e ∷ u) h k = ground (arith, str_le_trans s t u)

pub str_le_refl : (s : String) → str_le s s ≡ true
unfolding str_le
str_le_refl [] = refl
str_le_refl (c ∷ s) = ground (arith, str_le_refl s)

same_code : (c d : Char) → ltb (code c) (code d) ≡ false → ltb (code d) (code c) ≡ false → c ≡ d
same_code c d h k = Char-path c d (ground arith)

pub str_le_antisymm : (s t : String) → str_le s t ≡ true → str_le t s ≡ true → s ≡ t
unfolding str_le
str_le_antisymm [] [] h k = refl
str_le_antisymm [] (d ∷ t) h k = cc
str_le_antisymm (c ∷ s) [] h k = cc
str_le_antisymm (c ∷ s) (d ∷ t) h k =
    ap₂ ◌∷◌ (same_code c d (ground arith) (ground arith))
      (str_le_antisymm s t (ground arith) (ground arith))
