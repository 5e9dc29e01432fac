-- ===== src/Prelude/Texts.antt =====
-- Python's operations on texts: `str.strip`, the number of characters, and `+`.
use Prim.Native.Nat.{ℕ, zero, suc, Ordering}
use Prim.Native.Char.{Char, code}
use Prim.Native.String.{String, [], ◌∷◌, compare}
use Prim.Native.String as Text
use mathlib.Core.Bool.{Bool, true, false, ◌&&◌, ◌||◌}
use memline.Prelude.Tests.{leb, if◌then◌else◌}
use text.Mathlib.Text.{◌==◌}

abbrev pub between : ℕ → ℕ → ℕ → Bool
between low n high = leb low n && leb n high

-- `str.isspace` of one character, by its number.
abbrev pub is_space : Char → Bool
is_space c =
    between 9 (code c) 13
    || between 28 (code c) 32
    || between 133 (code c) 133
    || between 160 (code c) 160
    || between 5760 (code c) 5760
    || between 8192 (code c) 8202
    || between 8232 (code c) 8233
    || between 8239 (code c) 8239
    || between 8287 (code c) 8287
    || between 12288 (code c) 12288

abbrev pub strip_left : String → String
strip_left [] = []
strip_left (c ∷ s) = let rest = strip_left s in if is_space c then rest else c ∷ s

abbrev pub strip_right : String → String
strip_right [] = []
strip_right (c ∷ s) = let rest = strip_right s in if is_space c && rest == [] then [] else c ∷ rest

unfoldable pub strip : String → String
strip s = strip_right (strip_left s)

-- The number of characters, `len`.
abbrev pub characters : String → ℕ
characters s = Text.count s

abbrev pub append : String → String → String
append s t = Text.◌++◌ s t

-- s[:limit]
abbrev pub first_characters : ℕ → String → String
first_characters zero s = []
first_characters (suc limit) [] = []
first_characters (suc limit) (c ∷ s) = c ∷ first_characters limit s

-- Python's `<=` on texts, by their characters.
abbrev pub text_le : String → String → Bool
text_le a b = elim (compare a b) [ Ordering.gt ↦ false | _ ↦ true ]
