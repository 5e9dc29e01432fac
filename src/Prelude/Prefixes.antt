-- ===== src/Prelude/Prefixes.antt =====
-- Python's order of a text and the texts that begin with it.
use Prim.Native.Nat.{Ordering}
use Prim.Native.Char.{Char, code}
use Prim.Native.String.append
use Prim.Native.String.compare
use Prim.Native.String.{String, [], ◌∷◌, ◌++◌, compare, then}
use mathlib.Core.Path.{◌≡◌, refl, ◌∙◌, ap}
use mathlib.Core.Bool.{true, false}
use text.Mathlib.TextPositions.{compare_refl, compare_self}
use memline.Prelude.Texts.{text_le}

-- A longer text comes after the one that it begins with.
compare-append : (s : String) (c : Char) (t : String) → compare (s ++ (c ∷ t)) s ≡ Ordering.gt
compare-append [] c t = ap (λ x. compare x []) (append.nil (c ∷ t)) ∙ compare.cons-nil c t
compare-append (d ∷ s) c t =
    ap (λ x. compare x (d ∷ s)) (append.cons d s (c ∷ t))
    ∙ compare.cons-cons d d (s ++ (c ∷ t)) s
    ∙ ap (λ o. then o (compare (s ++ (c ∷ t)) s)) (compare_self (code d))
    ∙ compare-append s c t

pub text_le-append : (s : String) (c : Char) (t : String) → text_le (s ++ (c ∷ t)) s ≡ false
text_le-append s c t = rw (compare-append s c t, text_le) refl

pub text_le_refl : (s : String) → text_le s s ≡ true
text_le_refl s = rw (compare_refl s, text_le) refl
