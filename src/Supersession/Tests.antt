-- ===== src/Supersession/Tests.antt =====
-- The walks on a small graph and on a long chain, and the theorems about them there.

use Prim.Native.String.{◌∷◌ as text_cons, count as chars}
use package.text.Mathlib.TextLemmas.{length-cons, cons≢nil}
use memline.Prelude.{
  ℕ, zero, suc, ◌+◌, String, ◌≡◌, refl, ap, none, some, [], ◌∷◌, arith, here, In, ◌↔◌, ◌⊎◌,
  if◌then◌else◌, ◌==◌, inl, inr, String-cases,
}
use memline.Result.{ok, raise, would_cycle, chain_too_long}
use memline.Dict.{text, texts}
use memline.Supersession.{
  GetPayload, successors, visit, walk, assert_no_cycle, resolve_level, resolve, resolve_head, Heads,
  ids_of,
}
use memline.Supersession.Graph.{Reaches}
use memline.Supersession.NoCycle.{assert_no_cycle_sound, assert_no_cycle_complete}
use memline.Supersession.Completeness.{resolve_head_exact}
use memline.Supersession.Resolving.{IsHead}
use memline.Supersession.Truncation.{LongChain, resolve_head_truncated}

-- a is superseded by b and c, b by d, c by d.
abbrev diamond : GetPayload
diamond id =
    if id == "a"
    then some (("superseded_by", texts ("b" ∷ "c" ∷ [])) ∷ ("data", text "A") ∷ [])
    else if id == "b"
    then some (("superseded_by", texts ("d" ∷ [])) ∷ ("data", text "B") ∷ [])
    else if id == "c"
    then some (("superseded_by", text "d") ∷ ("data", text "C") ∷ [])
    else if id == "d"
    then some (("data", text "D") ∷ [])
    else none

program : Unit {0}
unfolding visit walk assert_no_cycle resolve_level resolve resolve_head
program = tt

abbrev diamond_heads : Heads
diamond_heads = record { requested = "a"; heads = "d" ∷ []; hops = 2 }

diamond_resolves : resolve_head diamond "a" ≡ ok diamond_heads
unfolding program
diamond_resolves = refl

diamond_refuses : assert_no_cycle (successors diamond) "a" ("a" ∷ []) ≡ raise (would_cycle "a")
unfolding program
diamond_refuses = refl

diamond_passes : assert_no_cycle (successors diamond) "d" ("x" ∷ []) ≡ ok tt
unfolding program
diamond_passes = refl

assert_no_cycle_sound_example : ¬ Reaches (successors diamond) "x" "d"
assert_no_cycle_sound_example =
    assert_no_cycle_sound (successors diamond) "d" ("x" ∷ []) diamond_passes "x" (here refl)

diamond_cycle : assert_no_cycle (successors diamond) "d" ("b" ∷ []) ≡ raise (would_cycle "d")
unfolding program
diamond_cycle = refl

assert_no_cycle_complete_example :
    (would_cycle "d" ≡ chain_too_long)
    ⊎ ((would_cycle "d" ≡ would_cycle "d")
        × ((b : String) × In b ("b" ∷ []) × Reaches (successors diamond) b "d"))
assert_no_cycle_complete_example =
    assert_no_cycle_complete (successors diamond) "d" ("b" ∷ []) (would_cycle "d") diamond_cycle

resolve_head_exact_example :
    In {A = String} "d" ("d" ∷ []) ↔ (Reaches (successors diamond) "a" "d" × IsHead diamond "d")
resolve_head_exact_example =
    resolve_head_exact diamond "a" diamond_heads diamond_resolves (omega arith) "d"

-- Each id of the endless chain is followed by the id that has one more letter.
abbrev endless : GetPayload
endless id = some (("superseded_by", text (text_cons "a" id)) ∷ ("data", text id) ∷ [])

abbrev letters : ℕ → String
letters zero = "a"
letters (suc n) = text_cons "a" (letters n)

chars-letters : (n : ℕ) → chars (letters n) ≡ n + 1
chars-letters zero = refl
chars-letters (suc n) = omega (arith, length-cons "a" (letters n), chars-letters n)

not_empty : (s : String) → ids_of (text (text_cons "a" s)) ≡ text_cons "a" s ∷ []
not_empty s = elim (String-cases (text_cons "a" s) "") [
  | inl same ↦ absurd (cons≢nil same)
  | inr other ↦ rw other
]

endless-LongChain : LongChain endless letters
endless-LongChain = record {
  distinct = λ i j e. omega (arith, chars-letters i, chars-letters j, ap chars e);
  exists = λ i le. (_, refl);
  next = λ i le. not_empty (letters i);
}

resolve_head_truncated_example :
    (resolve_head endless "a" ≡ ok (record { requested = "a"; heads = []; hops = 101 }))
    × Reaches (successors endless) "a" (letters 101)
resolve_head_truncated_example = resolve_head_truncated endless letters endless-LongChain
