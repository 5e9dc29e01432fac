-- ===== src/Dict.antt =====
-- Python's dictionaries of plain values: the payload of a stored memory (a Qdrant payload), the
-- arguments of a queued operation. Only the values that the program reads are told apart. A
-- timestamp, an ISO-8601 text in UTC, stands as the instant that it names.
use memline.Prelude.{
  ℕ, String, ◌≡◌, refl, Bool, true, false, not, List, [], ◌∷◌, ◌++◌, arith, ◌==◌, if◌then◌else◌,
}

pub data Value : Type 0 where
  null : Value
  flag : Bool → Value
  time : ℕ → Value
  text : String → Value
  texts : List String → Value

-- The newest entry of a key stands first, and hides the older ones.
abbrev pub Dict : Type 0
Dict = List (String × Value)

-- d.get(key): a missing key reads as None.
abbrev pub get : String → Dict → Value
get key [] = null
get key ((k, v) ∷ d) = let rest = get key d in if k == key then v else rest

-- d.update(patch), and what the vector store does with the payload of an update.
abbrev pub merge : Dict → Dict → Dict
merge patch d = patch ++ d

-- Whether `if value` takes its branch.
abbrev pub truthy : Value → Bool
truthy null = false
truthy (flag b) = b
truthy (time t) = true
truthy (text s) = not (s == "")
truthy (texts []) = false
truthy (texts (x ∷ xs)) = true

abbrev pub is_empty : Dict → Bool
is_empty [] = true
is_empty (e ∷ d) = false

abbrev pub has : String → Dict → Bool
has key [] = false
has key ((k, v) ∷ d) = let rest = has key d in if k == key then true else rest

pub get-merge :
    (key : String) (patch d : Dict)
    → get key (merge patch d) ≡ (if has key patch then get key patch else get key d)
get-merge key [] d = refl
get-merge key ((k, v) ∷ patch) d = ground (arith, get-merge key patch d)
