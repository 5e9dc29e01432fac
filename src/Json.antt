-- ===== src/Json.antt =====
-- The values that Python's `json.loads` answers. Numbers are a parameter. The items of a dictionary
-- stand in its order, with distinct keys.
use memline.Prelude.{
  String, Bool, true, false, not, Option, none, some, List, [], ◌∷◌, ◌==◌, if◌then◌else◌,
}

mutual
  pub data Json (Number : Type 0) : Type 0 where
    null : Json Number
    flag : Bool → Json Number
    number : Number → Json Number
    text : String → Json Number
    array : Jsons Number → Json Number
    object : Fields Number → Json Number

  pub data Jsons (Number : Type 0) : Type 0 where
    end : Jsons Number
    next : Json Number → Jsons Number → Jsons Number

  pub data Fields (Number : Type 0) : Type 0 where
    no_more : Fields Number
    field : String → Json Number → Fields Number → Fields Number

module _ {Number : Type 0} where
  -- d.get(key)
  abbrev pub get : String → Fields Number → Option (Json Number)
  get key no_more = none
  get key (field k v fields) = let rest = get key fields in if k == key then some v else rest

  -- d.get(key, fallback)
  abbrev pub get_or : Json Number → String → Fields Number → Json Number
  get_or fallback key fields = elim (get key fields) [ none ↦ fallback | some v ↦ v ]

  abbrev pub items : Jsons Number → List (Json Number)
  items end = []
  items (next j js) = j ∷ items js

  abbrev pub of_items : List (Json Number) → Jsons Number
  of_items [] = end
  of_items (j ∷ js) = next j (of_items js)

  abbrev pub is_end : Jsons Number → Bool
  is_end end = true
  is_end (next j js) = false

  abbrev pub is_no_more : Fields Number → Bool
  is_no_more no_more = true
  is_no_more (field k v fields) = false

  -- Whether `if value` takes its branch; the test says which numbers are zero.
  abbrev pub truthy : (Number → Bool) → Json Number → Bool
  truthy is_zero null = false
  truthy is_zero (flag b) = b
  truthy is_zero (number n) = not (is_zero n)
  truthy is_zero (text s) = not (s == "")
  truthy is_zero (array js) = not (is_end js)
  truthy is_zero (object fields) = not (is_no_more fields)
