-- ===== src/Judge.antt =====
-- src/memline/judge.py: how the answer of a judge model is read. `json.loads` and Python's floats are
-- parameters; the regular expressions are written out.
pub mod Scanning
pub mod Reading
pub mod Single
pub mod Rendering
mod Tests
use memline.Prelude.{
  ℕ, String, ◌≡◌, Bool, true, false, not, Option, none, some, List, [], ◌∷◌, ◌==◌, if◌then◌else◌,
  elem, map,
}
use memline.Prelude.Texts.{strip, first_characters, append}
use memline.Json.{
  Json, null, flag, number, text, array, object, Fields, field, no_more, get, get_or, items, truthy,
}
use memline.Judge.Scanning.{drop_prefix, unfence, chunks, upper, verdict_in, is_present}

-- Python's numbers. `float_of` is none where `float` raises OverflowError, `float_text` where it raises
-- ValueError. The laws are those of the comparison of IEEE 754 floats, where NaN compares false.
pub record Numbers : Type 1 where
  pub Number : Type 0
  pub Float : Type 0
  pub zero : Float
  pub one : Float
  pub lt : Float → Float → Bool
  pub is_zero : Number → Bool
  pub float_of : Number → Option Float
  pub float_text : String → Option Float
  pub float_flag : Bool → Float
  pub repr : Json Number → String
  pub loads : String → Option (Json Number)
  pub lt_zero_one : lt zero one ≡ true
  pub lt_irrefl : (x : Float) → lt x x ≡ false
  pub lt_asym : (x y : Float) → lt x y ≡ true → lt y x ≡ false

pub data Failure : Type 0 where
  empty_response non_json missing_judgments not_a_dict overflow : Failure

pub data Parsed {ℓ} (A : Type ℓ) : Type ℓ where
  refused : Failure → Parsed A
  parsed : A → Parsed A

abbrev pub and_then {ℓ κ} : {A : Type ℓ} {B : Type κ} → Parsed A → (A → Parsed B) → Parsed B
and_then (refused f) k = refused f
and_then (parsed a) k = k a

abbrev pub verdicts : List String
verdicts = "SUPERSEDED" ∷ "DUPLICATE" ∷ "KEPT" ∷ []

abbrev pub necessity_verdicts : List String
necessity_verdicts = "DURABLE" ∷ "BORN_UNNECESSARY" ∷ "EXPIRING" ∷ []

abbrev pub correctness_verdicts : List String
correctness_verdicts =
    "CONSISTENT" ∷ "TIMESTAMP_SUSPECT" ∷ "ATTRIBUTION_SUSPECT" ∷ "LANGUAGE_SUSPECT" ∷ []

abbrev pub safety_verdicts : List String
safety_verdicts = "CLEAN" ∷ "SECRET_SUSPECT" ∷ []

abbrev pub reason_limit : ℕ
reason_limit = 500

module _ (n : Numbers) where
  open n use {Number, Float, zero, one, lt, is_zero, float_of, float_text, float_flag, repr, loads}

  pub record Judgment : Type 0 where
    pub id : String
    pub verdict : String
    pub confidence : Float
    pub reason : String

  pub record Opinion : Type 0 where
    pub verdict : String
    pub confidence : Float
    pub reason : String

  -- str(value)
  abbrev pub str : Json Number → String
  str (text s) = s
  str j = repr j

  abbrev pub or_zero : Option Float → Float
  or_zero none = zero
  or_zero (some x) = x

  -- max(0.0, min(1.0, x)): `min` and `max` keep their first argument unless the second is beyond it.
  abbrev pub clamp : Float → Float
  clamp x = let low = if lt x one then x else one in if lt zero low then low else zero

  abbrev pub clamped : Option Float → Parsed Float
  clamped none = refused overflow
  clamped (some x) = parsed (clamp x)

  abbrev pub clamped_or_zero : Option Float → Float
  clamped_or_zero none = zero
  clamped_or_zero (some x) = clamp x

  -- TypeError and ValueError make it 0.0; OverflowError goes to the caller.
  abbrev pub confidence_as : Json Number → Parsed Float
  confidence_as (number x) = clamped (float_of x)
  confidence_as (flag b) = parsed (clamp (float_flag b))
  confidence_as (text s) = parsed (clamped_or_zero (float_text s))
  confidence_as _ = parsed zero

  abbrev pub confidence_of : Option (Json Number) → Parsed Float
  confidence_of none = parsed (clamp zero)
  confidence_of (some j) = confidence_as j

  -- str(item.get("reason") or "")[:500]
  abbrev pub reason_of : Fields Number → String
  reason_of item =
      let reason = get_or null "reason" item in
      if truthy is_zero reason then first_characters reason_limit (str reason) else ""

  abbrev pub stripped : String → String
  stripped response =
      let s = strip response in if is_present (drop_prefix "```" s) then strip (unfence s) else s

  abbrev pub objects : List String → List (Json Number)
  objects [] = []
  objects (c ∷ cs) = let rest = objects cs in elim (loads c) [ none ↦ rest | some j ↦ j ∷ rest ]

  abbrev pub salvaged : List (Json Number) → Parsed (List (Json Number))
  salvaged [] = refused non_json
  salvaged (j ∷ js) = parsed (j ∷ js)

  abbrev pub list_of : Option (Json Number) → Parsed (List (Json Number))
  list_of (some (array js)) = parsed (items js)
  list_of _ = refused missing_judgments

  abbrev pub judgments_in : Json Number → Parsed (List (Json Number))
  judgments_in (object d) = list_of (get "judgments" d)
  judgments_in _ = refused missing_judgments

  -- The list of raw judgments: that of the answer, or what can be saved of one that is cut off.
  unfoldable pub raw_judgments : String → Parsed (List (Json Number))
  raw_judgments s = elim (loads s) [
    | some data_read ↦ judgments_in data_read
    | none ↦ salvaged (objects (chunks s))
  ]

  abbrev pub mem_id : Fields Number → String
  mem_id item = str (get_or (text "") "id" item)

  abbrev pub verdict_of : Fields Number → String
  verdict_of item = upper (str (get_or (text "") "verdict" item))

  abbrev pub is_valid : List String → Fields Number → Bool
  is_valid allowed_ids item =
      if elem (mem_id item) allowed_ids then elem (verdict_of item) verdicts else false

  abbrev pub judgment_of : Fields Number → Float → Judgment
  judgment_of item confidence = record {
    id = mem_id item;
    verdict = verdict_of item;
    confidence = confidence;
    reason = reason_of item;
  }

  abbrev pub add_item : List String → Json Number → List Judgment → Parsed (List Judgment)
  add_item allowed_ids (object item) rest =
      if is_valid allowed_ids item
      then and_then (confidence_of (get "confidence" item))
          (λ c. parsed (judgment_of item c ∷ rest))
      else parsed rest
  add_item allowed_ids _ rest = parsed rest

  abbrev pub read_items : List String → List (Json Number) → Parsed (List Judgment)
  read_items allowed_ids [] = parsed []
  read_items allowed_ids (j ∷ js) = and_then (read_items allowed_ids js) (add_item allowed_ids j)

  -- A missing response is an empty one.
  unfoldable pub parse_judgments : String → List String → Parsed (List Judgment)
  parse_judgments response allowed_ids =
      if response == ""
      then refused empty_response
      else and_then (raw_judgments (stripped response)) (read_items allowed_ids)

  abbrev pub truncated : String → Fields Number
  truncated v = field "verdict" (text v) (field "reason" (text "<truncated output>") no_more)

  abbrev pub one_of : List String → String → String → String
  one_of allowed fallback v = if elem v allowed then v else fallback

  -- The confidence of a truncated answer is the number 0.0, as it is where the key is missing.
  abbrev pub single_of : List String → String → Fields Number → Parsed Opinion
  single_of allowed fallback d = and_then (confidence_of (get "confidence" d)) (λ c.
      parsed (record {
        verdict = one_of allowed fallback (verdict_of d);
        confidence = c;
        reason = reason_of d;
      }))

  abbrev pub single_in : List String → String → Json Number → Parsed Opinion
  single_in allowed fallback (object d) = single_of allowed fallback d
  single_in allowed fallback _ = refused not_a_dict

  abbrev pub single_salvaged : List String → String → Option String → Parsed Opinion
  single_salvaged allowed fallback none = refused non_json
  single_salvaged allowed fallback (some v) = single_of allowed fallback (truncated v)

  unfoldable pub parse_single_judgment : String → List String → String → Parsed Opinion
  parse_single_judgment response allowed fallback =
      if response == "" then refused empty_response else elim (loads (stripped response)) [
        | some data_read ↦ single_in allowed fallback data_read
        | none ↦ single_salvaged allowed fallback (verdict_in (stripped response))
      ]

  abbrev pub judge_necessity : String → Parsed Opinion
  judge_necessity response = parse_single_judgment response necessity_verdicts "DURABLE"

  abbrev pub judge_safety : String → Parsed Opinion
  judge_safety response = parse_single_judgment response safety_verdicts "CLEAN"

  abbrev pub judge_correctness : String → Parsed Opinion
  judge_correctness response = parse_single_judgment response correctness_verdicts "CONSISTENT"

  -- The judge of a new entry against its candidates: one call of the model, or none.
  abbrev pub judge : (List String → String) → List String → Parsed (List Judgment)
  judge llm [] = parsed []
  judge llm (c ∷ candidates) = parse_judgments (llm (c ∷ candidates)) (c ∷ candidates)
