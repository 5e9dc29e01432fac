-- ===== src/Judge/Tests.antt =====
-- The reading of judge answers on concrete texts, and the theorems about it at them. Floats are
-- thousandths here, and `loads` knows two texts.
use memline.Prelude.{
  ℕ, ltb, String, ◌≡◌, refl, true, false, Option, none, some, List, [], ◌∷◌, ◌==◌, if◌then◌else◌,
  arith, All,
}
use memline.Prelude.Texts.{strip}
use memline.Json.{Json, number, text, array, object, field, no_more, next, end}
use memline.Judge.{
  Numbers, refused, parsed, empty_response, non_json, not_a_dict, Judgment, Opinion, judge,
  judge_necessity, judge_safety, parse_judgments, parse_single_judgment, raw_judgments, stripped,
}
use memline.Judge.Scanning.{unfence, chunks, upper, verdict_in}
use memline.Judge.Reading.{Sound, parse_judgments-Sound}
use memline.Judge.Rendering.{Proper, superseded, render, parse_judgments-render}

abbrev one_judgment : Json ℕ
one_judgment = object (
    field "id" (text "m1") (
      field "verdict" (text "superseded")
        (field "confidence" (number 1700) (field "reason" (text "same slot") no_more))))

abbrev stray_judgment : Json ℕ
stray_judgment = object (field "id" (text "m9") (field "verdict" (text "KEPT") no_more))

abbrev proper_text : String
proper_text = "{\"judgments\": [one]}"

abbrev cut_text : String
cut_text = "{\"judgments\": [{\"verdict\": \"superseded\"}, {\"verd"

abbrev judged : String → String → ℕ → String → Json ℕ
judged id verdict confidence reason = object (
    field "id" (text id) (
      field "verdict" (text verdict)
        (field "confidence" (number confidence) (field "reason" (text reason) no_more))))

abbrev read : String → Option (Json ℕ)
read s =
    if s == proper_text
    then some (
        object
          (field "judgments" (array (next (judged "m1" "SUPERSEDED" 900 "same slot") end)) no_more))
    else if s == "{\"verdict\": \"superseded\"}"
    then some one_judgment
    else if s == "[]"
    then some (array end)
    else if s == "all"
    then some
        (object (field "judgments" (array (next one_judgment (next stray_judgment end))) no_more))
    else none

ltb_irrefl : (x : ℕ) → ltb x x ≡ false
ltb_irrefl x = ground arith

ltb_asym : (x y : ℕ) → ltb x y ≡ true → ltb y x ≡ false
ltb_asym x y h = ground arith

abbrev thousandths : Numbers
thousandths = record {
  Number = ℕ;
  Float = ℕ;
  zero = 0;
  one = 1000;
  lt = ltb;
  is_zero = λ x. ltb x 1;
  float_of = some;
  float_text = λ s. none;
  float_flag = λ b. if b then 1000 else 0;
  repr = λ j. "None";
  loads = read;
  lt_zero_one = refl;
  lt_irrefl = ltb_irrefl;
  lt_asym = ltb_asym;
}

program : Unit {0}
unfolding parse_judgments parse_single_judgment raw_judgments strip
program = tt

unfence_both : unfence "```json\n{}\n```" ≡ "{}\n"
unfolding program
unfence_both = refl

unfence_open : unfence "```{}" ≡ "```{}"
unfolding program
unfence_open = refl

chunks_cut : chunks cut_text ≡ "{\"verdict\": \"superseded\"}" ∷ []
unfolding program
chunks_cut = refl

upper_verdict : upper "superſeded" ≡ "SUPERSEDED"
unfolding program
upper_verdict = refl

verdict_in_cut : verdict_in "{\"verdict\" : \"EXPIRING\", \"conf" ≡ some "EXPIRING"
unfolding program
verdict_in_cut = refl

-- An answer about a memory that was not asked about is dropped, and a confidence above 1 is cut.
abbrev found : List (Judgment thousandths)
found = record { id = "m1"; verdict = "SUPERSEDED"; confidence = 1000; reason = "same slot" } ∷ []

parse_all : parse_judgments thousandths "all" ("m1" ∷ []) ≡ parsed found
unfolding program
parse_all = refl

parse_cut : parse_judgments thousandths cut_text ("m1" ∷ []) ≡ parsed found
unfolding program
parse_cut = refl

parse_empty : parse_judgments thousandths "" ("m1" ∷ []) ≡ refused empty_response
unfolding program
parse_empty = refl

parse_garbage : parse_judgments thousandths "KEPT" ("m1" ∷ []) ≡ refused non_json
unfolding program
parse_garbage = refl

judge_nothing : judge thousandths (λ ids. "all") [] ≡ parsed []
unfolding program
judge_nothing = refl

parse_judgments-Sound_example : All (Sound thousandths ("m1" ∷ [])) found
parse_judgments-Sound_example = parse_judgments-Sound thousandths "all" ("m1" ∷ []) found parse_all

abbrev opinion : Opinion thousandths
opinion = record { verdict = "EXPIRING"; confidence = 0; reason = "<truncated output>" }

necessity_cut : judge_necessity thousandths "{\"verdict\": \"expiring\", \"conf" ≡ parsed opinion
unfolding program
necessity_cut = refl

necessity_list : judge_necessity thousandths "[]" ≡ refused not_a_dict
unfolding program
necessity_list = refl

abbrev clean : Opinion thousandths
clean = record { verdict = "CLEAN"; confidence = 1000; reason = "same slot" }

safety_fallback : judge_safety thousandths "{\"verdict\": \"superseded\"}" ≡ parsed clean
unfolding program
safety_fallback = refl

abbrev proper : List (Judgment thousandths)
proper = record { id = "m1"; verdict = "SUPERSEDED"; confidence = 900; reason = "same slot" } ∷ []

proper-Proper : All (Proper thousandths (λ x. x) (λ x. refl) ("m1" ∷ [])) proper
proper-Proper =
    (record { asked = refl; known = superseded refl; within = refl; short = ground arith }, tt)

proper-read :
    read (stripped thousandths proper_text)
    ≡ some (render thousandths (λ x. x) (λ x. refl) ("m1" ∷ []) proper)
unfolding program
proper-read = refl

parse_judgments-render_example : parse_judgments thousandths proper_text ("m1" ∷ []) ≡ parsed proper
parse_judgments-render_example =
    parse_judgments-render thousandths (λ x. x) (λ x. refl) ("m1" ∷ []) proper_text proper
      proper-Proper refl proper-read
