-- ===== src/Judge/Reading.antt =====
-- src/memline/judge.py: what a judgment that was read can be.
use Prim.Native.String.{[], ◌∷◌}
use Prim.Native.String.count as Count
use memline.Prelude.{
  ℕ, zero, suc, ◌≤◌, String, ◌≡◌, refl, sym, inl, inr, true, false, Option, none, some, List, ◌==◌,
  if◌then◌else◌, arith, elem, Bool-cases, All,
}
use memline.Prelude.Texts.{characters, first_characters}
use memline.Json.{Json, Fields, get, get_or, truthy, null, flag, number, text, array, object}
use memline.Judge.{
  Numbers, Parsed, refused, parsed, and_then, verdicts, reason_limit, Judgment, clamp, clamped,
  clamped_or_zero, confidence_as, confidence_of, reason_of, is_valid, judgment_of, add_item,
  read_items, parse_judgments, raw_judgments, stripped, mem_id, verdict_of,
}

pub characters-first_characters : (n : ℕ) (s : String) → characters (first_characters n s) ≤ n
characters-first_characters zero s = omega arith
characters-first_characters (suc n) [] = omega arith
characters-first_characters (suc n) (c ∷ s) =
    rw (Count.cons c (first_characters n s)) (omega (arith, characters-first_characters n s))

pub and_then-eq-parsed {ℓ κ} :
    {A : Type ℓ} {B : Type κ} (p : Parsed A) (k : A → Parsed B) {b : B}
    → and_then p k ≡ parsed b
    → (a : A) × (p ≡ parsed a) × (k a ≡ parsed b)
and_then-eq-parsed (refused f) k h = cc
and_then-eq-parsed (parsed a) k h = (a, refl, h)

module _ (n : Numbers) where
  open n use {
    Number, Float, zero, one, lt, float_of, float_text, float_flag, lt_zero_one, lt_irrefl, lt_asym,
  }

  -- Between 0.0 and 1.0, by the comparison of floats.
  abbrev pub InRange : Float → Type 0
  InRange x = (lt x zero ≡ false) × (lt one x ≡ false)

  zero-InRange : InRange zero
  zero-InRange = (lt_irrefl zero, lt_asym zero one lt_zero_one)

  over-InRange : (x : Float) → lt one x ≡ false → InRange (if lt zero x then x else zero)
  over-InRange x h = elim (Bool-cases (lt zero x)) [
    | inl above ↦ rw above (lt_asym zero x above, h)
    | inr below ↦ rw below zero-InRange
  ]

  clamp-InRange : (x : Float) → InRange (clamp n x)
  clamp-InRange x = elim (Bool-cases (lt x one)) [
    | inl below ↦ rw (below, clamp) (over-InRange x (lt_asym x one below))
    | inr above ↦ rw (above, clamp) (over-InRange one (lt_irrefl one))
  ]

  clamped-InRange : (o : Option Float) (x : Float) → clamped n o ≡ parsed x → InRange x
  clamped-InRange none x h = cc
  clamped-InRange (some y) x h =
      let same : clamp n y ≡ x = ground arith in rw (sym same) (clamp-InRange y)

  clamped_or_zero-InRange : (o : Option Float) → InRange (clamped_or_zero n o)
  clamped_or_zero-InRange none = zero-InRange
  clamped_or_zero-InRange (some x) = clamp-InRange x

  parsed-InRange :
      (x y : Float) → InRange y → ◌≡◌ {A = Parsed Float} (parsed y) (parsed x) → InRange x
  parsed-InRange x y h e = let same : y ≡ x = ground arith in rw (sym same) h

  confidence_as-InRange : (j : Json Number) (x : Float) → confidence_as n j ≡ parsed x → InRange x
  confidence_as-InRange null x h = parsed-InRange x zero zero-InRange h
  confidence_as-InRange (flag b) x h = parsed-InRange x _ (clamp-InRange (float_flag b)) h
  confidence_as-InRange (number m) x h = clamped-InRange (float_of m) x h
  confidence_as-InRange (text s) x h = parsed-InRange x _ (clamped_or_zero-InRange (float_text s)) h
  confidence_as-InRange (array js) x h = parsed-InRange x zero zero-InRange h
  confidence_as-InRange (object d) x h = parsed-InRange x zero zero-InRange h

  pub confidence_of-InRange :
      (j : Option (Json Number)) (x : Float) → confidence_of n j ≡ parsed x → InRange x
  confidence_of-InRange none x h = parsed-InRange x _ (clamp-InRange zero) h
  confidence_of-InRange (some j) x h = confidence_as-InRange j x h

  pub reason_of-le : (item : Fields Number) → characters (reason_of n item) ≤ reason_limit
  reason_of-le item = elim (Bool-cases (truthy n.is_zero (get_or null "reason" item))) [
    | inl given ↦ rw (given, reason_of) (characters-first_characters reason_limit _)
    | inr missing ↦ rw (missing, reason_of) (omega arith)
  ]

  -- What a caller may rely on.
  pub record Sound (allowed_ids : List String) (j : Judgment n) : Type 0 where
    pub asked : elem j.id allowed_ids ≡ true
    pub known : elem j.verdict verdicts ≡ true
    pub in_range : InRange j.confidence
    pub short : characters j.reason ≤ reason_limit

  is_valid-split :
      (allowed_ids : List String) (item : Fields Number)
      → is_valid n allowed_ids item ≡ true
      → (elem (mem_id n item) allowed_ids ≡ true) × (elem (verdict_of n item) verdicts ≡ true)
  is_valid-split allowed_ids item h = ground arith

  kept-Sound :
      (allowed_ids : List String) (rest js : List (Judgment n))
      → All (Sound allowed_ids) rest
      → ◌≡◌ {A = Parsed (List (Judgment n))} (parsed rest) (parsed js)
      → All (Sound allowed_ids) js
  kept-Sound allowed_ids rest js all h = let same : rest ≡ js = ground arith in rw (sym same) all

  add_item-Sound :
      (allowed_ids : List String) (item : Json Number) (rest js : List (Judgment n))
      → All (Sound allowed_ids) rest
      → add_item n allowed_ids item rest ≡ parsed js
      → All (Sound allowed_ids) js
  add_item-Sound allowed_ids (object item) rest js all h =
      elim (Bool-cases (is_valid n allowed_ids item)) [
        | inl valid ↦
            let (c, read, added) =
              and_then-eq-parsed (confidence_of n (get "confidence" item)) _ (rw valid at h) in
            let both = is_valid-split allowed_ids item valid in
            let same : List.◌∷◌ (judgment_of n item c) rest ≡ js = ground arith in
            rw (sym same) (
              record {
                asked = both.0;
                known = both.1;
                in_range = confidence_of-InRange (get "confidence" item) c read;
                short = reason_of-le item;
              },
              all,
            )
        | inr invalid ↦ kept-Sound allowed_ids rest js all (rw invalid at h)
      ]
  add_item-Sound allowed_ids null rest js all h = kept-Sound allowed_ids rest js all h
  add_item-Sound allowed_ids (flag b) rest js all h = kept-Sound allowed_ids rest js all h
  add_item-Sound allowed_ids (number m) rest js all h = kept-Sound allowed_ids rest js all h
  add_item-Sound allowed_ids (text s) rest js all h = kept-Sound allowed_ids rest js all h
  add_item-Sound allowed_ids (array a) rest js all h = kept-Sound allowed_ids rest js all h

  read_items-Sound :
      (allowed_ids : List String) (raw : List (Json Number)) (js : List (Judgment n))
      → read_items n allowed_ids raw ≡ parsed js
      → All (Sound allowed_ids) js
  read_items-Sound allowed_ids List.[] js h =
      let same : List.[] ≡ js = ground arith in rw (sym same) tt
  read_items-Sound allowed_ids (List.◌∷◌ item raw) js h =
      let (rest, read, added) =
        and_then-eq-parsed (read_items n allowed_ids raw) (add_item n allowed_ids item) h in
      add_item-Sound allowed_ids item rest js (read_items-Sound allowed_ids raw rest read) added

  -- Whatever a judge model answers, each judgment that `parse_judgments` returns is about one of the
  -- candidates that it was asked about, has one of the three verdicts, a confidence that is neither
  -- below 0.0 nor above 1.0, and a reason of at most 500 characters.
  pub parse_judgments-Sound :
      (response : String) (allowed_ids : List String) (js : List (Judgment n))
      → parse_judgments n response allowed_ids ≡ parsed js
      → All (Sound allowed_ids) js
  unfolding parse_judgments
  parse_judgments-Sound response allowed_ids js h = elim (Bool-cases (response == "")) [
    | inl nothing ↦ cc
    | inr some_text ↦
        let (raw, found, read) =
          and_then-eq-parsed (raw_judgments n (stripped n response)) (read_items n allowed_ids)
            (rw some_text at h) in
        read_items-Sound allowed_ids raw js read
  ]
