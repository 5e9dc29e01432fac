-- ===== src/Judge/Rendering.antt =====
-- src/memline/judge.py: a list of judgments in the format that the prompt asks for is read back.
use Prim.Native.String.{[], ◌∷◌}
use Prim.Native.String.count as Count
use memline.Prelude.{
  ℕ, zero, suc, ◌≤◌, String, ◌≡◌, refl, sym, ap, inl, inr, true, false, some, List, ◌==◌,
  if◌then◌else◌, arith, elem, Bool-cases, All, map, eq_iff, not,
}
use memline.Prelude.Texts.{characters, first_characters}
use memline.Json.{Json, field, no_more, text, number, array, object, of_items, items}
use memline.Judge.Scanning.{upper}
use memline.Judge.{
  Numbers, parsed, verdicts, reason_limit, Judgment, clamp, add_item, read_items, raw_judgments,
  stripped, parse_judgments,
}

first_characters_all : (n : ℕ) (s : String) → characters s ≤ n → first_characters n s ≡ s
first_characters_all zero [] h = refl
first_characters_all zero (c ∷ s) h = absurd (omega (arith, rw (Count.cons c s) at h))
first_characters_all (suc n) [] h = refl
first_characters_all (suc n) (c ∷ s) h =
    ap (◌∷◌ c) (first_characters_all n s (omega (arith, rw (Count.cons c s) at h)))

pub data Known (v : String) : Type 0 where
  superseded : v ≡ "SUPERSEDED" → Known v
  duplicate : v ≡ "DUPLICATE" → Known v
  kept : v ≡ "KEPT" → Known v

Known-upper : (v : String) → Known v → upper v ≡ v
Known-upper v (superseded e) = rw e refl
Known-upper v (duplicate e) = rw e refl
Known-upper v (kept e) = rw e refl

Known-elem : (v : String) → Known v → elem v verdicts ≡ true
Known-elem v (superseded e) = rw e refl
Known-elem v (duplicate e) = rw e refl
Known-elem v (kept e) = rw e refl

module _ (n : Numbers) (number_of : n.Float → n.Number)
    (float-number : (x : n.Float) → n.float_of (number_of x) ≡ some x)
    (allowed_ids : List String) where
  open n use {Number, loads}

  -- {"id": …, "verdict": …, "confidence": …, "reason": …}
  abbrev pub render_one : Judgment n → Json Number
  render_one j = object (
      field "id" (text j.id) (
        field "verdict" (text j.verdict) (
          field "confidence" (number (number_of j.confidence))
            (field "reason" (text j.reason) no_more))))

  -- {"judgments": […]}
  abbrev pub render : List (Judgment n) → Json Number
  render js = object (field "judgments" (array (of_items (map render_one js))) no_more)

  -- A judgment as the prompt asks for it: of a candidate, with one of the verdicts, a confidence that
  -- clamping leaves alone and a reason that is not cut.
  pub record Proper (j : Judgment n) : Type 0 where
    pub asked : elem j.id allowed_ids ≡ true
    pub known : Known j.verdict
    pub within : clamp n j.confidence ≡ j.confidence
    pub short : characters j.reason ≤ reason_limit

  reason_of-text :
      (s : String)
      → characters s ≤ reason_limit
      → (if not (s == "") then first_characters reason_limit s else "") ≡ s
  reason_of-text s short = elim (Bool-cases (s == "")) [
    | inl empty ↦ rw empty (sym ((eq_iff s "").0 empty))
    | inr given ↦ rw given (first_characters_all reason_limit s short)
  ]

  add_item-render :
      (j : Judgment n) (js : List (Judgment n))
      → Proper j
      → add_item n allowed_ids (render_one j) js ≡ parsed (List.◌∷◌ j js)
  add_item-render j js ok =
      rw (ok.asked, Known-upper j.verdict ok.known, Known-elem j.verdict ok.known)
        (rw (float-number j.confidence) (rw (ok.within, reason_of-text j.reason ok.short) refl))

  read_items-render :
      (js : List (Judgment n))
      → All Proper js
      → read_items n allowed_ids (map render_one js) ≡ parsed js
  read_items-render List.[] ok = refl
  read_items-render (List.◌∷◌ j js) ok = rw (read_items-render js ok.1) (add_item-render j js ok.0)

  items-of : (js : List (Json Number)) → items (of_items js) ≡ js
  items-of List.[] = refl
  items-of (List.◌∷◌ j js) = ap (List.◌∷◌ j) (items-of js)

  -- An answer that is the JSON text of a list of judgments, in the format that the prompt asks for,
  -- is read back as that list, in its order: each judgment of a candidate, with one of the three
  -- verdicts, a confidence that clamping leaves alone and at most 500 characters of reason.
  pub parse_judgments-render :
      (response : String) (js : List (Judgment n))
      → All Proper js
      → (response == "") ≡ false
      → loads (stripped n response) ≡ some (render js)
      → parse_judgments n response allowed_ids ≡ parsed js
  unfolding parse_judgments raw_judgments
  parse_judgments-render response js ok given read =
      rw (given, parse_judgments)
        (rw (read, raw_judgments) (rw (items-of (map render_one js)) (read_items-render js ok)))
