-- ===== src/Judge/Single.antt =====
-- src/memline/judge.py: what the judges of one entry can answer.
use memline.Prelude.{
  ◌≤◌, String, ◌≡◌, sym, inl, inr, true, Option, none, some, List, ◌==◌, arith, elem, Bool-cases,
  Option-cases,
}
use memline.Prelude.Texts.{characters}
use memline.Json.{Json, Fields, get, null, flag, number, text, array, object}
use memline.Judge.{
  Numbers, parsed, reason_limit, Opinion, confidence_of, reason_of, one_of, verdict_of, single_of,
  single_in, single_salvaged, truncated, stripped, parse_single_judgment,
}
use memline.Judge.Reading.{and_then-eq-parsed, InRange, confidence_of-InRange, reason_of-le}

module _ (n : Numbers) (allowed : List String) (fallback : String)
    (known_fallback : elem fallback allowed ≡ true) where
  open n use {Number, loads}

  pub record Sound (o : Opinion n) : Type 0 where
    pub known : elem o.verdict allowed ≡ true
    pub in_range : InRange n o.confidence
    pub short : characters o.reason ≤ reason_limit

  one_of-known : (v : String) → elem (one_of n allowed fallback v) allowed ≡ true
  one_of-known v = elim (Bool-cases (elem v allowed)) [
    | inl known ↦ rw (known, one_of) known
    | inr unknown ↦ rw (unknown, one_of) known_fallback
  ]

  single_of-Sound :
      (d : Fields Number) (o : Opinion n) → single_of n allowed fallback d ≡ parsed o → Sound o
  single_of-Sound d o h =
      let (c, read, made) = and_then-eq-parsed (confidence_of n (get "confidence" d)) _ h in
      let same : ◌≡◌ {A = Opinion n}
          (record {
            verdict = one_of n allowed fallback (verdict_of n d);
            confidence = c;
            reason = reason_of n d;
          })
          o =
        ground arith in
      rw (sym same) (record {
        known = one_of-known (verdict_of n d);
        in_range = confidence_of-InRange n (get "confidence" d) c read;
        short = reason_of-le n d;
      })

  single_in-Sound :
      (j : Json Number) (o : Opinion n) → single_in n allowed fallback j ≡ parsed o → Sound o
  single_in-Sound (object d) o h = single_of-Sound d o h
  single_in-Sound null o h = cc
  single_in-Sound (flag b) o h = cc
  single_in-Sound (number m) o h = cc
  single_in-Sound (text s) o h = cc
  single_in-Sound (array a) o h = cc

  single_salvaged-Sound :
      (v : Option String) (o : Opinion n)
      → single_salvaged n allowed fallback v ≡ parsed o
      → Sound o
  single_salvaged-Sound none o h = cc
  single_salvaged-Sound (some v) o h = single_of-Sound (truncated n v) o h

  -- Whatever a judge of one entry answers, complete or cut off, the verdict that is read is one of the
  -- allowed ones (the fallback when the model names another), the confidence is neither below 0.0 nor
  -- above 1.0, and the reason has at most 500 characters.
  pub parse_single_judgment-Sound :
      (response : String) (o : Opinion n)
      → parse_single_judgment n response allowed fallback ≡ parsed o
      → Sound o
  unfolding parse_single_judgment
  parse_single_judgment-Sound response o h = elim (Bool-cases (response == "")) [
    | inl nothing ↦ cc
    | inr given ↦ elim (Option-cases (loads (stripped n response))) [
      | inl cut ↦ single_salvaged-Sound _ o (rw (given, cut) at h)
      | inr (d, e) ↦ single_in-Sound d o (rw (given, e) at h)
    ]
  ]
