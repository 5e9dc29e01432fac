-- ===== src/Staleness/Checking.antt =====
-- src/memline/staleness.py: `run_stale_check` and `_run_self_checks`. The judges of
-- src/memline/judge.py are parameters, and a judge that raises answers none; what was recorded before
-- stays, since each row is committed on its own. `uuid4 n` is the n-th id that the check draws.
pub mod Rerun
pub mod Candidates
mod Tests
use memline.Prelude.{
  ℕ, zero, suc, ◌+◌, ◌*◌, max, String, Bool, true, false, ◌&&◌, ◌||◌, not, Option, none, some, List,
  [], ◌∷◌, map, ◌==◌, if◌then◌else◌, filter, take, elem, length,
}
use memline.Prelude.Texts.{append, first_characters}
use memline.Dict.{Value, null, text, Dict, get, truthy}
use memline.Memory.{Item, Query, MemoryClient}
use memline.Supersession.{is_nil, is_invalidated}
use memline.Pairs.{
  Kind, displacement, necessity, correctness, safety, Verdict, consistent, timestamp_suspect,
  attribution_suspect, Judgment, PairStore, Pair, is_opened, has_judgment, judged_either,
  record_judgment,
}
use memline.Staleness.{
  World, dedup, text_of, data_of, result_item_superseded, result_item_displacement_protected,
}

-- An entry as a judge sees it.
pub record Entry : Type 0 where
  pub id : String
  pub body : String
  pub date : String

-- What a judge answers: for one entry, and for one of the candidates.
pub record Opinion : Type 0 where
  pub verdict : Verdict
  pub confidence : Option ℕ
  pub reason : String

-- The judges; `correctness` also sees the times of ingestion and creation, and the writer.
pub record Judges : Type 0 where
  pub necessity : Entry → Option Opinion
  pub safety : Entry → Option Opinion
  pub correctness : Entry → Value → Value → Value → Option Opinion
  pub displacement : Entry → List Entry → Option (List (String × Opinion))
  pub active_model : Option String

-- A check that was made before for this text, or the verdict and whether it opened a suspicion.
pub data Check : Type 0 where
  cached_check : Check
  judged : Verdict → Bool → Check

pub record SelfReport : Type 0 where
  pub necessity : Check
  pub safety : Check
  pub correctness : Check

-- What `run_stale_check` answers.
pub data Report : Type 0 where
  skipped : String → Report
  self_checked : SelfReport → Report
  checked : SelfReport → (judgments opened cached : ℕ) → Report

-- A computation on the pair table that may raise.
abbrev pub Judging {ℓ} : Type ℓ → Type ℓ
Judging A = PairStore → PairStore × Option A

abbrev pub after_check {ℓ κ} :
    {A : Type ℓ} {B : Type κ}
    → PairStore × Option A
    → (A → PairStore → PairStore × Option B)
    → PairStore × Option B
after_check (rows, none) next = (rows, none)
after_check (rows, some a) next = next a rows

-- `payload.get(a) or payload.get(b)`
abbrev pub either_field : String → String → Dict → Value
either_field a b payload = if truthy (get a payload) then get a payload else get b payload

-- _IMPORT_EXEMPT_VERDICTS
abbrev pub is_exempt : Verdict → Bool
is_exempt timestamp_suspect = true
is_exempt attribution_suspect = true
is_exempt _ = false

abbrev pub exempt_text : Verdict → String
exempt_text timestamp_suspect = "TIMESTAMP_SUSPECT"
exempt_text attribution_suspect = "ATTRIBUTION_SUSPECT"
exempt_text _ = ""

abbrev pub is_import : Dict → Bool
is_import payload = text_of (get "origin" payload) == "ledger_import"

-- An imported entry is not held to its date and its actor.
abbrev pub exempted : Dict → Opinion → Opinion
exempted payload v =
    if is_import payload && is_exempt v.verdict
    then record v {
      verdict = consistent;
      reason = first_characters 500 (
          append "ledger_import exempt from "
            (append (exempt_text v.verdict) (append ": " v.reason)));
    }
    else v

abbrev pub map_opinion : (Opinion → Opinion) → Option Opinion → Option Opinion
map_opinion f none = none
map_opinion f (some v) = some (f v)

module _ (sha256 : String → String) (judges : Judges) (session_id : Option String) (now : ℕ) where
  abbrev pub judgment : Kind → String → String → String → Opinion → Judgment
  judgment kind new_id old_id old_text v = record {
    kind = kind;
    new_id = new_id;
    old_id = old_id;
    old_text = old_text;
    verdict = v.verdict;
    confidence = v.confidence;
    reason = some v.reason;
    judge_model = judges.active_model;
    new_session_id = session_id;
  }

  abbrev pub recorded : Verdict → PairStore × Pair × Bool → PairStore × Option Check
  recorded verdict (rows, row, inserted) =
      (rows, some (judged verdict (is_opened row.disposition && inserted)))

  abbrev pub judge_self : Kind → String → Entry → Option Opinion → Judging Check
  judge_self kind pair_id entry none rows = (rows, none)
  judge_self kind pair_id entry (some v) rows =
      recorded v.verdict
        (record_judgment sha256 now pair_id (judgment kind entry.id entry.id entry.body v) rows)

  -- One self check: cached, or judged and recorded as a pair of the entry with itself.
  abbrev pub self_check : Kind → String → Entry → Option Opinion → Judging Check
  self_check kind pair_id entry opinion rows =
      if has_judgment sha256 entry.id entry.id entry.body kind rows
      then (rows, some cached_check)
      else judge_self kind pair_id entry opinion rows

  unfoldable pub run_self_checks : (ℕ → String) → Entry → Dict → Judging SelfReport
  run_self_checks uuid4 entry payload rows =
      after_check (self_check necessity (uuid4 0) entry (judges.necessity entry) rows) (λ n rows1.
        after_check (self_check safety (uuid4 1) entry (judges.safety entry) rows1) (λ s rows2.
          after_check
            (self_check correctness (uuid4 2) entry
              (map_opinion (exempted payload) (
                judges.correctness entry (either_field "ingested_at" "created_at" payload)
                  (get "created_at" payload) (either_field "source" "writer_agent_id" payload)))
              rows2)
            (λ c rows3. (rows3, some (record { necessity = n; safety = s; correctness = c })))))

  abbrev pub is_candidate : String → Item → Bool
  is_candidate new_id item = not (
      item.id == ""
      || item.id == new_id
      || result_item_superseded item
      || result_item_displacement_protected item now)

  abbrev pub entry_of : Item → Entry
  entry_of item = record {
    id = item.id;
    body = item.memory;
    date = first_characters 10 item.created_at;
  }

  -- The neighbors that are compared with the pair table, before the judge sees those that are left.
  -- The loop appends before it looks at the limit, so it takes one where `top_k` is 0.
  abbrev pub candidates : String → ℕ → List Item → List Entry
  candidates new_id top_k items =
      map entry_of (take (max 1 top_k) (filter (is_candidate new_id) items))

  -- text_by_id.get(id, ""), of a dictionary where a later candidate with the id wins
  abbrev pub text_by_id : List Entry → String → Option String
  text_by_id [] id = none
  text_by_id (c ∷ cs) id = elim (text_by_id cs id) [
    | none ↦ if c.id == id then some c.body else none
    | some t ↦ some t
  ]

  abbrev pub or_blank : Option String → String
  or_blank none = ""
  or_blank (some t) = t

  -- The pairs of the judged candidates, from the n-th id on; the number counts those that open.
  unfoldable pub record_all :
      (ℕ → String) → ℕ → String → List Entry → List (String × Opinion) → PairStore → PairStore × ℕ
  record_all uuid4 n new_id cs [] rows = (rows, 0)
  record_all uuid4 n new_id cs ((old_id, v) ∷ vs) rows =
      let (rows1, row, inserted) =
        record_judgment sha256 now (uuid4 n)
          (judgment displacement new_id old_id (or_blank (text_by_id cs old_id)) v) rows in
      let (rows2, opened) = record_all uuid4 (suc n) new_id cs vs rows1 in
      (rows2, if is_opened row.disposition && inserted then suc opened else opened)

  abbrev pub judge_displacement :
      (ℕ → String)
      → Entry
      → List Entry
      → ℕ
      → SelfReport
      → Option (List (String × Opinion))
      → Judging Report
  judge_displacement uuid4 entry cs cached report none rows = (rows, none)
  judge_displacement uuid4 entry cs cached report (some vs) rows =
      let (later, opened) = record_all uuid4 3 entry.id cs vs rows in
      (later, some (checked report (length vs) opened cached))

  -- candidates = [c for c in candidates if c["id"] not in already]
  abbrev pub unjudged : List String → List Entry → List Entry
  unjudged already found = filter (λ c. not (elem c.id already)) found

  abbrev pub already_judged : Entry → List Entry → PairStore → List String
  already_judged entry found rows =
      judged_either sha256 entry.id entry.body (map (λ c. (c.id, c.body)) found) rows

  abbrev pub check_neighbors : (ℕ → String) → Entry → List Entry → SelfReport → Judging Report
  check_neighbors uuid4 entry found report rows =
      let already = already_judged entry found rows in
      let fresh = unjudged already found in
      if is_nil fresh
      then (rows, some (checked report 0 0 (length (dedup already))))
      else judge_displacement uuid4 entry fresh (length (dedup already)) report
          (judges.displacement entry fresh) rows

  module _ (c : MemoryClient) where
    open c use {Store, lookup, search}

    abbrev pub neighbors : Entry → ℕ → Dict → World Store → List Item
    neighbors entry top_k payload w =
        elim (search w.store (record {
          query = entry.body;
          top_k = max (top_k * 2) (top_k + 10);
          user_id = if truthy (get "user_id" payload) then get "user_id" payload else null;
          options = [];
        })) [ none ↦ [] | some items ↦ items ]

    abbrev pub check_payload :
        (ℕ → String) → String → ℕ → Bool → World Store → Dict → PairStore × Option Report
    check_payload uuid4 new_id top_k self_only w payload =
        if is_invalidated payload
        then (w.pairs, some (skipped "memory already invalidated"))
        else if data_of payload == ""
        then (w.pairs, some (skipped "empty text"))
        else let entry : Entry = record {
          id = new_id;
          body = data_of payload;
          date = first_characters 10 (text_of (get "created_at" payload));
        } in
          after_check (run_self_checks uuid4 entry payload w.pairs) (λ report rows.
            if self_only
            then (rows, some (self_checked report))
            else check_neighbors uuid4 entry
                (candidates new_id top_k (neighbors entry top_k payload w)) report rows)

    -- The answer is none where a judge raises; the store is not touched, only the pair table.
    unfoldable pub run_stale_check :
        (ℕ → String) → String → ℕ → Bool → World Store → PairStore × Option Report
    run_stale_check uuid4 new_id top_k self_only w = elim (lookup w.store new_id) [
      | none ↦ (w.pairs, some (skipped "memory no longer exists"))
      | some payload ↦ check_payload uuid4 new_id top_k self_only w payload
    ]
