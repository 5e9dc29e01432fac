-- ===== src/Staleness/Checking/Rerun.antt =====
-- src/memline/staleness.py, `_run_self_checks`: running it again records nothing.
use memline.Prelude.{
  ℕ, String, ◌≡◌, ◌≢◌, refl, ap, subst, ◌∙◌, Bool, true, false, ◌||◌, Option, none, some, List, [],
  ◌∷◌, ◌++◌, ◌==◌, eq_iff, any, arith, Bool-cases, inl, inr,
}
use memline.Dict.{Dict}
use memline.Pairs.{
  Kind, necessity, safety, correctness, Pair, PairStore, has_judgment, record_judgment, judged_row,
}
use memline.Pairs.Judging.{record_judgment_once, has_judgment-record_judgment}
use memline.Staleness.Checking.{
  Entry, Opinion, Judges, Check, cached_check, SelfReport, judgment, judge_self, self_check,
  after_check, run_self_checks,
}

any-append :
    {A : Type 0} (p : A → Bool) (xs ys : List A) → any p (xs ++ ys) ≡ (any p xs || any p ys)
any-append p [] ys = refl
any-append p (x ∷ xs) ys = rw (any-append p xs ys) (ground arith)

none-some : {A : Type 0} (a : A) → none ≡ some a → ⊥
none-some a d = cc

-- A check that is followed by others has answered.
after_check-some :
    {A B : Type 0} (m : PairStore × Option A) (next : A → PairStore → PairStore × Option B)
    (rows' : PairStore) (b : B)
    → after_check m next ≡ (rows', some b)
    → (a : A) × (rows : PairStore) × (m ≡ (rows, some a)) × (next a rows ≡ (rows', some b))
after_check-some (rows, none) next rows' b e = absurd (none-some b (ap (λ t. t.1) e))
after_check-some (rows, some a) next rows' b e = (a, rows, refl, e)

module _ (sha256 : String → String) (judges : Judges) (session_id : Option String) (now : ℕ)
    (entry : Entry) where
  abbrev known : Kind → PairStore → Bool
  known kind rows = has_judgment sha256 entry.id entry.id entry.body kind rows

  abbrev fresh : String → PairStore → Bool
  fresh pair_id rows = any (λ p. p.pair_id == pair_id) rows

  -- What one self check that answers leaves behind.
  record Checked (kind : Kind) (pair_id : String) (rows rows' : PairStore) : Type 0 where
    pub judged_now : known kind rows' ≡ true
    pub judged_still : (k : Kind) → known k rows ≡ true → known k rows' ≡ true
    pub ids_left :
        (other : String) → pair_id ≢ other → fresh other rows ≡ false → fresh other rows' ≡ false

  unchanged-Checked :
      (kind : Kind) (pair_id : String) (rows : PairStore)
      → known kind rows ≡ true
      → Checked kind pair_id rows rows
  unchanged-Checked kind pair_id rows old = record {
    judged_now = old;
    judged_still = λ k h. h;
    ids_left = λ other apart h. h;
  }

  not_same : (s t : String) → s ≢ t → (s == t) ≡ false
  not_same s t apart = ground (arith, eq_iff s t)

  module _ (kind : Kind) (pair_id : String) (rows : PairStore) (v : Opinion)
      (new : fresh pair_id rows ≡ false) (unknown : known kind rows ≡ false) where
    abbrev row : Pair
    row =
        judged_row sha256 now pair_id
          (judgment sha256 judges session_id now kind entry.id entry.id entry.body v)

    abbrev after : PairStore
    after =
        (record_judgment sha256 now pair_id
          (judgment sha256 judges session_id now kind entry.id entry.id entry.body v) rows).0

    after_row : after ≡ rows ++ row ∷ []
    after_row =
        ap (λ t. t.0)
          (record_judgment_once sha256 now pair_id
            (judgment sha256 judges session_id now kind entry.id entry.id entry.body v) rows new)
        ∙ rw unknown refl

    still : (k : Kind) → known k rows ≡ true → known k after ≡ true
    unfolding has_judgment
    still k h = rw (after_row, any-append, h) refl

    left : (other : String) → pair_id ≢ other → fresh other rows ≡ false → fresh other after ≡ false
    left other apart h = rw (after_row, any-append, h, not_same pair_id other apart) refl

    recorded-Checked : Checked kind pair_id rows after
    recorded-Checked = record {
      judged_now =
          has_judgment-record_judgment sha256 now pair_id
            (judgment sha256 judges session_id now kind entry.id entry.id entry.body v) rows new;
      judged_still = still;
      ids_left = left;
    }

  self_check-Checked :
      (kind : Kind) (pair_id : String) (opinion : Option Opinion) (rows rows' : PairStore)
      (r : Check)
      → fresh pair_id rows ≡ false
      → self_check sha256 judges session_id now kind pair_id entry opinion rows ≡ (rows', some r)
      → Checked kind pair_id rows rows'
  self_check-Checked kind pair_id opinion rows rows' r new e = elim (Bool-cases (known kind rows)) [
    | inl old ↦
        subst (Checked kind pair_id rows) (ap (λ t. t.0) (rw old at e))
          (unchanged-Checked kind pair_id rows old)
    | inr unknown ↦ judged_case opinion unknown (rw unknown at e)
  ]
    where
      judged_case :
          (o : Option Opinion)
          → known kind rows ≡ false
          → judge_self sha256 judges session_id now kind pair_id entry o rows ≡ (rows', some r)
          → Checked kind pair_id rows rows'
      judged_case none unknown d = absurd (none-some r (ap (λ t. t.1) d))
      judged_case (some v) unknown d =
          subst (Checked kind pair_id rows) (ap (λ t. t.0) d)
            (recorded-Checked kind pair_id rows v new unknown)

abbrev pub all_cached : SelfReport
all_cached = record { necessity = cached_check; safety = cached_check; correctness = cached_check }

module _ (sha256 : String → String) (entry : Entry) where
  -- All three checks are known for the entry's text.
  known_all :
      (judges : Judges) (session_id : Option String) (now : ℕ) (uuid4 : ℕ → String) (payload : Dict)
      (rows : PairStore)
      → has_judgment sha256 entry.id entry.id entry.body necessity rows ≡ true
      → has_judgment sha256 entry.id entry.id entry.body safety rows ≡ true
      → has_judgment sha256 entry.id entry.id entry.body correctness rows ≡ true
      → run_self_checks sha256 judges session_id now uuid4 entry payload rows
        ≡ (rows, some all_cached)
  unfolding run_self_checks
  known_all judges session_id now uuid4 payload rows n s c = rw (n, s, c) refl

  -- After self checks that all answered (with new and distinct pair ids), a second run on the same text,
  -- whatever the judges would now say, whoever runs it and when, finds every check cached and leaves the
  -- pair table as it is.
  pub run_self_checks_again :
      (judges : Judges) (session_id : Option String) (now : ℕ) (uuid4 : ℕ → String) (payload : Dict)
      (rows rows' : PairStore) (report : SelfReport)
      → any (λ p. p.pair_id == uuid4 0) rows ≡ false
      → any (λ p. p.pair_id == uuid4 1) rows ≡ false
      → any (λ p. p.pair_id == uuid4 2) rows ≡ false
      → uuid4 0 ≢ uuid4 1
      → uuid4 0 ≢ uuid4 2
      → uuid4 1 ≢ uuid4 2
      → run_self_checks sha256 judges session_id now uuid4 entry payload rows ≡ (rows', some report)
      → (judges' : Judges) (session_id' : Option String) (now' : ℕ) (uuid4' : ℕ → String)
        (payload' : Dict)
      → run_self_checks sha256 judges' session_id' now' uuid4' entry payload' rows'
        ≡ (rows', some all_cached)
  unfolding run_self_checks
  run_self_checks_again judges session_id now uuid4 payload rows rows' report f0 f1 f2 d01 d02 d12 e
        judges' session_id' now' uuid4' payload' =
      let (n, rows1, e1, next1) = after_check-some _ _ rows' report e in
      let (s, rows2, e2, next2) = after_check-some _ _ rows' report next1 in
      let (c, rows3, e3, next3) = after_check-some _ _ rows' report next2 in
      let v1 =
        self_check-Checked sha256 judges session_id now entry necessity _ _ rows rows1 n f0 e1 in
      let v2 =
        self_check-Checked sha256 judges session_id now entry safety _ _ rows1 rows2 s
          (v1.ids_left (uuid4 1) d01 f1) e2 in
      let v3 =
        self_check-Checked sha256 judges session_id now entry correctness _ _ rows2 rows3 c
          (v2.ids_left (uuid4 2) d12 (v1.ids_left (uuid4 2) d02 f2)) e3 in
      subst
        (λ t.
          run_self_checks sha256 judges' session_id' now' uuid4' entry payload' t
          ≡ (t, some all_cached))
        (ap (λ t. t.0) next3)
        (known_all judges' session_id' now' uuid4' payload' rows3
          (v3.judged_still necessity (v2.judged_still necessity v1.judged_now))
          (v3.judged_still safety v2.judged_now) v3.judged_now)
