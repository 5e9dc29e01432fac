-- ===== src/Pairs.antt =====
-- src/memline/staleness.py, `PairStore`: the table of suspicion pairs, the evidence that the judges
-- leave for review. A confidence is a number of thousandths; `sha256` is the hash of a text.
pub mod Calls
pub mod Distinct
pub mod Finality
pub mod Judging
pub mod Closing
pub mod Dismissals
mod Tests
use memline.Prelude.{
  ℕ, zero, suc, ◌+◌, String, ◌≡◌, refl, Bool, true, false, ◌&&◌, ◌||◌, not, Option, none, some,
  List, [], ◌∷◌, ◌++◌, map, ltb, leb, ◌==◌, if◌then◌else◌, filter, count, find, take, any, elem,
  length,
}
use memline.Prelude.Table.{update_where, order_by_desc}
use memline.Result.{Result, ok, raise, invalid_disposition, evidence_not_positive}

pub data Kind : Type 0 where
  displacement necessity correctness ttl_expiry safety : Kind

pub data Verdict : Type 0 where
  superseded duplicate kept : Verdict
  durable born_unnecessary expiring : Verdict
  consistent timestamp_suspect attribution_suspect language_suspect : Verdict
  clean secret_suspect : Verdict
  ttl_expired : Verdict

-- `opened` is the source's 'open'.
pub data Disposition : Type 0 where
  opened cached confirmed dismissed obsoleted expired merged ttl : Disposition

pub record Pair : Type 0 where
  pub pair_id : String
  pub kind : Kind
  pub new_id : String
  pub old_id : String
  pub old_text_hash : String
  pub verdict : Verdict
  pub confidence : Option ℕ
  pub reason : Option String
  pub judged_at : ℕ
  pub judge_model : Option String
  pub new_session_id : Option String
  pub disposition : Disposition
  pub disposed_by : Option String
  pub disposed_at : Option ℕ

abbrev pub PairStore : Type 0
PairStore = List Pair

-- What a judge says of an entry, as `record_judgment` takes it.
pub record Judgment : Type 0 where
  pub kind : Kind
  pub new_id : String
  pub old_id : String
  pub old_text : String
  pub verdict : Verdict
  pub confidence : Option ℕ
  pub reason : Option String
  pub judge_model : Option String
  pub new_session_id : Option String

abbrev pub same_kind : Kind → Kind → Bool
same_kind displacement displacement = true
same_kind necessity necessity = true
same_kind correctness correctness = true
same_kind ttl_expiry ttl_expiry = true
same_kind safety safety = true
same_kind _ _ = false

abbrev pub is_opened : Disposition → Bool
is_opened opened = true
is_opened _ = false

abbrev pub is_dismissed : Disposition → Bool
is_dismissed dismissed = true
is_dismissed _ = false

-- The closures that a failed follow-up may roll back.
abbrev pub is_reopenable : Disposition → Bool
is_reopenable confirmed = true
is_reopenable merged = true
is_reopenable ttl = true
is_reopenable _ = false

abbrev pub is_displaced : Verdict → Bool
is_displaced superseded = true
is_displaced duplicate = true
is_displaced _ = false

abbrev pub is_durable : Verdict → Bool
is_durable durable = true
is_durable _ = false

abbrev pub is_consistent : Verdict → Bool
is_consistent consistent = true
is_consistent _ = false

abbrev pub is_clean : Verdict → Bool
is_clean clean = true
is_clean _ = false

-- _OPENING_VERDICTS
abbrev pub opening_verdict : Kind → Verdict → Bool
opening_verdict displacement v = is_displaced v
opening_verdict necessity v = not (is_durable v)
opening_verdict correctness v = not (is_consistent v)
opening_verdict ttl_expiry v = true
opening_verdict safety v = not (is_clean v)

-- _KIND_FLOORS
abbrev pub kind_floor : Kind → ℕ
kind_floor displacement = 600
kind_floor necessity = 800
kind_floor correctness = 800
kind_floor safety = 600
kind_floor ttl_expiry = 0

abbrev pub suspicion_confidence_floor : ℕ
suspicion_confidence_floor = 600

-- `confidence or 0.0`
abbrev pub or_zero : Option ℕ → ℕ
or_zero none = 0
or_zero (some c) = c

-- `confidence >= ?` in SQL, which is not true of NULL.
abbrev pub at_least : ℕ → Option ℕ → Bool
at_least floor none = false
at_least floor (some c) = leb floor c

-- An argument that is None or empty is not given.
abbrev pub given : Option String → Option String
given none = none
given (some s) = if s == "" then none else some s

abbrev pub is_text : String → Option String → Bool
is_text s none = false
is_text s (some t) = t == s

-- UNIQUE(kind, new_id, old_id, old_text_hash)
abbrev pub is_version : Kind → String → String → String → Pair → Bool
is_version kind new_id old_id hash p =
    same_kind p.kind kind && p.new_id == new_id && p.old_id == old_id && p.old_text_hash == hash

-- The row that `p` would collide with.
abbrev pub collides : Pair → Pair → Bool
collides p x = x.pair_id == p.pair_id || is_version p.kind p.new_id p.old_id p.old_text_hash x

abbrev pub opens : Judgment → Bool
opens j = opening_verdict j.kind j.verdict && leb (kind_floor j.kind) (or_zero j.confidence)

module _ (sha256 : String → String) where
  abbrev pub text_hash : String → String
  text_hash text = sha256 text

  abbrev pub judged_row : ℕ → String → Judgment → Pair
  judged_row now pair_id j = record {
    pair_id = pair_id;
    kind = j.kind;
    new_id = j.new_id;
    old_id = j.old_id;
    old_text_hash = text_hash j.old_text;
    verdict = j.verdict;
    confidence = j.confidence;
    reason = j.reason;
    judged_at = now;
    judge_model = j.judge_model;
    new_session_id = j.new_session_id;
    disposition = if opens j then opened else cached;
    disposed_by = none;
    disposed_at = none;
  }

  -- INSERT OR IGNORE; the answer is the row and whether it was inserted.
  unfoldable pub record_judgment : ℕ → String → Judgment → PairStore → PairStore × Pair × Bool
  record_judgment now pair_id j rows =
      let row = judged_row now pair_id j in
      if any (collides row) rows then (rows, row, false) else (rows ++ row ∷ [], row, true)

  unfoldable pub has_judgment : String → String → String → Kind → PairStore → Bool
  has_judgment new_id old_id old_text kind rows =
      any (is_version kind new_id old_id (text_hash old_text)) rows

  abbrev pub is_judged_either : String → String → String × String → PairStore → Bool
  is_judged_either probe_id probe_text (cand_id, cand_text) rows =
      any
        (λ p.
          is_version displacement probe_id cand_id (text_hash cand_text) p
          || is_version displacement cand_id probe_id (text_hash probe_text) p)
        rows

  -- The set of the candidates' ids that either direction has judged.
  unfoldable pub judged_either : String → String → List (String × String) → PairStore → List String
  judged_either probe_id probe_text candidates rows =
      map (λ c. c.0) (filter (λ c. is_judged_either probe_id probe_text c rows) candidates)

  -- Open pairs against a text that the memory no longer has.
  abbrev pub is_outdated : String → String → Pair → Bool
  is_outdated memory_id current_text p =
      p.old_id == memory_id
      && is_opened p.disposition
      && not (p.old_text_hash == text_hash current_text)

  unfoldable pub close_for_updated_text : ℕ → String → String → PairStore → PairStore × ℕ
  close_for_updated_text now memory_id current_text rows = (
    update_where (is_outdated memory_id current_text)
        (λ p. record p { disposition = expired; disposed_at = some now }) rows,
    count (is_outdated memory_id current_text) rows,
  )

  -- The displacement suspicions of one text version that were strong enough to open.
  abbrev pub is_evidence : String → String → Pair → Bool
  is_evidence old_id old_text p =
      same_kind p.kind displacement
      && p.old_id == old_id
      && p.old_text_hash == text_hash old_text
      && is_displaced p.verdict
      && at_least suspicion_confidence_floor p.confidence

  abbrev pub latest_evidence : String → String → ℕ → PairStore → List Pair
  latest_evidence old_id old_text required rows =
      take required (order_by_desc (λ p. p.judged_at) (filter (is_evidence old_id old_text) rows))

pub record Evidence : Type 0 where
  pub eligible : Bool
  pub required : ℕ
  pub consecutive_count : ℕ
  pub pair_ids : List String

-- The loop with `break`: the pair ids of the leading run of dismissals with new `new_id`s.
abbrev pub dismissed_run : List Pair → List String → List String
dismissed_run [] new_ids = []
dismissed_run (p ∷ ps) new_ids =
    let rest = dismissed_run ps (p.new_id ∷ new_ids) in
    if not (is_dismissed p.disposition) || elem p.new_id new_ids then [] else p.pair_id ∷ rest

unfoldable pub consecutive_dismissed_displacement_evidence :
    (String → String) → String → String → ℕ → PairStore → Result Evidence
consecutive_dismissed_displacement_evidence sha256 old_id old_text zero rows =
    raise evidence_not_positive
consecutive_dismissed_displacement_evidence sha256 old_id old_text (suc k) rows =
    let pair_ids = dismissed_run (latest_evidence sha256 old_id old_text (suc k) rows) [] in
    ok (record {
      eligible = leb (suc k) (length pair_ids);
      required = suc k;
      consecutive_count = length pair_ids;
      pair_ids = pair_ids;
    })

-- `open_by_old.get(id)`: the open pairs of one of the given ids.
unfoldable pub open_for_old_ids : List String → PairStore → String → List Pair
open_for_old_ids old_ids rows old_id =
    filter (λ p. is_opened p.disposition && elem p.old_id old_ids && p.old_id == old_id) rows

abbrev pub of_session : Option String → Pair → Bool
of_session none p = true
of_session (some session) p = is_text session p.new_session_id

abbrev pub of_kind : Option Kind → Pair → Bool
of_kind none p = true
of_kind (some k) p = same_kind p.kind k

unfoldable pub open_pairs : Option String → Option Kind → ℕ → PairStore → List Pair
open_pairs session_id kind limit rows = take limit (
    order_by_desc (λ p. p.judged_at)
      (filter (λ p. is_opened p.disposition && of_session (given session_id) p && of_kind kind p)
        rows))

unfoldable pub open_count : PairStore → ℕ
open_count rows = count (λ p. is_opened p.disposition) rows

abbrev pub is_disposal : Disposition → Bool
is_disposal opened = false
is_disposal cached = false
is_disposal _ = true

abbrev pub close : ℕ → Disposition → Option String → Pair → Pair
close now disposition disposed_by p = record p {
  disposition = disposition;
  disposed_by = disposed_by;
  disposed_at = some now;
}

unfoldable pub dispose :
    ℕ → String → Disposition → Option String → PairStore → Result (PairStore × Bool)
dispose now pair_id disposition disposed_by rows =
    if is_disposal disposition
    then ok (
      update_where (λ p. p.pair_id == pair_id && is_opened p.disposition)
          (close now disposition disposed_by) rows,
      any (λ p. p.pair_id == pair_id && is_opened p.disposition) rows,
    )
    else raise invalid_disposition

unfoldable pub reopen : String → PairStore → PairStore × Bool
reopen pair_id rows = (
  update_where (λ p. p.pair_id == pair_id && is_reopenable p.disposition)
      (λ p. record p { disposition = opened; disposed_by = none; disposed_at = none }) rows,
  any (λ p. p.pair_id == pair_id && is_reopenable p.disposition) rows,
)

abbrev pub is_open_for_old : String → Option Kind → Pair → Bool
is_open_for_old old_id kind p = p.old_id == old_id && is_opened p.disposition && of_kind kind p

unfoldable pub close_for_old :
    ℕ → String → Disposition → Option String → Option Kind → PairStore → PairStore × ℕ
close_for_old now old_id disposition disposed_by kind rows = (
  update_where (is_open_for_old old_id kind) (close now disposition disposed_by) rows,
  count (is_open_for_old old_id kind) rows,
)

abbrev pub is_open_for_new : String → Pair → Bool
is_open_for_new new_id p = p.new_id == new_id && is_opened p.disposition

abbrev pub stamp : ℕ → Disposition → Pair → Pair
stamp now disposition p = record p { disposition = disposition; disposed_at = some now }

unfoldable pub close_for_deleted_memory : ℕ → String → PairStore → PairStore × ℕ
close_for_deleted_memory now memory_id rows =
    let mooted = update_where (is_open_for_old memory_id none) (stamp now obsoleted) rows in
    (
      update_where (is_open_for_new memory_id) (stamp now expired) mooted,
      count (is_open_for_old memory_id none) rows + count (is_open_for_new memory_id) mooted,
    )

unfoldable pub get : String → PairStore → Option Pair
get pair_id rows = find (λ p. p.pair_id == pair_id) rows
