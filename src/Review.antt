-- ===== src/Review.antt =====
-- src/memline/review.py: `session_review`, whether a session may say that it is done. The previews of
-- memories and the playbook texts that travel with the findings are left out.
pub mod Authority
pub mod Exact
pub mod Listing
pub mod Rows
pub mod Verdicts
mod Tests
use memline.Prelude.{
  ℕ, suc, ◌+◌, String, Bool, true, false, ◌&&◌, ◌||◌, not, Option, none, some, List, [], ◌∷◌, ◌++◌,
  map, ltb, ◌==◌, if◌then◌else◌, filter, count, length,
}
use memline.Prelude.Table.{order_by}
use memline.Dict.{Value, null, flag, time, text, texts, Dict, get}
use memline.Queue.{EventQueue, Event, queued, processing, failed, is_queued, is_processing}
use memline.Queue as Queue
use memline.Pairs.{
  Kind, displacement, necessity, correctness, ttl_expiry, safety, Pair, PairStore, same_kind,
  open_pairs,
}
use memline.Supersession.{is_nil}

-- args.get("session_id") == session
abbrev pub is_session : String → Value → Bool
is_session session (text s) = s == session
is_session session _ = false

-- queue.get_args(row["event_id"]) or {}
abbrev pub args_or_empty : Option Dict → Dict
args_or_empty none = []
args_or_empty (some args) = args

abbrev pub is_own : String → EventQueue → Event → Bool
is_own session q row =
    is_session session (get "session_id" (args_or_empty (Queue.get_args row.id q)))

abbrev pub is_pending_check : String → EventQueue → Event → Bool
is_pending_check session q row =
    row.op == "stale_check"
    && (is_queued row.status || is_processing row.status)
    && is_own session q row

unfoldable pub pending_stale_checks : String → EventQueue → ℕ
pending_stale_checks session q = count (is_pending_check session q) (Queue.list none 500 0 q)

abbrev pub is_failed_add : String → EventQueue → Event → Bool
is_failed_add session q row = row.op == "add" && not row.acked && is_own session q row

unfoldable pub failed_own_adds : String → EventQueue → List String
failed_own_adds session q =
    map (λ row. row.id) (filter (is_failed_add session q) (Queue.list (some failed) 500 0 q))

-- The loop of `wait`: each observation is what the clock says before a sleep, and the queue after it.
unfoldable pub wait_pending : String → ℕ → List (ℕ × EventQueue) → ℕ → ℕ
wait_pending session deadline [] pending = pending
wait_pending session deadline ((clock, q) ∷ observed) pending =
    let later = wait_pending session deadline observed (pending_stale_checks session q) in
    if ltb 0 pending && ltb clock deadline then later else pending

pub data Blocker : Type 0 where
  pending_checks : ℕ → Blocker
  self_flag : Kind → List String → Blocker
  displacement_raised_by_me ttl_expired failed_adds : List String → Blocker

-- _SELF_FLAG_ORDER
abbrev pub self_flag_order : Kind → ℕ
self_flag_order safety = 0
self_flag_order correctness = 1
self_flag_order necessity = 2
self_flag_order _ = 9

pub record Review : Type 0 where
  pub session : String
  pub passes : Bool
  pub blocking : List Blocker
  pub pending : ℕ
  pub open_displacement : List Pair
  pub self_flags : List Pair
  pub ttl_flags : List Pair

abbrev pub if_positive : ℕ → List Blocker → List Blocker
if_positive n blockers = if ltb 0 n then blockers else []

abbrev pub if_some {ℓ} : {A : Type ℓ} → List A → List Blocker → List Blocker
if_some [] blockers = []
if_some (x ∷ xs) blockers = blockers

abbrev pub is_displacement : Pair → Bool
is_displacement p = same_kind p.kind displacement

abbrev pub is_self_flag : Pair → Bool
is_self_flag p = not (same_kind p.kind displacement || same_kind p.kind ttl_expiry)

-- The memories that carry the session's flags of one kind.
abbrev pub flagged : Kind → List Pair → List String
flagged kind self_flags = map (λ p. p.old_id) (filter (λ p. same_kind p.kind kind) self_flags)

abbrev pub flag_blocker : Kind → List Pair → List Blocker
flag_blocker kind self_flags =
    if_some (flagged kind self_flags) (self_flag kind (flagged kind self_flags) ∷ [])

abbrev pub pair_ids : List Pair → List String
pair_ids ps = map (λ p. p.pair_id) ps

abbrev pub blockers : ℕ → List Pair → List Pair → List Pair → List String → List Blocker
blockers pending self_flags displacements ttl_flags adds =
    if_positive pending (pending_checks pending ∷ [])
    ++ flag_blocker safety self_flags
    ++ flag_blocker correctness self_flags
    ++ flag_blocker necessity self_flags
    ++ if_some displacements (displacement_raised_by_me (pair_ids displacements) ∷ [])
    ++ if_some ttl_flags (ttl_expired (pair_ids ttl_flags) ∷ [])
    ++ if_some adds (failed_adds adds ∷ [])

abbrev pub verdict : String → ℕ → List Pair → List Pair → List Pair → List String → Review
verdict session pending displacements self_flags ttl_flags adds =
    let blocking = blockers pending self_flags displacements ttl_flags adds in
    record {
      session = session;
      passes = is_nil blocking;
      blocking = blocking;
      pending = pending;
      open_displacement = displacements;
      self_flags = self_flags;
      ttl_flags = ttl_flags;
    }

-- `q` is the queue at the start, `observed` what the waiting sees (nothing, without `wait`), and `q'`
-- the queue at the end.
unfoldable pub session_review :
    String → ℕ → EventQueue → List (ℕ × EventQueue) → EventQueue → PairStore → Review
session_review session deadline q observed q' rows =
    let all_pairs = open_pairs (some session) none 500 rows in
    verdict session (wait_pending session deadline observed (pending_stale_checks session q))
      (filter is_displacement all_pairs)
      (order_by (λ p. self_flag_order p.kind) (filter is_self_flag all_pairs))
      (open_pairs none (some ttl_expiry) 500 rows) (failed_own_adds session q')
