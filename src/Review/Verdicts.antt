-- ===== src/Review/Verdicts.antt =====
-- src/memline/review.py: what the verdict says of the tables.
use memline.Prelude.{
  ℕ, ◌≤◌, String, ◌≡◌, ◌≢◌, refl, ap, ◌∙◌, Bool, true, ◌&&◌, ◌||◌, not, none, some, List, [], ◌∷◌,
  ◌++◌, ltb, arith, eq_iff, filter, any, length, take,
}
use memline.Prelude.Table.{order_by, order_by_desc, asc, desc}
use memline.Queue.{EventQueue, Event, failed, is_failed, matches}
use memline.Queue as Queue
use memline.Pairs.{
  Pair, PairStore, Kind, safety, correctness, necessity, ttl_expiry, same_kind, is_text, is_opened,
  of_session, of_kind, given, open_pairs,
}
use memline.Supersession.{is_nil}
use memline.Review.{
  Blocker, pending_checks, displacement_raised_by_me, ttl_expired, failed_adds, session_review,
  blockers, flag_blocker, if_some, if_positive, wait_pending, pending_stale_checks, failed_own_adds,
  is_failed_add, is_displacement, is_self_flag, self_flag_order, flagged, pair_ids,
}
use memline.Review.Listing.{
  is_nil-append, is_nil-map, is_nil-filter, is_nil-any, any-filter, any_same, any_either,
  any-sort_by, any-listing,
}

if_some-nil : {A : Type 0} (xs : List A) (b : Blocker) → is_nil (if_some xs (b ∷ [])) ≡ is_nil xs
if_some-nil [] b = refl
if_some-nil (x ∷ xs) b = refl

if_positive-nil : (n : ℕ) (b : Blocker) → is_nil (if_positive n (b ∷ [])) ≡ not (ltb 0 n)
if_positive-nil n b = ground arith

-- No kind of self flag is flagged exactly when there is no self flag.
abbrev pub no_flags : List Pair → Bool
no_flags ps =
    not (any (λ p. same_kind p.kind safety) ps)
    && not (any (λ p. same_kind p.kind correctness) ps)
    && not (any (λ p. same_kind p.kind necessity) ps)

flag-nil :
    (kind : Kind) (ps : List Pair)
    → is_nil (flag_blocker kind ps) ≡ not (any (λ p. same_kind p.kind kind) ps)
flag-nil kind ps =
    if_some-nil (flagged kind ps) _
    ∙ is_nil-map (λ p. p.old_id) (filter (λ p. same_kind p.kind kind) ps)
    ∙ is_nil-filter (λ p. same_kind p.kind kind) ps

-- Seven lists in a row are empty when each of them is.
all_nil :
    (a b c d e f g : List Blocker)
    → is_nil (a ++ b ++ c ++ d ++ e ++ f ++ g)
      ≡ (is_nil a && (is_nil b && is_nil c && is_nil d) && is_nil e && is_nil f && is_nil g)
all_nil [] [] [] [] e f g = is_nil-append (e ++ f) g ∙ ap (λ x. x && is_nil g) (is_nil-append e f)
all_nil [] [] [] (x ∷ d) e f g = refl
all_nil [] [] (x ∷ c) d e f g = refl
all_nil [] (x ∷ b) c d e f g = refl
all_nil (x ∷ a) b c d e f g = refl

blockers-nil :
    (pending : ℕ) (self_flags displacements ttl_flags : List Pair) (adds : List String)
    → is_nil (blockers pending self_flags displacements ttl_flags adds) ≡ (
        not (ltb 0 pending)
        && no_flags self_flags
        && is_nil displacements
        && is_nil ttl_flags
        && is_nil adds)
blockers-nil pending self_flags displacements ttl_flags adds =
    all_nil (if_positive pending (pending_checks pending ∷ [])) (flag_blocker safety self_flags)
      (flag_blocker correctness self_flags) (flag_blocker necessity self_flags)
      (if_some displacements (displacement_raised_by_me (pair_ids displacements) ∷ []))
      (if_some ttl_flags (ttl_expired (pair_ids ttl_flags) ∷ []))
      (if_some adds (failed_adds adds ∷ []))
    ∙ ground (
      arith,
      if_positive-nil pending (pending_checks pending),
      flag-nil safety self_flags,
      flag-nil correctness self_flags,
      flag-nil necessity self_flags,
      if_some-nil displacements (displacement_raised_by_me (pair_ids displacements)),
      if_some-nil ttl_flags (ttl_expired (pair_ids ttl_flags)),
      if_some-nil adds (failed_adds adds),
    )

-- What blocks a session, row by row.
abbrev pub is_own_flag : String → Pair → Bool
is_own_flag session p =
    is_opened p.disposition && is_text session p.new_session_id && not (same_kind p.kind ttl_expiry)

abbrev pub is_expiry_flag : Pair → Bool
is_expiry_flag p = is_opened p.disposition && same_kind p.kind ttl_expiry

abbrev pub is_lost_add : String → EventQueue → Event → Bool
is_lost_add session q row = is_failed row.status && is_failed_add session q row

module _ (session : String) (named : session ≢ "") (rows : PairStore)
    (few : length rows ≤ 500) where
  given_session : given (some session) ≡ some session
  given_session = ground (arith, eq_iff session "")

  abbrev is_own_open : Pair → Bool
  is_own_open x = is_opened x.disposition && is_text session x.new_session_id

  own_cond :
      (p : Pair → Bool) (x : Pair)
      → ((is_opened x.disposition && of_session (given (some session)) x && of_kind none x) && p x)
        ≡ (is_own_open x && p x)
  own_cond p x = rw given_session (ground arith)

  abbrev all_pairs : List Pair
  all_pairs = open_pairs (some session) none 500 rows

  own_pairs : (p : Pair → Bool) → any p all_pairs ≡ any (λ x. is_own_open x && p x) rows
  unfolding open_pairs
  own_pairs p =
      any-listing p
        (λ x. is_opened x.disposition && of_session (given (some session)) x && of_kind none x)
        (desc (λ x. x.judged_at)) 500 rows few
      ∙ any_same _ _ (own_cond p) rows

  ttl_pairs : is_nil (open_pairs none (some ttl_expiry) 500 rows) ≡ not (any is_expiry_flag rows)
  unfolding open_pairs
  ttl_pairs =
      is_nil-any (take 500 (order_by_desc (λ x. x.judged_at) (filter expiring rows)))
      ∙ ap not (
          any-listing (λ x. true) expiring (desc (λ x. x.judged_at)) 500 rows few
          ∙ any_same (λ x. expiring x && true) is_expiry_flag (λ x. ground arith) rows)
    where
      expiring : Pair → Bool
      expiring x =
          is_opened x.disposition && of_session (given none) x && of_kind (some ttl_expiry) x

  abbrev flags : List Pair
  flags = order_by (λ p. self_flag_order p.kind) (filter is_self_flag all_pairs)

  kind_flags :
      (kind : Kind)
      → any (λ p. same_kind p.kind kind) flags
        ≡ any (λ x. is_own_open x && (is_self_flag x && same_kind x.kind kind)) rows
  kind_flags kind =
      any-sort_by (λ p. same_kind p.kind kind) (asc (λ p. self_flag_order p.kind))
        (filter is_self_flag all_pairs)
      ∙ any-filter (λ p. same_kind p.kind kind) is_self_flag all_pairs
      ∙ own_pairs (λ x. is_self_flag x && same_kind x.kind kind)

  displaced :
      is_nil (filter is_displacement all_pairs)
      ≡ not (any (λ x. is_own_open x && is_displacement x) rows)
  displaced = is_nil-filter is_displacement all_pairs ∙ ap not (own_pairs is_displacement)

  abbrev own_flag : Kind → Pair → Bool
  own_flag kind x = is_own_open x && (is_self_flag x && same_kind x.kind kind)

  abbrev own_displacement : Pair → Bool
  own_displacement x = is_own_open x && is_displacement x

  abbrev any_own : Pair → Bool
  any_own x =
      own_flag safety x || own_flag correctness x || own_flag necessity x || own_displacement x

  own_kinds : (x : Pair) → any_own x ≡ is_own_flag session x
  own_kinds x = ground arith

  together :
      (any (own_flag safety) rows
        || any (own_flag correctness) rows
        || any (own_flag necessity) rows
        || any own_displacement rows)
      ≡ any (is_own_flag session) rows
  together =
      ap (λ b. b || any (own_flag necessity) rows || any own_displacement rows)
        (any_either (own_flag safety) (own_flag correctness) rows)
      ∙ ap (λ b. b || any own_displacement rows)
          (any_either (λ x. own_flag safety x || own_flag correctness x) (own_flag necessity) rows)
      ∙ any_either (λ x. own_flag safety x || own_flag correctness x || own_flag necessity x)
          own_displacement rows
      ∙ any_same any_own (is_own_flag session) own_kinds rows

  own_part :
      (no_flags flags && is_nil (filter is_displacement all_pairs))
      ≡ not (any (is_own_flag session) rows)
  own_part =
      ground (
        arith,
        kind_flags safety,
        kind_flags correctness,
        kind_flags necessity,
        displaced,
        together,
      )

  module _ (q' : EventQueue) (few_events : length q'.events ≤ 500) where
    adds_part : is_nil (failed_own_adds session q') ≡ not (any (is_lost_add session q') q'.events)
    unfolding failed_own_adds Queue.list
    adds_part =
        is_nil-map (λ row. row.id)
          (filter (is_failed_add session q') (Queue.list (some failed) 500 0 q'))
        ∙ is_nil-filter (is_failed_add session q') (Queue.list (some failed) 500 0 q')
        ∙ ap not (
            any-listing (is_failed_add session q') (matches (some failed))
              (desc (λ r. r.created_at)) 500 q'.events few_events)

    -- For a session with a name, a pair table and an event table of at most 500 rows, and whatever was
    -- observed while waiting: the review passes exactly when no stale check of the session was left
    -- pending, no open pair that its writes raised is left (expiries aside), no expiry flag of anyone is
    -- open, and no add of its own has failed without being acknowledged.
    pub session_review_passes :
        (deadline : ℕ) (q : EventQueue) (observed : List (ℕ × EventQueue))
        → (session_review session deadline q observed q' rows).passes ≡ (
            not (ltb 0 (wait_pending session deadline observed (pending_stale_checks session q)))
            && not (any (is_own_flag session) rows)
            && not (any is_expiry_flag rows)
            && not (any (is_lost_add session q') q'.events))
    unfolding session_review
    session_review_passes deadline q observed =
        blockers-nil (wait_pending session deadline observed (pending_stale_checks session q)) flags
          (filter is_displacement all_pairs) (open_pairs none (some ttl_expiry) 500 rows)
          (failed_own_adds session q')
        ∙ ground (arith, own_part, ttl_pairs, adds_part)
