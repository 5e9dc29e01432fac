-- ===== src/Review/Exact.antt =====
-- src/memline/review.py: the verdict is about exactly the rows that a session has to answer for.
use memline.Prelude.{
  ℕ, ◌≤◌, ◌<◌, String, ◌≡◌, ◌≢◌, ◌↔◌, refl, ap, ◌∙◌, inl, inr, Bool, true, false, ◌&&◌, not, none,
  List, [], ◌∷◌, ltb, arith, any, All, count, length, Bool-cases, ltb→lt,
}
use memline.Prelude.Places.{any-In}
use memline.Prelude.Table.{desc}
use memline.Queue.{
  EventQueue, Event, Status, queued, processing, done, failed, is_queued, is_processing, is_failed,
  matches,
}
use memline.Queue as Queue
use memline.Pairs.{PairStore}
use memline.Review.{session_review, is_pending_check, pending_stale_checks, wait_pending}
use memline.Review.Listing.{any-listing, any_same}
use memline.Review.Rows.{
  PendingCheck, LostAdd, OwnSuspicion, Expiry, Readable, No, any-No, pending_shows, pending_means,
  own_iff, overdue_iff, lost_iff,
}
use memline.Review.Verdicts.{session_review_passes}

-- The queue whose stale checks the verdict counts. The polling ends when no check of the session is
-- pending, when the deadline is past, or (without waiting, at once) when nothing more is observed.
pub data LastPoll (session : String) (deadline : ℕ)
    : EventQueue → List (ℕ × EventQueue) → EventQueue → Type 0 where
  ends : {q : EventQueue} → LastPoll session deadline q [] q
  settled :
      {q : EventQueue} {seen : ℕ × EventQueue} {observed : List (ℕ × EventQueue)}
      → No (PendingCheck session q)
      → LastPoll session deadline q (seen ∷ observed) q
  over :
      {q q' : EventQueue} {clock : ℕ} {observed : List (ℕ × EventQueue)}
      → deadline ≤ clock
      → LastPoll session deadline q ((clock, q') ∷ observed) q
  polls :
      {q q' last : EventQueue} {clock : ℕ} {observed : List (ℕ × EventQueue)} (e : Event)
      → PendingCheck session q e
      → clock < deadline
      → LastPoll session deadline q' observed last
      → LastPoll session deadline q ((clock, q') ∷ observed) last

-- Four tests at once.
four :
    {A B C D : Type 0} (a b c d : Bool)
    → (a ≡ true) ↔ A
    → (b ≡ true) ↔ B
    → (c ≡ true) ↔ C
    → (d ≡ true) ↔ D
    → ((a && b && c && d) ≡ true) ↔ (A × B × C × D)
four false b c d f g h i = ((λ e. cc), (λ x. f.1 x.0))
four true false c d f g h i = ((λ e. cc), (λ x. g.1 x.1))
four true true false d f g h i = ((λ e. cc), (λ x. h.1 x.2))
four true true true d f g h i = ((λ e. (f.0 refl, g.0 refl, h.0 refl, i.0 e)), (λ x. i.1 x.3))

count_positive : {A : Type 0} (p : A → Bool) (xs : List A) → ltb 0 (count p xs) ≡ any p xs
count_positive p [] = refl
count_positive p (x ∷ xs) = elim (Bool-cases (p x)) [
  | inl hit ↦ rw hit (ground arith)
  | inr miss ↦ rw miss (count_positive p xs)
]

module _ (session : String) where
  -- The count that the code takes.
  pending_counted :
      (q : EventQueue)
      → Readable q
      → not (ltb 0 (pending_stale_checks session q))
        ≡ not (any (is_pending_check session q) q.events)
  unfolding pending_stale_checks Queue.list
  pending_counted q readable = ap not (
      count_positive (is_pending_check session q) (Queue.list none 500 0 q)
      ∙ any-listing (is_pending_check session q) (matches none) (desc (λ r. r.created_at)) 500
          q.events readable.few
      ∙ any_same (λ x. true && is_pending_check session q x) (is_pending_check session q)
          (λ x. refl) q.events)

  pending_iff :
      (q : EventQueue)
      → Readable q
      → (not (ltb 0 (pending_stale_checks session q)) ≡ true) ↔ No (PendingCheck session q)
  pending_iff q readable = rw (pending_counted q readable) (
      any-No (is_pending_check session q) q.events (pending_shows session q readable)
        (pending_means session q readable))

  some_pending :
      (q : EventQueue)
      → Readable q
      → ltb 0 (pending_stale_checks session q) ≡ true
      → (e : Event) × PendingCheck session q e
  some_pending q readable h =
      let found : any (is_pending_check session q) q.events ≡ true =
        ground (arith, pending_counted q readable, h) in
      let (e, i, hit) = any-In (is_pending_check session q) q.events found in
      (e, pending_means session q readable e i hit)

  last_poll :
      (deadline : ℕ) (q : EventQueue) (observed : List (ℕ × EventQueue))
      → Readable q
      → All (λ (seen : ℕ × EventQueue). Readable seen.1) observed
      → (last : EventQueue) × LastPoll session deadline q observed last
        × ((not (ltb 0 (wait_pending session deadline observed (pending_stale_checks session q)))
              ≡ true)
            ↔ No (PendingCheck session last))
  unfolding wait_pending
  last_poll deadline q [] readable all = (q, ends, pending_iff q readable)
  last_poll deadline q ((clock, q') ∷ observed) readable all =
      let (last, poll, iff) = last_poll deadline q' observed all.0 all.1 in
      elim (Bool-cases (ltb 0 (pending_stale_checks session q))) [
        | inr none_left ↦ (
          q,
          settled ((pending_iff q readable).0 (rw none_left refl)),
          rw none_left (pending_iff q readable),
        )
        | inl some_left ↦ elim (Bool-cases (ltb clock deadline)) [
          | inr late ↦
              (q, over (ground (arith, late)), rw (some_left, late) (pending_iff q readable))
          | inl early ↦
              let (e, it) = some_pending q readable some_left in
              (last, polls e it (ltb→lt clock deadline early) poll, rw (some_left, early) iff)
        ]
      ]

  module _ (rows : PairStore) where
    -- For a session with a name, a pair table of at most 500 rows, and queues (at the start, at each
    -- poll and at the end) of at most 500 events with distinct ids: there is a last queue that is polled,
    -- which is the one at which a check of the session is no longer pending, the deadline is past, or
    -- nothing more is observed; and the review passes exactly when in that queue no stale check of the
    -- session is queued or under way, no open suspicion that its writes raised is left (expiries aside),
    -- no expiry of anyone is open, and at the end no add of the session has failed unacknowledged.
    pub session_review_exact :
        (deadline : ℕ) (q : EventQueue) (observed : List (ℕ × EventQueue)) (q' : EventQueue)
        → session ≢ ""
        → length rows ≤ 500
        → Readable q
        → All (λ (seen : ℕ × EventQueue). Readable seen.1) observed
        → Readable q'
        → (last : EventQueue) × LastPoll session deadline q observed last
          × (((session_review session deadline q observed q' rows).passes ≡ true) ↔ (
              No (PendingCheck session last)
              × No (OwnSuspicion session rows)
              × No (Expiry rows)
              × No (LostAdd session q')))
    session_review_exact deadline q observed q' named few readable all readable' =
        let (last, poll, checks) = last_poll deadline q observed readable all in
        (
          last,
          poll,
          rw (session_review_passes session named rows few q' readable'.few deadline q observed) (
              four _ _ _ _ checks (own_iff session rows) (overdue_iff session rows)
                (lost_iff session rows q' readable')),
        )
