-- ===== src/Queue/Claiming.antt =====
-- src/memline/queue.py: which row a worker claims, and what an event that is read by its id shows
-- after each call.
use memline.Prelude.{
  ℕ, ◌≤◌, String, ◌≡◌, refl, inl, inr, Bool, true, false, ◌≢◌, Option, none, some, ◌==◌, arith,
  count, In, Option-cases, In-filter_of, count-zero_all,
}
use mathlib.Core.Option
use memline.Prelude.Table.{update_where, asc}
use memline.Prelude.Order.{first-order_by-le, not-In-first-sort_by, find-update_where, updated}
use memline.Dict.{Dict}
use memline.Queue.{
  queued, Event, EventQueue, Item, item_of, claim_row, next_queued, complete_row, fail_row,
  requeue_row, retry_row, retryable, is_queued, is_processing, get, claim_next, complete, fail,
  recover_stale, retry,
}
use memline.Queue.History.{next_queued-In}

-- The claim of the row `m`: the oldest queued one, marked as processing with one more attempt.
pub record Claims (now : ℕ) (q q' : EventQueue) (handed : Item) (m : Event) : Type 0 where
  pub present : In m q.events
  pub waiting : m.status ≡ queued
  pub oldest : (r : Event) → In r q.events → r.status ≡ queued → m.created_at ≤ r.created_at
  pub item : handed ≡ item_of m
  pub events : q'.events ≡ update_where (λ r. r.id == m.id) (claim_row now) q.events

abbrev pub Claimed : ℕ → EventQueue → EventQueue × Option Item → Type 0
Claimed now q (q', none) = (q' ≡ q) × ((r : Event) → In r q.events → r.status ≢ queued)
Claimed now q (q', some item) = (m : Event) × Claims now q q' item m

is_queued_of : (r : Event) → r.status ≡ queued → is_queued r.status ≡ true
is_queued_of r h = ground arith

-- `claim_next` takes the oldest queued row and hands out its id, operation, arguments and the new
-- number of attempts; it answers None, and changes nothing, only if no row is queued.
pub claim_next-Claimed : (now : ℕ) (q : EventQueue) → Claimed now q (claim_next now q)
unfolding claim_next
claim_next-Claimed now q = elim (Option-cases (next_queued q.events)) [
  | inl nothing ↦
      rw (nothing, claim_next)
        (
          refl,
          λ r i h.
              not-In-first-sort_by (asc λ x. x.created_at) r _ nothing
                (In-filter_of (λ x. is_queued x.status) r q.events i (is_queued_of r h)),
        )
  | inr (m, e) ↦
      rw (e, claim_next)
        (
          m,
          let found = next_queued-In q.events m e in
              record {
                present = found.0;
                waiting = found.1;
                oldest = λ r i h.
                    first-order_by-le (λ x. x.created_at) r m _ e
                      (In-filter_of (λ x. is_queued x.status) r q.events i (is_queued_of r h));
                item = refl;
                events = refl;
              },
        )
]

module _ (now : ℕ) (q : EventQueue) (j : String) where
  abbrev pub changed : (Event → Bool) → (Event → Event) → Option Event
  changed cond set = Option.map (updated cond set) (get j q)

  pub get-complete :
      (id : String) (result : Dict)
      → get j (complete now id result q) ≡ changed (λ r. r.id == id) (complete_row now result)
  unfolding get complete
  get-complete id result =
      find-update_where (λ r. r.id == id) (complete_row now result) (λ r. r.id) (λ r. refl) j
        q.events

  pub get-fail :
      (id error : String) (attempts : ℕ)
      → get j (fail now id error attempts q).0
        ≡ changed (λ r. r.id == id) (fail_row now error attempts)
  unfolding get fail
  get-fail id error attempts =
      find-update_where (λ r. r.id == id) (fail_row now error attempts) (λ r. r.id) (λ r. refl) j
        q.events

  pub get-retry : (id : String) → get j (retry now id q).0 ≡ changed (retryable id) (retry_row now)
  unfolding get retry
  get-retry id = find-update_where (retryable id) (retry_row now) (λ r. r.id) (λ r. refl) j q.events

requeued_not_processing :
    (now : ℕ) (r : Event)
    → is_processing (updated (λ x. is_processing x.status) (requeue_row now) r).status ≡ false
requeued_not_processing now r = ground arith

-- After a restart no row is left in processing, and the answer is the number of rows that were.
pub recover_stale-none_processing :
    (now : ℕ) (q : EventQueue)
    → (count (λ r. is_processing r.status) (recover_stale now q).0.events ≡ 0)
      × ((recover_stale now q).1 ≡ count (λ r. is_processing r.status) q.events)
unfolding recover_stale
recover_stale-none_processing now q = (
  count-zero_all (λ r. is_processing r.status)
      (updated (λ x. is_processing x.status) (requeue_row now)) (requeued_not_processing now)
      q.events,
  refl,
)
