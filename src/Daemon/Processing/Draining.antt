-- ===== src/Daemon/Processing/Draining.antt =====
-- src/memline/daemon.py: how long a worker of the queue has to run, and what it leaves.
use memline.Prelude.{
  ℕ, ◌+◌, ◌*◌, ◌-◌, ◌≤◌, ◌<◌, ◌≡◌, refl, ap, ◌∙◌, sym, ◌⊎◌, inl, inr, ◌≢◌, false, none, List, [],
  ◌∷◌, map, ◌==◌, arith, In, Option-cases, Bool-cases, length, In-map, In-filter_of, subst, count,
  here, there,
}
use memline.Prelude.Table.{asc}
use memline.Prelude.Order.{updated, Keyed, update_where-Keyed, not-In-first-sort_by}
use memline.Prelude.Counting.{weigh}
use memline.Prelude.Updates.{map-update_where}
use memline.Queue.{
  Event, EventQueue, Item, Status, queued, processing, done, failed, is_queued, is_processing,
  item_of, next_queued, max_attempts,
}
use memline.Queue.Keeping.{Ids}
use memline.Queue.History.{queued_iff}
use memline.Daemon.Processing.Turns.{
  effort, efforts, turned, turned-id, turned-not_processing, worker_turn-events,
  worker_turn-efforts, worker_turn-waits,
}
use memline.Daemon.Processing.{Outcome, worker_turn, worker_turns}

-- No row is with a worker.
abbrev pub Idle : EventQueue → Type 0
Idle q = (r : Event) → In r q.events → is_processing r.status ≡ false

weigh-In : (r : Event) (rows : List Event) → In r rows → effort r ≤ weigh effort rows
weigh-In r [] i = elim i [ ]
weigh-In r (x ∷ rows) (here e) = omega (arith, ap effort e)
weigh-In r (x ∷ rows) (there i) = omega (arith, weigh-In r rows i)

effort-not_queued : (r : Event) → r.status ≢ queued → effort r ≡ 0
effort-not_queued r h = elim (Bool-cases (is_queued r.status)) [
  | inl hit ↦ absurd (h (queued_iff r.status hit))
  | inr miss ↦ rw (miss, effort) refl
]

queued_effort : (r : Event) → r.status ≡ queued → 0 < effort r
queued_effort r h = ground arith

weigh-none_queued :
    (rows : List Event) → ((r : Event) → In r rows → r.status ≢ queued) → weigh effort rows ≡ 0
weigh-none_queued [] h = refl
weigh-none_queued (x ∷ rows) h =
    let first : effort x ≡ 0 = effort-not_queued x (h x (here refl)) in
    omega (arith, first, weigh-none_queued rows (λ r i. h r (there i)))

-- A claimed row has at most three turns left.
efforts_bound :
    (rows : List Event) → weigh effort rows ≤ max_attempts * count (λ r. is_queued r.status) rows
efforts_bound [] = omega arith
efforts_bound (x ∷ rows) = ground (arith, efforts_bound rows)

-- What a claim that answers None says of the rows.
none_queued :
    (q : EventQueue) → next_queued q.events ≡ none → (r : Event) → In r q.events → r.status ≢ queued
none_queued q e r i h =
    not-In-first-sort_by (asc λ x. x.created_at) r _ e
      (In-filter_of (λ x. is_queued x.status) r q.events i (ap is_queued h))

module _ (now : ℕ) (work : Item → Outcome) (q : EventQueue) where
  worker_turn-less : Ids q → efforts (worker_turn now work q) ≤ efforts q - 1
  worker_turn-less keyed = elim (Option-cases (next_queued q.events)) [
    | inl nothing ↦ omega (
      arith,
      ap efforts (worker_turn-waits now work q nothing),
      weigh-none_queued q.events (none_queued q nothing),
    )
    | inr (m, e) ↦ omega (arith, worker_turn-efforts now work q m keyed e)
  ]

  pub worker_turn-Ids : Ids q → Ids (worker_turn now work q)
  worker_turn-Ids keyed = elim (Option-cases (next_queued q.events)) [
    | inl nothing ↦ rw (worker_turn-waits now work q nothing) keyed
    | inr (m, e) ↦ subst (Keyed (λ r. r.id)) (sym (worker_turn-events now work q m e)) (
        update_where-Keyed (λ r. r.id) (λ r. r.id == m.id) (turned now work m)
          (turned-id now (m.attempts + 1) (work (item_of m))) q.events keyed)
  ]

  worker_turn-ids : map (λ r. r.id) (worker_turn now work q).events ≡ map (λ r. r.id) q.events
  worker_turn-ids = elim (Option-cases (next_queued q.events)) [
    | inl nothing ↦ ap (λ x. map (λ r. r.id) x.events) (worker_turn-waits now work q nothing)
    | inr (m, e) ↦
        ap (map (λ r. r.id)) (worker_turn-events now work q m e)
        ∙ map-update_where (λ r. r.id) (λ r. r.id == m.id) (turned now work m)
            (turned-id now (m.attempts + 1) (work (item_of m))) q.events
  ]

  pub worker_turn-Idle : Idle q → Idle (worker_turn now work q)
  worker_turn-Idle idle = elim (Option-cases (next_queued q.events)) [
    | inl nothing ↦ rw (worker_turn-waits now work q nothing) idle
    | inr (m, e) ↦ λ r' i.
        let (r, j, same) =
          In-map (updated (λ r. r.id == m.id) (turned now work m)) r' q.events
            (rw (sym (worker_turn-events now work q m e)) i) in
        ap (λ x. is_processing x.status) same ∙ elim (Bool-cases (r.id == m.id)) [
          | inl hit ↦
              rw (hit, updated) (turned-not_processing now (m.attempts + 1) (work (item_of m)) r)
          | inr miss ↦ rw (miss, updated) (idle r j)
        ]
  ]

abbrev pub Settled : EventQueue → Type 0
Settled q = (r : Event) → In r q.events → (r.status ≡ done) ⊎ (r.status ≡ failed)

settled_of : (s : Status) → s ≢ queued → is_processing s ≡ false → (s ≡ done) ⊎ (s ≡ failed)
settled_of queued h k = absurd (h refl)
settled_of processing h k = cc
settled_of done h k = inl refl
settled_of failed h k = inr refl

worker_turns-settles :
    (turns : List (ℕ × (Item → Outcome))) (q : EventQueue)
    → Ids q
    → Idle q
    → efforts q ≤ length turns
    → (map (λ r. r.id) (worker_turns turns q).events ≡ map (λ r. r.id) q.events)
      × Settled (worker_turns turns q)
unfolding worker_turns
worker_turns-settles [] q keyed idle few = (
  refl,
  λ r i.
      settled_of r.status (λ h. omega (arith, weigh-In r q.events i, queued_effort r h)) (idle r i),
)
worker_turns-settles ((now, work) ∷ turns) q keyed idle few =
    let rest =
      worker_turns-settles turns (worker_turn now work q) (worker_turn-Ids now work q keyed)
        (worker_turn-Idle now work q idle) (omega (arith, worker_turn-less now work q keyed)) in
    (rest.0 ∙ worker_turn-ids now work q, rest.1)

-- For a worker alone with a table of distinct ids, none of whose rows is marked as processing: after
-- three turns for each queued row, whenever they come and whatever the work answers or raises, every
-- row is done or failed, and the table has the rows that it had.
pub worker_turns-Settled :
    (turns : List (ℕ × (Item → Outcome))) (q : EventQueue)
    → Ids q
    → Idle q
    → max_attempts * count (λ r. is_queued r.status) q.events ≤ length turns
    → (map (λ r. r.id) (worker_turns turns q).events ≡ map (λ r. r.id) q.events)
      × Settled (worker_turns turns q)
worker_turns-Settled turns q keyed idle enough =
    worker_turns-settles turns q keyed idle (omega (arith, efforts_bound q.events))
