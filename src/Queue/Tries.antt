-- ===== src/Queue/Tries.antt =====
-- src/memline/queue.py: how often a job is handed to a worker, over any history of calls.
use memline.Prelude.{
  ℕ, ◌+◌, ◌-◌, ◌*◌, ◌≤◌, String, ◌≡◌, refl, sym, ◌∙◌, inl, inr, Bool, true, ◌&&◌, Option, none,
  some, List, [], ◌∷◌, ◌==◌, leb, if◌then◌else◌, eq_iff, arith, Bool-cases, Option-cases,
  String-cases, find, eq_refl, subst,
}
use mathlib.Core.Option
use memline.Prelude.Table.{day}
use memline.Prelude.Order.{updated, has_key, find-update_where}
use memline.Prelude.Rows.{find_holds, find-delete_where, find-append_one, unless, or_else, when}
use memline.Dict.{Dict}
use memline.Queue.{
  Event, EventQueue, Item, queued, max_attempts, is_queued, is_processing, new_row, claim_row,
  complete_row, fail_row, requeue_row, retry_row, ack_row, retryable, ackable, purgeable,
  claim_next, purge, recover_stale, ack, refresh_alerts, next_queued, get,
}
use memline.Queue.Claiming.{get-complete, get-fail, get-retry}
use memline.Queue.Keeping.{row_found, Ids, step-Ids}
use memline.Queue.History.{
  Call, enqueues, claims, recovers, refreshes, completes, fails, purges, retries, acks, step,
  next_queued-In,
}

-- A worker that reports a failure passes on the attempts of the row that it claimed.
abbrev pub Reported : Call → EventQueue → Type 0
Reported (fails id error attempts) q = (r : Event) → get id q ≡ some r → r.attempts ≡ attempts
Reported c q = Unit {0}

abbrev pub AllReported : List (ℕ × Call) → EventQueue → Type 0
AllReported [] q = Unit
AllReported ((now, c) ∷ calls) q = Reported c q × AllReported calls (step now c q)

abbrev pub hands_item : String → Option Item → ℕ
hands_item id none = 0
hands_item id (some item) = if item.id == id then 1 else 0

-- Whether a call hands the job to a worker.
abbrev pub hands : ℕ → String → Call → EventQueue → ℕ
hands now id claims q = hands_item id (claim_next now q).1
hands now id c q = 0

-- How often a history hands it out.
unfoldable pub tries : String → List (ℕ × Call) → EventQueue → ℕ
tries id [] q = 0
tries id ((now, c) ∷ calls) q = hands now id c q + tries id calls (step now c q)

-- What a call allows: the attempts of a job that is enqueued or retried, and one more at a restart.
abbrev pub allows : String → Call → ℕ
allows id (enqueues j op args) = if j == id then max_attempts else 0
allows id (retries j) = if j == id then max_attempts else 0
allows id recovers = 1
allows id c = 0

abbrev pub allowed : String → List (ℕ × Call) → ℕ
allowed id [] = 0
allowed id ((now, c) ∷ calls) = allows id c + allowed id calls

-- The tries that a row has left: a queued one has at least one.
abbrev pub left : Event → ℕ
left r = if is_queued r.status && leb max_attempts r.attempts then 1 else max_attempts - r.attempts

abbrev pub left_of : Option Event → ℕ
left_of none = 0
left_of (some r) = left r

module _ (id : String) where
  -- An update by which no row gains more than `n` tries.
  updated-left :
      (n : ℕ) (cond : Event → Bool) (set : Event → Event) (o : Option Event)
      → ((r : Event) → o ≡ some r → cond r ≡ true → left (set r) ≤ n + left r)
      → left_of (Option.map (updated cond set) o) ≤ n + left_of o
  updated-left n cond set none h = omega arith
  updated-left n cond set (some r) h = elim (Bool-cases (cond r)) [
    | inl hit ↦ rw (hit, updated) (h r refl hit)
    | inr miss ↦ rw (miss, updated) (omega arith)
  ]

  -- What a row of the job that is read by its id says of the id.
  own : (q : EventQueue) (r : Event) → get id q ≡ some r → r.id ≡ id
  unfolding get
  own q r e = (eq_iff r.id id).0 (find_holds (λ x. x.id == id) r q.events e)

  -- The number of tries after a call, the calls that read the row apart.
  abbrev Tried : ℕ → Call → EventQueue → Type 0
  Tried now c q =
      hands now id c q + left_of (get id (step now c q)) ≤ allows id c + left_of (get id q)

  enqueues-Tried :
      (now : ℕ) (j op : String) (args : Dict) (q : EventQueue) → Tried now (enqueues j op args) q
  unfolding step get
  enqueues-Tried now j op args q = elim (Bool-cases (has_key (λ e. e.id) j q.events)) [
    | inl taken ↦ rw (taken, step) (omega arith)
    | inr fresh ↦
        let row = new_row now j op args in
        let e = find-append_one (λ x. x.id == id) row q.events in
        rw (fresh, step) (rw e (omega (arith, appended row (find (λ x. x.id == id) q.events))))
  ]
    where
      appended :
          (row : Event) (o : Option Event)
          → left_of (or_else o (when (λ x. x.id == id) (new_row now j op args)))
            ≤ (if j == id then max_attempts else 0) + left_of o
      appended row none = ground arith
      appended row (some r) = omega arith

  claimed-left : (now : ℕ) (m : Event) → m.status ≡ queued → 1 + left (claim_row now m) ≤ left m
  claimed-left now m waiting = ground arith

  claims-Tried : (now : ℕ) (q : EventQueue) → Ids q → Tried now claims q
  unfolding step get claim_next
  claims-Tried now q keyed = elim (Option-cases (next_queued q.events)) [
    | inl nothing ↦ rw (nothing, step) (omega arith)
    | inr (m, e) ↦
        let (present, waiting) = next_queued-In q.events m e in
        let after =
          find-update_where (λ r. r.id == m.id) (claim_row now) (λ r. r.id) (λ r. refl) id
            q.events in
        rw (e, step)
          (rw after (elim (String-cases m.id id) [
            | inl same ↦
                let mine : find (λ r. r.id == id) q.events ≡ some m =
                  subst (λ j. find (λ r. r.id == j) q.events ≡ some m) same
                    (row_found q.events m keyed present) in
                rw (mine, (eq_iff m.id id).1 same, (eq_iff m.id m.id).1 refl, updated)
                  (omega (arith, claimed-left now m waiting))
            | inr other ↦ rw other (
                omega (
                  arith,
                  updated-left 0 (λ r. r.id == m.id) (claim_row now)
                      (find (λ r. r.id == id) q.events)
                      (λ r f hit. cc (other, own q r f, (eq_iff r.id m.id).0 hit, eq_refl m.id)),
                ))
          ]))
  ]

  recovers-Tried : (now : ℕ) (q : EventQueue) → Tried now recovers q
  unfolding step get recover_stale
  recovers-Tried now q =
      rw
        (find-update_where (λ r. is_processing r.status) (requeue_row now) (λ r. r.id) (λ r. refl)
          id q.events)
        (omega (
          arith,
          updated-left 1 (λ r. is_processing r.status) (requeue_row now) (get id q)
              (λ r e hit. ground arith),
        ))

  completes-Tried :
      (now : ℕ) (j : String) (result : Dict) (q : EventQueue) → Tried now (completes j result) q
  unfolding step
  completes-Tried now j result q = rw (get-complete now q id j result) (
      omega (
        arith,
        updated-left 0 (λ r. r.id == j) (complete_row now result) (get id q)
            (λ r e hit. ground arith),
      ))

  fails-Tried :
      (now : ℕ) (j error : String) (attempts : ℕ) (q : EventQueue)
      → Reported (fails j error attempts) q
      → Tried now (fails j error attempts) q
  unfolding step
  fails-Tried now j error attempts q h = rw (get-fail now q id j error attempts) (
      omega (
        arith,
        updated-left 0 (λ r. r.id == j) (fail_row now error attempts) (get id q)
            (λ r e hit.
              let same : id ≡ j = sym (own q r e) ∙ (eq_iff r.id j).0 hit in
              let told : r.attempts ≡ attempts = h r (subst (λ k. get k q ≡ some r) same e) in
              ground arith),
      ))

  purges-Tried : (now days : ℕ) (q : EventQueue) → Ids q → Tried now (purges days) q
  unfolding step get purge
  purges-Tried now days q keyed =
      rw (find-delete_where (λ r. r.id) (purgeable (now - days * day)) id q.events keyed)
        (omega (arith, kept (find (λ r. r.id == id) q.events)))
    where
      kept : (o : Option Event) → left_of (unless (purgeable (now - days * day)) o) ≤ left_of o
      kept none = omega arith
      kept (some r) = elim (Bool-cases (purgeable (now - days * day) r)) [
        | inl old ↦ rw old (omega arith)
        | inr fresh ↦ rw fresh (omega arith)
      ]

  retries-Tried : (now : ℕ) (j : String) (q : EventQueue) → Tried now (retries j) q
  unfolding step
  retries-Tried now j q = rw (get-retry now q id j) (
      omega (
        arith,
        updated-left (allows id (retries j)) (retryable j) (retry_row now) (get id q) (λ r e hit.
            let mine = own q r e in
            let named : r.id ≡ j = (eq_iff r.id j).0 (ground arith) in
            let same : (j == id) ≡ true = (eq_iff j id).1 (sym named ∙ mine) in
            rw same (omega arith)),
      ))

  acks-Tried : (now : ℕ) (j : Option String) (q : EventQueue) → Tried now (acks j) q
  unfolding step get ack
  acks-Tried now j q =
      rw (find-update_where (ackable j) (ack_row now) (λ r. r.id) (λ r. refl) id q.events) (
        omega (arith, updated-left 0 (ackable j) (ack_row now) (get id q) (λ r e hit. omega arith)))

  refreshes-Tried : (now : ℕ) (q : EventQueue) → Tried now refreshes q
  unfolding step get refresh_alerts
  refreshes-Tried now q = omega arith

  step-Tried : (now : ℕ) (c : Call) (q : EventQueue) → Ids q → Reported c q → Tried now c q
  step-Tried now (enqueues j op args) q keyed h = enqueues-Tried now j op args q
  step-Tried now claims q keyed h = claims-Tried now q keyed
  step-Tried now recovers q keyed h = recovers-Tried now q
  step-Tried now refreshes q keyed h = refreshes-Tried now q
  step-Tried now (completes j result) q keyed h = completes-Tried now j result q
  step-Tried now (fails j error attempts) q keyed h = fails-Tried now j error attempts q h
  step-Tried now (purges days) q keyed h = purges-Tried now days q keyed
  step-Tried now (retries j) q keyed h = retries-Tried now j q
  step-Tried now (acks j) q keyed h = acks-Tried now j q

-- In a table without repeated ids, over any history of calls where a failure is reported with the
-- attempts of the row: a job is handed to a worker at most as often as it has tries left at the start,
-- and three times more for each time that it is enqueued or retried, and once more for each restart.
pub tries-le :
    (id : String) (calls : List (ℕ × Call)) (q : EventQueue)
    → Ids q
    → AllReported calls q
    → tries id calls q ≤ left_of (get id q) + allowed id calls
unfolding tries
tries-le id [] q keyed h = omega arith
tries-le id ((now, c) ∷ calls) q keyed (h, later) = omega (
  arith,
  step-Tried id now c q keyed h,
  tries-le id calls (step now c q) (step-Ids now c q keyed) later,
)
