-- ===== src/Queue/Durability.antt =====
-- src/memline/queue.py: over any history of calls, what becomes of a job that was accepted.
use memline.Prelude.{
  ℕ, ◌-◌, ◌*◌, ◌<◌, String, ◌≡◌, refl, ap, ◌∙◌, ◌⊎◌, inl, inr, true, false, some, List, [], ◌∷◌,
  ◌++◌, arith, In, here, In-append_right,
}
use memline.Prelude.Order.{has_key, Keyed-append_one}
use memline.Dict.{Dict}
use memline.Prelude.Table.{day}
use memline.Queue.{Event, EventQueue, new_row, is_settled, enqueue}
use memline.Queue.History.{
  Call, purges, step, run, Next, stays, completed, faulted, requeued, retried, acknowledged,
  claimed, Dropped,
}
use memline.Queue.Keeping.{Ids, step-Next, step-Ids}

-- The job of a row: what the worker that claims it runs.
pub record SameJob (r r' : Event) : Type 0 where
  pub id : r'.id ≡ r.id
  pub op : r'.op ≡ r.op
  pub args : r'.args ≡ r.args
  pub created_at : r'.created_at ≡ r.created_at

Next-SameJob : (now : ℕ) (r r' : Event) → Next now r r' → SameJob r r'
Next-SameJob now r r' (stays e) = ground arith
Next-SameJob now r r' (claimed h e) = ground arith
Next-SameJob now r r' (completed x e) = ground arith
Next-SameJob now r r' (faulted x n e) = ground arith
Next-SameJob now r r' (requeued h e) = ground arith
Next-SameJob now r r' (retried h e) = ground arith
Next-SameJob now r r' (acknowledged h e) = ground arith

SameJob-trans : (a b c : Event) → SameJob a b → SameJob b c → SameJob a c
SameJob-trans a b c h k = record {
  id = k.id ∙ h.id;
  op = k.op ∙ h.op;
  args = k.args ∙ h.args;
  created_at = k.created_at ∙ h.created_at;
}

-- A purge of the history that found the job settled and old.
pub record Purged (calls : List (ℕ × Call)) (q : EventQueue) (r : Event) : Type 0 where
  pub before : List (ℕ × Call)
  pub after : List (ℕ × Call)
  pub now : ℕ
  pub days : ℕ
  pub split : calls ≡ before ++ (now, purges days) ∷ after
  pub row : Event
  pub present : In row (run before q).events
  pub same_job : SameJob r row
  pub settled : is_settled row ≡ true
  pub old : row.updated_at < now - days * day

Purged-later :
    (now : ℕ) (c : Call) (calls : List (ℕ × Call)) (q : EventQueue) (r r' : Event)
    → SameJob r r'
    → Purged calls (step now c q) r'
    → Purged ((now, c) ∷ calls) q r
unfolding run
Purged-later now c calls q r r' same p = record {
  before = (now, c) ∷ p.before;
  after = p.after;
  now = p.now;
  days = p.days;
  split = ap (◌∷◌ (now, c)) p.split;
  row = p.row;
  present = p.present;
  same_job = SameJob-trans r r' p.row same p.same_job;
  settled = p.settled;
  old = p.old;
}

abbrev pub Kept : List (ℕ × Call) → EventQueue → Event → Type 0
Kept calls q r = Purged calls q r ⊎ ((r' : Event) × In r' (run calls q).events × SameJob r r')

Kept-later :
    (now : ℕ) (c : Call) (calls : List (ℕ × Call)) (q : EventQueue) (r r' : Event)
    → SameJob r r'
    → Kept calls (step now c q) r'
    → Kept ((now, c) ∷ calls) q r
unfolding run
Kept-later now c calls q r r' same (inl p) = inl (Purged-later now c calls q r r' same p)
Kept-later now c calls q r r' same (inr (x, i, s)) = inr (x, i, SameJob-trans r r' x same s)

Dropped-Purged :
    (now : ℕ) (c : Call) (calls : List (ℕ × Call)) (q : EventQueue) (r : Event)
    → In r q.events
    → Dropped now c r
    → Purged ((now, c) ∷ calls) q r
unfolding run
Dropped-Purged now (purges days) calls q r i h = record {
  before = [];
  after = calls;
  now = now;
  days = days;
  split = refl;
  row = r;
  present = i;
  same_job = record { id = refl; op = refl; args = refl; created_at = refl };
  settled = h.0;
  old = h.1;
}
Dropped-Purged now _ calls q r i h = absurd h

-- A row that the table holds, followed through a history of calls.
run-Kept :
    (calls : List (ℕ × Call)) (q : EventQueue) (r : Event) → Ids q → In r q.events → Kept calls q r
unfolding run
run-Kept [] q r keyed i =
    inr (r, i, record { id = refl; op = refl; args = refl; created_at = refl })
run-Kept ((now, c) ∷ calls) q r keyed i = elim (step-Next now r q c keyed i) [
  | inl dropped ↦ inl (Dropped-Purged now c calls q r i dropped)
  | inr (r', j, move) ↦
      Kept-later now c calls q r r' (Next-SameJob now r r' move)
        (run-Kept calls (step now c q) r' (step-Ids now c q keyed) j)
]

-- Once `enqueue` has accepted a job, whatever calls follow, the table still holds a row with its id,
-- operation, arguments and creation time, or one of the calls was a purge that found the job's row
-- settled (done, or failed and acknowledged) and last changed before the purge's cutoff.
pub enqueue-Kept :
    (now : ℕ) (id op : String) (args : Dict) (q q' : EventQueue) (calls : List (ℕ × Call))
    → Ids q
    → enqueue now id op args q ≡ some q'
    → Kept calls q' (new_row now id op args)
unfolding enqueue
enqueue-Kept now id op args q q' calls keyed e =
    let fresh : has_key (λ r. r.id) id q.events ≡ false = ground arith in
    let same : q' ≡ record q { events = q.events ++ new_row now id op args ∷ [] } = ground arith in
    rw same (
      run-Kept calls _ (new_row now id op args)
        (Keyed-append_one (λ r. r.id) (new_row now id op args) q.events keyed fresh)
        (In-append_right _ q.events _ (here refl)))
