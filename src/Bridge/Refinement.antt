-- ===== src/Bridge/Refinement.antt =====
-- src/memline/bridge.py: the table does to each request what its mailbox says.
use memline.Prelude.{
  ℕ, ◌-◌, ◌*◌, String, ◌≡◌, refl, sym, ap, ◌∙◌, inl, inr, Bool, true, false, not, some, List, [],
  ◌∷◌, ◌++◌, ◌==◌, arith, eq_iff, eq_refl, find, Bool-cases, Option-cases, String-cases,
  eq_symm_false, filter,
}
use memline.Prelude.Table.{update_where}
use memline.Prelude.Order.{
  has_key, updated, find-update_where, update_where-Keyed, filter-Keyed, Keyed-append_one,
}
use memline.Prelude.Rows.{
  unless, find-append_one, find_absent, find_present, find-delete_where, or_else-none, All-filter,
  All-append_one, All-update_where,
}
use memline.Dict.{Dict, get}
use memline.Bridge.{
  error, Request, BridgeQueue, hour, is_ok, new_row, waits, acknowledgeable, answered_row, failure,
  claimed_row, is_processing, restarted, purgeable, final_status,
}
use memline.Bridge.History.{
  Call, readies, beats, stops, enqueues, acknowledges, cancels, claims, completes, recovers, purges,
  step, run,
}
use memline.Bridge.Mailbox.{
  Phase, absent, submit, take_up, give_up, lose, settle, collect, forget, only, act, acts, phase_of,
  view, WellFormed, find-unmarked,
}

module _ (id : String) (q : BridgeQueue) (well : WellFormed q) where
  -- An UPDATE changes the mailbox as it changes the row of the request.
  update-view :
      (cond : Request → Bool) (set : Request → Request) (change : Phase → Phase)
      → ((r : Request) → (set r).id ≡ r.id)
      → change absent ≡ absent
      → ((r : Request)
          → r.id ≡ id
          → phase_of (some (updated cond set r)) ≡ change (phase_of (some r)))
      → view id (record q { requests = update_where cond set q.requests }) ≡ change (view id q)
  update-view cond set change keeps empty changes =
      ap phase_of (find-update_where cond set (λ r. r.id) keeps id q.requests)
      ∙ elim (Option-cases (find (λ r. r.id == id) q.requests)) [
        | inl e ↦ rw e (sym empty)
        | inr (r, e) ↦ rw e (changes r (find-unmarked id q.requests r well.unmarked e).0)
      ]

  -- A DELETE changes it as it keeps or drops the row.
  delete-view :
      (cond : Request → Bool) (change : Phase → Phase)
      → change absent ≡ absent
      → ((r : Request)
          → r.id ≡ id
          → r.acknowledged ≡ false
          → phase_of (unless cond (some r)) ≡ change (phase_of (some r)))
      → view id (record q { requests = filter (λ r. not (cond r)) q.requests }) ≡ change (view id q)
  delete-view cond change empty changes =
      ap phase_of (find-delete_where (λ r. r.id) cond id q.requests well.keyed)
      ∙ elim (Option-cases (find (λ r. r.id == id) q.requests)) [
        | inl e ↦ rw e (sym empty)
        | inr (r, e) ↦
            let found = find-unmarked id q.requests r well.unmarked e in
            rw e (changes r found.0 found.1)
      ]

  submit-present :
      (payload : Dict) (r : Request) (j : String)
      → only (j == j) (submit payload) (phase_of (some r)) ≡ phase_of (some r)
  submit-present payload r j = ground (arith, eq_iff j j)

  enqueue_taken-act :
      (now : ℕ) (j : String) (payload : Dict)
      → has_key (λ r. r.id) j q.requests ≡ true
      → view id q ≡ only (id == j) (submit payload) (view id q)
  enqueue_taken-act now j payload taken = elim (String-cases id j) [
    | inl same ↦
        let (r, e) = find_present (λ x. x.id) j q.requests taken in
        rw (same, e) (sym (submit-present payload r j))
    | inr other ↦ rw other refl
  ]

  enqueue_fresh-act :
      (now : ℕ) (j : String) (payload : Dict)
      → has_key (λ r. r.id) j q.requests ≡ false
      → phase_of (find (λ r. r.id == id) (q.requests ++ new_row now j payload ∷ []))
        ≡ only (id == j) (submit payload) (view id q)
  enqueue_fresh-act now j payload fresh =
      ap phase_of (find-append_one (λ r. r.id == id) (new_row now j payload) q.requests)
      ∙ elim (String-cases id j) [
        | inl same ↦ rw (same, find_absent (λ x. x.id) j q.requests fresh) (rw (eq_refl j) refl)
        | inr other ↦
            let away = eq_symm_false id j other in
            rw (other, away, or_else-none (find (λ r. r.id == id) q.requests)) refl
      ]

  claimed-phase :
      (now : ℕ) (j : String) (r : Request)
      → r.id ≡ id
      → phase_of (some (updated (waits j) (claimed_row now) r))
        ≡ only (id == j) take_up (phase_of (some r))
  claimed-phase now j r same = ground (arith, same)

  cancelled-phase :
      (now : ℕ) (j : String) (d : Dict) (r : Request)
      → r.id ≡ id
      → phase_of (some (updated (waits j) (answered_row now error d) r))
        ≡ only (id == j) (give_up now d) (phase_of (some r))
  cancelled-phase now j d r same = ground (arith, same)

  completed-phase :
      (now : ℕ) (j : String) (d : Dict) (r : Request)
      → r.id ≡ id
      → phase_of (some (updated (λ x. x.id == j) (answered_row now (final_status d) d) r))
        ≡ only (id == j) (settle now (is_ok (get "status" d)) d) (phase_of (some r))
  completed-phase now j d r same = ground (arith, same)

  recovered-phase :
      (now : ℕ) (d : Dict) (r : Request)
      → phase_of (some (updated (λ x. is_processing x.status) (answered_row now error d) r))
        ≡ lose now d (phase_of (some r))
  recovered-phase now d r = ground arith

  collected-phase :
      (j : String) (r : Request)
      → r.id ≡ id
      → phase_of (unless (acknowledgeable j) (some r)) ≡ only (id == j) collect (phase_of (some r))
  collected-phase j r same = ground (arith, same)

  forgotten-phase :
      (cutoff : ℕ) (r : Request)
      → r.acknowledged ≡ false
      → phase_of (unless (purgeable cutoff) (some r)) ≡ forget cutoff (phase_of (some r))
  forgotten-phase cutoff r unmarked = ground (arith, unmarked)

  only_absent :
      (b : Bool) (change : Phase → Phase) → change absent ≡ absent → only b change absent ≡ absent
  only_absent true change e = e
  only_absent false change e = refl

  -- Each call does to the mailbox of each request what the mailbox's own rules say, whatever other
  -- requests the table holds.
  view-step : (now : ℕ) (c : Call) → view id (step now c q) ≡ act id now c (view id q)
  unfolding step act
  view-step now (readies daemon_id daemon_pid) = refl
  view-step now (beats daemon_id) = refl
  view-step now (stops daemon_id) = refl
  view-step now (enqueues j payload) = elim (Bool-cases (has_key (λ r. r.id) j q.requests)) [
    | inl taken ↦ rw (taken, step) (enqueue_taken-act now j payload taken)
    | inr fresh ↦ rw (fresh, step) (enqueue_fresh-act now j payload fresh)
  ]
  view-step now (acknowledges j) =
      delete-view (acknowledgeable j) (only (id == j) collect) (only_absent _ collect refl)
        (λ r same unmarked. collected-phase j r same)
  view-step now (cancels j reason) =
      update-view (waits j) _ (only (id == j) (give_up now (failure reason))) (λ r. refl)
        (only_absent _ (give_up now (failure reason)) refl) (cancelled-phase now j (failure reason))
  view-step now (claims row) =
      update-view (waits row.id) _ (only (id == row.id) take_up) (λ r. refl)
        (only_absent _ take_up refl) (claimed-phase now row.id)
  view-step now (completes j d) =
      update-view (λ r. r.id == j) _ (only (id == j) (settle now (is_ok (get "status" d)) d))
        (λ r. refl) (only_absent _ (settle now (is_ok (get "status" d)) d) refl)
        (completed-phase now j d)
  view-step now recovers =
      update-view (λ r. is_processing r.status) _ (lose now restarted) (λ r. refl) refl
        (λ r same. recovered-phase now restarted r)
  view-step now (purges hours) =
      delete-view (purgeable (now - hours * hour)) (forget (now - hours * hour)) refl
        (λ r same unmarked. forgotten-phase (now - hours * hour) r unmarked)

module _ (q : BridgeQueue) (well : WellFormed q) where
  update-WellFormed :
      (cond : Request → Bool) (set : Request → Request)
      → ((r : Request) → (set r).id ≡ r.id)
      → ((r : Request) → (set r).acknowledged ≡ r.acknowledged)
      → WellFormed (record q { requests = update_where cond set q.requests })
  update-WellFormed cond set keeps marks = record {
    keyed = update_where-Keyed (λ r. r.id) cond set keeps q.requests well.keyed;
    unmarked =
        All-update_where (λ r. r.acknowledged ≡ false) cond set (λ r h. marks r ∙ h) q.requests
          well.unmarked;
  }

  delete-WellFormed :
      (cond : Request → Bool)
      → WellFormed (record q { requests = filter (λ r. not (cond r)) q.requests })
  delete-WellFormed cond = record {
    keyed = filter-Keyed (λ r. r.id) (λ r. not (cond r)) q.requests well.keyed;
    unmarked =
        All-filter (λ r. r.acknowledged ≡ false) (λ r. not (cond r)) q.requests well.unmarked;
  }

  enqueue_fresh-WellFormed :
      (now : ℕ) (j : String) (payload : Dict)
      → has_key (λ r. r.id) j q.requests ≡ false
      → WellFormed (record q { requests = q.requests ++ new_row now j payload ∷ [] })
  enqueue_fresh-WellFormed now j payload fresh = record {
    keyed =
        Keyed-append_one (λ (r : Request). r.id) (new_row now j payload) q.requests well.keyed
          fresh;
    unmarked =
        All-append_one (λ (r : Request). r.acknowledged ≡ false) (new_row now j payload) q.requests
          well.unmarked refl;
  }

  pub step-WellFormed : (now : ℕ) (c : Call) → WellFormed (step now c q)
  unfolding step
  step-WellFormed now (readies daemon_id daemon_pid) = record {
    keyed = well.keyed;
    unmarked = well.unmarked;
  }
  step-WellFormed now (beats daemon_id) = record { keyed = well.keyed; unmarked = well.unmarked }
  step-WellFormed now (stops daemon_id) = record { keyed = well.keyed; unmarked = well.unmarked }
  step-WellFormed now (enqueues j payload) = elim (Bool-cases (has_key (λ r. r.id) j q.requests)) [
    | inl taken ↦ rw (taken, step) well
    | inr fresh ↦ rw (fresh, step) (enqueue_fresh-WellFormed now j payload fresh)
  ]
  step-WellFormed now (acknowledges j) = delete-WellFormed (acknowledgeable j)
  step-WellFormed now (cancels j reason) = update-WellFormed (waits j) _ (λ r. refl) (λ r. refl)
  step-WellFormed now (claims row) = update-WellFormed (waits row.id) _ (λ r. refl) (λ r. refl)
  step-WellFormed now (completes j d) = update-WellFormed (λ r. r.id == j) _ (λ r. refl) (λ r. refl)
  step-WellFormed now recovers =
      update-WellFormed (λ r. is_processing r.status) _ (λ r. refl) (λ r. refl)
  step-WellFormed now (purges hours) = delete-WellFormed (purgeable (now - hours * hour))

-- The table refines one mailbox for each request: over any history of calls, from a table without
-- repeated ids and without marked rows, the mailbox of a request, as the table holds it, is what its
-- own rules make of the history (submit fills an empty one, a claim takes up a waiting request, a
-- cancellation answers a waiting one, a restart answers a running one, a completion answers any that
-- is not empty, an acknowledgement empties an answered one and so does a purge after its cutoff).
pub view-run :
    (id : String) (calls : List (ℕ × Call)) (q : BridgeQueue)
    → WellFormed q
    → view id (run calls q) ≡ acts id calls (view id q)
unfolding run acts
view-run id [] q well = refl
view-run id ((now, c) ∷ calls) q well =
    view-run id calls (step now c q) (step-WellFormed q well now c)
    ∙ ap (acts id calls) (view-step id q well now c)
