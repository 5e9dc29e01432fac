-- ===== src/Pairs/Finality.antt =====
-- src/memline/staleness.py, `PairStore`: rows are never deleted, the judged facts of a row never
-- change, and a dismissal or a lifecycle closure is final.
use memline.Prelude.{
  ℕ, String, ◌≡◌, refl, ap, ◌∙◌, inl, inr, Bool, true, false, ◌&&◌, Option, none, some, List, [],
  ◌∷◌, ◌==◌, arith, any, Bool-cases, In, In-append_left, and_split,
}
use memline.Prelude.Table.{update_where}
use memline.Prelude.Order.{updated, In-update_where}
use memline.Pairs.{
  Kind, Disposition, Pair, PairStore, collides, judged_row, is_opened, is_reopenable,
  is_open_for_old, is_open_for_new, is_outdated, is_disposal, close, stamp, opened, cached,
  dismissed, expired, obsoleted, of_kind,
}
use memline.Pairs.Calls.{
  Call, records, disposes, reopens, closes_old, closes_deleted, closes_updated, step, run,
}

-- Nothing leaves these: a verdict that never opened, a dismissal, and the closures of the lifecycle.
abbrev pub is_final : Disposition → Bool
is_final cached = true
is_final dismissed = true
is_final obsoleted = true
is_final expired = true
is_final _ = false

-- What was judged: the row without its disposition.
abbrev pub facts : Pair → Pair
facts p = record p { disposition = opened; disposed_by = none; disposed_at = none }

pub record Next (p p' : Pair) : Type 0 where
  pub facts : facts p' ≡ facts p
  pub final : is_final p.disposition ≡ true → p' ≡ p

Next-refl : (p : Pair) → Next p p
Next-refl p = record { facts = refl; final = λ h. refl }

Next-trans : (p x y : Pair) → Next p x → Next x y → Next p y
Next-trans p x y h k = record {
  facts = k.facts ∙ h.facts;
  final = λ f.
      let same : x ≡ p = h.final f in
      k.final (ap (λ (r : Pair). is_final r.disposition) same ∙ f) ∙ same;
}

module _ (p : Pair) where
  abbrev Moved : PairStore → Type 0
  Moved rows = (p' : Pair) × In p' rows × Next p p'

  update_where-Moved :
      (cond : Pair → Bool) (set : Pair → Pair) (rows : PairStore)
      → (cond p ≡ true → is_final p.disposition ≡ false)
      → facts (set p) ≡ facts p
      → In p rows
      → Moved (update_where cond set rows)
  update_where-Moved cond set rows live same i = (
    updated cond set p,
    In-update_where cond set p rows i,
    elim (Bool-cases (cond p)) [
      | inl hit ↦
          rw (hit, updated) (record { facts = same; final = λ f. absurd (clash (live hit) f) })
      | inr miss ↦ rw (miss, updated) (Next-refl p)
    ],
  )
    where
      clash : is_final p.disposition ≡ false → is_final p.disposition ≡ true → ⊥
      clash a b = cc

  open_live : (d : Disposition) → is_opened d ≡ true → is_final d ≡ false
  open_live d h = ground arith

  reopenable_live : (d : Disposition) → is_reopenable d ≡ true → is_final d ≡ false
  reopenable_live d h = ground arith

  old_live :
      (old_id : String) (kind : Option Kind)
      → is_open_for_old old_id kind p ≡ true
      → is_final p.disposition ≡ false
  old_live old_id kind h =
      open_live p.disposition
        (and_split (p.old_id == old_id) _ (and_split _ (of_kind kind p) h).0).1

  second_of : (a b : Bool) → (a && b) ≡ true → b ≡ true
  second_of a b h = ground arith

  outdated_live :
      (sha256 : String → String) (memory_id text : String)
      → is_outdated sha256 memory_id text p ≡ true
      → is_final p.disposition ≡ false
  outdated_live sha256 memory_id text h =
      open_live p.disposition (second_of (p.old_id == memory_id) _ (and_split _ _ h).0)

  deleted-Moved :
      (now : ℕ) (memory_id : String) (x : Pair) (rows : PairStore)
      → In x rows
      → Next p x
      → Moved (update_where (is_open_for_new memory_id) (stamp now expired) rows)
  deleted-Moved now memory_id x rows i h = (
    updated (is_open_for_new memory_id) (stamp now expired) x,
    In-update_where (is_open_for_new memory_id) (stamp now expired) x rows i,
    Next-trans p x _ h (elim (Bool-cases (is_open_for_new memory_id x)) [
      | inl hit ↦
          rw (hit, updated)
            (record {
              facts = refl;
              final = λ f. absurd (clash (open_live x.disposition (second_of _ _ hit)) f);
            })
      | inr miss ↦ rw (miss, updated) (Next-refl x)
    ]),
  )
    where
      clash : is_final x.disposition ≡ false → is_final x.disposition ≡ true → ⊥
      clash a b = cc

module _ (sha256 : String → String) where
  -- Every call that changes the table keeps each row, with the facts that were judged, and leaves a
  -- row whose disposition is cached, dismissed, obsoleted or expired exactly as it was.
  pub step-Next :
      (now : ℕ) (c : Call) (rows : PairStore) (p : Pair)
      → In p rows
      → (p' : Pair) × In p' (step sha256 now c rows) × Next p p'
  unfolding step
  step-Next now (records pair_id j) rows p i =
      let row = judged_row sha256 now pair_id j in
      elim (Bool-cases (any (collides row) rows)) [
        | inl known ↦ rw (known, step) (p, i, Next-refl p)
        | inr new ↦ rw (new, step) (p, In-append_left p rows _ i, Next-refl p)
      ]
  step-Next now (disposes pair_id disposition by) rows p i =
      elim (Bool-cases (is_disposal disposition)) [
        | inl valid ↦
            rw (valid, step)
              (update_where-Moved p (λ x. x.pair_id == pair_id && is_opened x.disposition)
                (close now disposition by) rows (λ h. open_live p p.disposition (second_of p _ _ h))
                refl i)
        | inr bad ↦ rw (bad, step) (p, i, Next-refl p)
      ]
  step-Next now (reopens pair_id) rows p i =
      update_where-Moved p (λ x. x.pair_id == pair_id && is_reopenable x.disposition)
        (λ x. record x { disposition = opened; disposed_by = none; disposed_at = none }) rows
        (λ h. reopenable_live p p.disposition (second_of p _ _ h)) refl i
  step-Next now (closes_old old_id disposition by kind) rows p i =
      update_where-Moved p (is_open_for_old old_id kind) (close now disposition by) rows
        (old_live p old_id kind) refl i
  step-Next now (closes_deleted memory_id) rows p i =
      let (x, j, h) =
        update_where-Moved p (is_open_for_old memory_id none) (stamp now obsoleted) rows
          (old_live p memory_id none) refl i in
      deleted-Moved p now memory_id x _ j h
  step-Next now (closes_updated memory_id text) rows p i =
      update_where-Moved p (is_outdated sha256 memory_id text)
        (λ x. record x { disposition = expired; disposed_at = some now }) rows
        (outdated_live p sha256 memory_id text) refl i

  -- Over any history of calls: no row is lost, what was judged stays, and a row that was dismissed (or
  -- cached, obsoleted or expired) is there unchanged at the end, so a dismissal is permanent.
  pub run-Next :
      (calls : List (ℕ × Call)) (rows : PairStore) (p : Pair)
      → In p rows
      → (p' : Pair) × In p' (run sha256 calls rows) × Next p p'
  unfolding run
  run-Next [] rows p i = (p, i, Next-refl p)
  run-Next ((now, c) ∷ calls) rows p i =
      let (x, j, h) = step-Next now c rows p i in
      let (y, k, g) = run-Next calls (step sha256 now c rows) x j in (y, k, Next-trans p x y h g)
