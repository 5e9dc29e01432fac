-- ===== src/Pairs/Distinct.antt =====
-- src/memline/staleness.py, `PairStore`: no two rows have one pair id, or judge one version of an old
-- text for one kind and one new entry.
use memline.Prelude.{
  ℕ, String, ◌≡◌, refl, inl, inr, Bool, false, ◌&&◌, none, some, [], ◌∷◌, ◌++◌, ◌==◌, arith, any,
  Bool-cases, eq_symm_false, or_split, or_join,
}
use memline.Prelude.Table.{update_where}
use memline.Pairs.{
  Kind, Pair, PairStore, same_kind, collides, is_version, judged_row, is_opened, is_reopenable,
  is_open_for_old, is_open_for_new, is_outdated, is_disposal, close, stamp, opened, expired,
  obsoleted,
}
use memline.Pairs.Calls.{
  Call, records, disposes, reopens, closes_old, closes_deleted, closes_updated, step,
}

abbrev pub Distinct : PairStore → Type 0
Distinct [] = Unit
Distinct (p ∷ ps) = (any (collides p) ps ≡ false) × Distinct ps

same_kind_symm : (a b : Kind) → same_kind a b ≡ same_kind b a
same_kind_symm a b = ground arith

is_version_symm :
    (p x : Pair)
    → is_version p.kind p.new_id p.old_id p.old_text_hash x ≡ false
    → is_version x.kind x.new_id x.old_id x.old_text_hash p ≡ false
is_version_symm p x h = ground (
  arith,
  same_kind_symm p.kind x.kind,
  eq_symm_false x.new_id p.new_id,
  eq_symm_false x.old_id p.old_id,
  eq_symm_false x.old_text_hash p.old_text_hash,
)

collides_symm : (p x : Pair) → collides p x ≡ false → collides x p ≡ false
collides_symm p x h =
    let parts = or_split _ _ h in
    or_join (p.pair_id == x.pair_id) (is_version x.kind x.new_id x.old_id x.old_text_hash p)
      (eq_symm_false x.pair_id p.pair_id parts.0) (is_version_symm p x parts.1)

any-append_one :
    (test : Pair → Bool) (rows : PairStore) (p : Pair)
    → any test rows ≡ false
    → test p ≡ false
    → any test (rows ++ p ∷ []) ≡ false
any-append_one test [] p h k = ground arith
any-append_one test (x ∷ rows) p h k =
    let parts = or_split (test x) (any test rows) h in
    or_join (test x) (any test (rows ++ p ∷ [])) parts.0 (any-append_one test rows p parts.1 k)

append-Distinct :
    (rows : PairStore) (p : Pair)
    → Distinct rows
    → any (collides p) rows ≡ false
    → Distinct (rows ++ p ∷ [])
append-Distinct [] p d h = (refl, tt)
append-Distinct (x ∷ rows) p d h =
    let parts = or_split (collides p x) (any (collides p) rows) h in
    (
      any-append_one (collides x) rows p d.0 (collides_symm p x parts.0),
      append-Distinct rows p d.1 parts.1,
    )

-- An update of the disposition alone leaves every collision as it was.
abbrev Closing : (Pair → Pair) → Type 0
Closing set =
    ((p x : Pair) → collides (set p) x ≡ collides p x)
    × ((p x : Pair) → collides p (set x) ≡ collides p x)

module _ (cond : Pair → Bool) (set : Pair → Pair) (keeps : Closing set) where
  collides-update_where :
      (p : Pair) (rows : PairStore)
      → any (collides p) (update_where cond set rows) ≡ any (collides p) rows
  collides-update_where p [] = refl
  collides-update_where p (x ∷ rows) = elim (Bool-cases (cond x)) [
    | inl hit ↦ rw (hit, collides-update_where p rows, keeps.1 p x)
    | inr miss ↦ rw (miss, collides-update_where p rows)
  ]

  collides_set : (p : Pair) (rows : PairStore) → any (collides (set p)) rows ≡ any (collides p) rows
  collides_set p [] = refl
  collides_set p (x ∷ rows) = rw (collides_set p rows, keeps.0 p x)

  update_where-Distinct : (rows : PairStore) → Distinct rows → Distinct (update_where cond set rows)
  update_where-Distinct [] d = tt
  update_where-Distinct (p ∷ rows) d = elim (Bool-cases (cond p)) [
    | inl hit ↦ rw hit (
      rw (collides-update_where (set p) rows, collides_set p rows) d.0,
      update_where-Distinct rows d.1,
    )
    | inr miss ↦ rw miss (rw (collides-update_where p rows) d.0, update_where-Distinct rows d.1)
  ]

module _ (sha256 : String → String) where
  -- Every call that changes the table keeps its rows distinct: no pair id twice, and no two judgments
  -- of one kind on one new entry and one version of an old text.
  pub step-Distinct :
      (now : ℕ) (c : Call) (rows : PairStore) → Distinct rows → Distinct (step sha256 now c rows)
  unfolding step
  step-Distinct now (records pair_id j) rows d =
      let row = judged_row sha256 now pair_id j in
      elim (Bool-cases (any (collides row) rows)) [
        | inl known ↦ rw (known, step) d
        | inr new ↦ rw (new, step) (append-Distinct rows row d new)
      ]
  step-Distinct now (disposes pair_id disposition by) rows d =
      elim (Bool-cases (is_disposal disposition)) [
        | inl valid ↦
            rw (valid, step)
              (update_where-Distinct (λ p. p.pair_id == pair_id && is_opened p.disposition)
                (close now disposition by) ((λ p x. refl), (λ p x. refl)) rows d)
        | inr bad ↦ rw (bad, step) d
      ]
  step-Distinct now (reopens pair_id) rows d =
      update_where-Distinct (λ p. p.pair_id == pair_id && is_reopenable p.disposition)
        (λ p. record p { disposition = opened; disposed_by = none; disposed_at = none })
        ((λ p x. refl), (λ p x. refl)) rows d
  step-Distinct now (closes_old old_id disposition by kind) rows d =
      update_where-Distinct (is_open_for_old old_id kind) (close now disposition by)
        ((λ p x. refl), (λ p x. refl)) rows d
  step-Distinct now (closes_deleted memory_id) rows d =
      update_where-Distinct (is_open_for_new memory_id) (stamp now expired)
        ((λ p x. refl), (λ p x. refl)) _
        (update_where-Distinct (is_open_for_old memory_id none) (stamp now obsoleted)
          ((λ p x. refl), (λ p x. refl)) rows d)
  step-Distinct now (closes_updated memory_id text) rows d =
      update_where-Distinct (is_outdated sha256 memory_id text)
        (λ p. record p { disposition = expired; disposed_at = some now })
        ((λ p x. refl), (λ p x. refl)) rows d
