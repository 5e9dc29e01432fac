-- ===== src/Pairs/Judging.antt =====
-- src/memline/staleness.py, `PairStore`: one judgment for each version, and which of them open.
use memline.Prelude.{
  ℕ, ◌≤◌, String, ◌≡◌, refl, inl, inr, Bool, true, false, [], ◌∷◌, ◌++◌, leb, ◌==◌, eq_refl, arith,
  if◌then◌else◌, any, Bool-cases, and_split, ◌↔◌, leb→le, le→leb, any_mono, any_or,
  any-append_right,
}
use memline.Pairs.{
  Kind, displacement, necessity, correctness, ttl_expiry, safety, Verdict, superseded, duplicate,
  durable, consistent, clean, PairStore, Judgment, collides, judged_row, is_version, opened, cached,
  record_judgment, has_judgment, same_kind, text_hash, or_zero, opens, opening_verdict, kind_floor,
}

-- When a verdict asks for a review, told verdict by verdict.
pub data AsksReview : Kind → Verdict → Type 0 where
  same_slot : AsksReview displacement superseded
  same_fact : AsksReview displacement duplicate
  not_durable : (v : Verdict) → (v ≡ durable → ⊥) → AsksReview necessity v
  not_consistent : (v : Verdict) → (v ≡ consistent → ⊥) → AsksReview correctness v
  deadline : (v : Verdict) → AsksReview ttl_expiry v
  not_clean : (v : Verdict) → (v ≡ clean → ⊥) → AsksReview safety v

same_kind_refl : (k : Kind) → same_kind k k ≡ true
same_kind_refl k = ground arith

module _ (sha256 : String → String) where
  module _ (now : ℕ) (pair_id : String) (j : Judgment) (rows : PairStore) where
    abbrev known : Bool
    known = has_judgment sha256 j.new_id j.old_id j.old_text j.kind rows

    abbrev FreshId : Type 0
    FreshId = any (λ p. p.pair_id == pair_id) rows ≡ false

    collides-known : known ≡ true → any (collides (judged_row sha256 now pair_id j)) rows ≡ true
    unfolding has_judgment
    collides-known h =
        any_mono (is_version j.kind j.new_id j.old_id (text_hash sha256 j.old_text))
          (collides (judged_row sha256 now pair_id j)) (λ p e. ground arith) rows h

    collides_new :
        FreshId → known ≡ false → any (collides (judged_row sha256 now pair_id j)) rows ≡ false
    unfolding has_judgment
    collides_new fresh h =
        any_or (λ p. p.pair_id == pair_id)
          (is_version j.kind j.new_id j.old_id (text_hash sha256 j.old_text)) rows fresh h

    -- With a fresh pair id, `record_judgment` adds its row at the end of the table if that version was
    -- not judged before for that kind, and otherwise changes nothing; it says which.
    pub record_judgment_once :
        FreshId
        → record_judgment sha256 now pair_id j rows ≡ (
            if known then (rows, judged_row sha256 now pair_id j, false) else (
              rows ++ judged_row sha256 now pair_id j ∷ [],
              judged_row sha256 now pair_id j,
              true,
            ))
    unfolding record_judgment
    record_judgment_once fresh = elim (Bool-cases known) [
      | inl old ↦ rw (old, collides-known old)
      | inr new ↦ rw (new, collides_new fresh new)
    ]

    own_version :
        is_version j.kind j.new_id j.old_id
          (text_hash sha256 j.old_text)
          (judged_row sha256 now pair_id j)
        ≡ true
    own_version = ground (
      arith,
      same_kind_refl j.kind,
      eq_refl j.new_id,
      eq_refl j.old_id,
      eq_refl (text_hash sha256 j.old_text),
    )

    known_after :
        has_judgment sha256 j.new_id j.old_id j.old_text j.kind
          (rows ++ judged_row sha256 now pair_id j ∷ [])
        ≡ true
    unfolding has_judgment
    known_after = any-append_right _ rows (judged_row sha256 now pair_id j) own_version

    -- After `record_judgment` with a pair id that the table does not have, the version counts as
    -- judged for its kind, whether it was judged before or the row was added.
    pub has_judgment-record_judgment :
        FreshId
        → has_judgment sha256 j.new_id j.old_id j.old_text j.kind
            (record_judgment sha256 now pair_id j rows).0
          ≡ true
    has_judgment-record_judgment fresh = elim (Bool-cases known) [
      | inl old ↦ rw (record_judgment_once fresh, old) old
      | inr new ↦ rw (record_judgment_once fresh, new) known_after
    ]

  asks : (k : Kind) (v : Verdict) → opening_verdict k v ≡ true → AsksReview k v
  asks displacement superseded h = same_slot
  asks displacement duplicate h = same_fact
  asks necessity v h = not_durable v (λ e. ground arith)
  asks correctness v h = not_consistent v (λ e. ground arith)
  asks ttl_expiry v h = deadline v
  asks safety v h = not_clean v (λ e. ground arith)
  asks displacement v h = absurd (ground arith)

  opening : (k : Kind) (v : Verdict) → AsksReview k v → opening_verdict k v ≡ true
  opening _ _ same_slot = refl
  opening _ _ same_fact = refl
  opening _ _ (not_durable v h) = ground arith
  opening _ _ (not_consistent v h) = ground arith
  opening _ _ (deadline v) = refl
  opening _ _ (not_clean v h) = ground arith

  opened_only : (b : Bool) → (if b then opened else cached) ≡ opened → b ≡ true
  opened_only b h = ground arith

  -- The row of a judgment is open exactly when its verdict asks for a review of its kind and its
  -- confidence (none counts as 0) reaches the floor: 0.6 for displacement and safety, 0.8 for necessity
  -- and correctness, none for an expiry.
  pub judged_row_opened :
      (now : ℕ) (pair_id : String) (j : Judgment)
      → ((judged_row sha256 now pair_id j).disposition ≡ opened)
        ↔ (AsksReview j.kind j.verdict × (kind_floor j.kind ≤ or_zero j.confidence))
  judged_row_opened now pair_id j = (
    (λ h.
        let both =
          and_split (opening_verdict j.kind j.verdict)
            (leb (kind_floor j.kind) (or_zero j.confidence)) (opened_only (opens j) h) in
        (asks j.kind j.verdict both.0, leb→le _ _ both.1)),
    (λ h. rw (opening j.kind j.verdict h.0, le→leb (kind_floor j.kind) (or_zero j.confidence) h.1)),
  )
