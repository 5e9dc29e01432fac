-- ===== src/Review/Authority.antt =====
-- src/memline/review.py: whose suspicions a review looks at.
use memline.Prelude.{
  ℕ, String, ◌≡◌, ◌≢◌, refl, Bool, true, ◌&&◌, ◌||◌, none, some, List, [], ◌∷◌, arith, eq_iff,
  filter, Bool-cases, inl, inr,
}
use memline.Queue.{EventQueue}
use memline.Pairs.{
  Pair, PairStore, ttl_expiry, same_kind, is_text, is_opened, of_session, of_kind, given,
  open_pairs,
}
use memline.Review.{session_review}

-- What a session has authority over: the pairs that its own writes raised, and every expiry.
abbrev pub concerns : String → Pair → Bool
concerns session p = is_text session p.new_session_id || same_kind p.kind ttl_expiry

-- A stricter test sees no difference in a list filtered before.
filter-weaker :
    {A : Type 0} (strict weak : A → Bool)
    → ((a : A) → strict a ≡ true → weak a ≡ true)
    → (xs : List A) → filter strict (filter weak xs) ≡ filter strict xs
filter-weaker strict weak implies [] = refl
filter-weaker strict weak implies (x ∷ xs) =
    let ih = filter-weaker strict weak implies xs in
    elim (Bool-cases (strict x)) [
      | inl hit ↦ rw (implies x hit, hit, ih) refl
      | inr miss ↦ elim (Bool-cases (weak x)) [
        | inl kept ↦ rw (kept, miss, ih) refl
        | inr gone ↦ rw (gone, miss, ih) refl
      ]
    ]

module _ (session : String) (named : session ≢ "") (rows : PairStore) where
  given_session : given (some session) ≡ some session
  given_session = ground (arith, eq_iff session "")

  own :
      (p : Pair)
      → (is_opened p.disposition && of_session (some session) p && of_kind none p) ≡ true
      → concerns session p ≡ true
  own p h = ground arith

  own_same :
      open_pairs (some session) none 500 (filter (concerns session) rows)
      ≡ open_pairs (some session) none 500 rows
  unfolding open_pairs
  own_same =
      rw
        (filter-weaker
          (λ p. is_opened p.disposition && of_session (given (some session)) p && of_kind none p)
          (concerns session) (λ p h. own p (rw given_session at h)) rows)
        refl

  ttl_same :
      open_pairs none (some ttl_expiry) 500 (filter (concerns session) rows)
      ≡ open_pairs none (some ttl_expiry) 500 rows
  unfolding open_pairs
  ttl_same =
      rw
        (filter-weaker
          (λ p. is_opened p.disposition && of_session (given none) p && of_kind (some ttl_expiry) p)
          (concerns session) (λ p h. ground arith) rows)
        refl

  -- The review of a session (its name not empty) is the same whether the table also holds the pairs
  -- that other sessions' writes raised, or only the session's own pairs and the expiry flags.
  pub session_review_own :
      (deadline : ℕ) (q : EventQueue) (observed : List (ℕ × EventQueue)) (q' : EventQueue)
      → session_review session deadline q observed q' (filter (concerns session) rows)
        ≡ session_review session deadline q observed q' rows
  unfolding session_review
  session_review_own deadline q observed q' = rw (own_same, ttl_same) refl
