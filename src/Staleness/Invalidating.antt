-- ===== src/Staleness/Invalidating.antt =====
-- src/memline/staleness.py, `invalidate`.
use memline.Prelude.{
  ℕ, String, ◌≡◌, ◌≢◌, refl, sym, ap, ◌∙◌, false, Option, some, List, [], ◌∷◌, ◌==◌, arith, not,
  filter, elem, ◌↔◌, In-filter, filter-filter,
}
use mathlib.Core.Option.{some-injective}
use memline.Result.{ok, >>=-eq-ok, refuse_if-eq-ok}
use memline.Dict.{Dict, merge}
use memline.Memory.{MemoryClient}
use memline.Pairs.{obsoleted, open_for_old_ids}
use memline.Pairs.Closing.{close_for_old_all}
use memline.Supersession.{successors, is_invalidated, is_nil, assert_no_cycle}
use memline.Supersession.Graph.{Acyclic}
use memline.Supersession.NoCycle.{assert_no_cycle_sound}
use memline.Supersession.Acyclic.{Redirects, redirect-Acyclic}
use memline.Staleness.{
  World, Actor, dedup, distinct_ids, invalidation, invalidate, invalidated, require, all_exist,
  is_displacement_protected,
}
use memline.Staleness.Edges.{
  text_at, patched-Redirects, patched-text, lookup-patched_self, lookup-patched_ne,
}

module _ (c : MemoryClient) where
  open c use {Store, lookup}

  abbrev pub graph : World Store → String → List String
  graph w = successors (lookup w.store)

  -- What has to hold for an invalidation to pass, and the state that it leaves.
  pub record Accepted (now : ℕ) (memory_id : String) (given_ids : List String)
      (reason : Option String) (who : Actor) (w : World Store) (r : World Store × ℕ) : Type 0 where
    pub payload : Dict
    pub found : lookup w.store memory_id ≡ some payload
    pub some_id : is_nil (distinct_ids given_ids) ≡ false
    pub not_self : elem memory_id (distinct_ids given_ids) ≡ false
    pub active : is_invalidated payload ≡ false
    pub superseders : all_exist c (distinct_ids given_ids) w ≡ ok tt
    pub no_cycle : assert_no_cycle (graph w) memory_id (distinct_ids given_ids) ≡ ok tt
    pub state : r ≡ invalidated c now memory_id (distinct_ids given_ids) reason who payload w

  pub found_of :
      (memory_id : String) (w : World Store) (payload : Dict)
      → require c memory_id w ≡ ok payload
      → lookup w.store memory_id ≡ some payload
  unfolding require
  found_of memory_id w payload e = ground arith

  pub require_of :
      (memory_id : String) (w : World Store) (payload : Dict)
      → lookup w.store memory_id ≡ some payload
      → require c memory_id w ≡ ok payload
  unfolding require
  require_of memory_id w payload e = rw (e, require)

  pub invalidate-Accepted :
      (now : ℕ) (memory_id : String) (given_ids : List String) (reason : Option String)
      (who : Actor) (w : World Store) (r : World Store × ℕ)
      → invalidate c now memory_id given_ids reason who w ≡ ok r
      → Accepted now memory_id given_ids reason who w r
  unfolding invalidate
  invalidate-Accepted now memory_id given_ids reason who w r e =
      let (some_id, e1) = refuse_if-eq-ok _ _ _ e in
      let (not_self, e2) = refuse_if-eq-ok _ _ _ e1 in
      let (payload, found, e3) = >>=-eq-ok (require c memory_id w) _ e2 in
      let (active, e4) = refuse_if-eq-ok _ _ _ e3 in
      let (_, superseders, e5) = >>=-eq-ok (all_exist c (distinct_ids given_ids) w) _ e4 in
      let (_, no_cycle, e6) =
        >>=-eq-ok (assert_no_cycle (graph w) memory_id (distinct_ids given_ids)) _ e5 in
      record {
        payload = payload;
        found = found_of memory_id w payload found;
        some_id = some_id;
        not_self = not_self;
        active = active;
        superseders = superseders;
        no_cycle = no_cycle;
        state = cc;
      }

  -- `invalidate` succeeds exactly when these hold, and then leaves that state.
  pub invalidate_iff :
      (now : ℕ) (memory_id : String) (given_ids : List String) (reason : Option String)
      (who : Actor) (w : World Store) (r : World Store × ℕ)
      → (invalidate c now memory_id given_ids reason who w ≡ ok r)
        ↔ Accepted now memory_id given_ids reason who w r
  unfolding invalidate
  invalidate_iff now memory_id given_ids reason who w r = (
    invalidate-Accepted now memory_id given_ids reason who w r,
    (λ a.
        rw
          (
            a.some_id,
            a.not_self,
            require_of memory_id w a.payload a.found,
            a.active,
            a.superseders,
            a.no_cycle,
          )
          (ap ok (sym a.state))),
  )

  module _ (now : ℕ) (memory_id : String) (given_ids : List String) (reason : Option String)
      (who : Actor) (w : World Store) (r : World Store × ℕ)
      (done : invalidate c now memory_id given_ids reason who w ≡ ok r) where
    accepted : Accepted now memory_id given_ids reason who w r
    accepted = invalidate-Accepted now memory_id given_ids reason who w r done

    redirects :
        Redirects
          (graph w)
          (graph r.0)
          memory_id
          (filter (λ s. not (s == "")) (distinct_ids given_ids))
    redirects =
        rw accepted.state
          (patched-Redirects c w.store memory_id _ _ accepted.payload accepted.found refl)

    -- An invalidation that succeeds keeps the supersession graph free of cycles.
    pub invalidate-Acyclic : Acyclic (graph w) → Acyclic (graph r.0)
    invalidate-Acyclic = redirect-Acyclic (graph w) (graph r.0) memory_id _ redirects (λ b i.
        assert_no_cycle_sound (graph w) memory_id (distinct_ids given_ids) accepted.no_cycle b
          (In-filter (λ s. not (s == "")) b (distinct_ids given_ids) i).0)

    -- After an invalidation that succeeds, the memory records the given ids (distinct and not empty)
    -- as its successors, every other payload is as it was, every memory keeps its text, the memory is
    -- under no displacement protection at any time, and no open pair accuses it.
    pub invalidate_lem :
        (graph r.0 memory_id ≡ distinct_ids given_ids)
        × ((x : String) → x ≢ memory_id → lookup r.0.store x ≡ lookup w.store x)
        × ((x : String) → text_at (lookup r.0.store x) ≡ text_at (lookup w.store x))
        × ((payload : Dict) (t : ℕ)
            → lookup r.0.store memory_id ≡ some payload
            → is_displacement_protected payload t ≡ false)
        × (open_for_old_ids (memory_id ∷ []) r.0.pairs memory_id ≡ [])
    invalidate_lem = (
      redirects.edges ∙ filter-filter (λ s. not (s == "")) (dedup given_ids),
      (λ x other. rw accepted.state (lookup-patched_ne c w.store memory_id _ _ x other)),
      (λ x. rw accepted.state (patched-text c w.store memory_id _ _ refl x)),
      unprotected,
      rw accepted.state (close_for_old_all now memory_id obsoleted who.actor_id w.pairs refl).0,
    )
      where
        merged :
            lookup r.0.store memory_id
            ≡ some (merge (invalidation now (distinct_ids given_ids) reason who) accepted.payload)
        merged = rw accepted.state (lookup-patched_self c w.store memory_id _ _ accepted.found)

        unprotected :
            (payload : Dict) (t : ℕ)
            → lookup r.0.store memory_id ≡ some payload
            → is_displacement_protected payload t ≡ false
        unprotected payload t e =
            let same : payload
                ≡ merge (invalidation now (distinct_ids given_ids) reason who) accepted.payload =
              some-injective _ _ (sym e ∙ merged) in
            rw same refl
