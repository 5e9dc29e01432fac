-- ===== src/Staleness/Reviving.antt =====
-- src/memline/staleness.py, `revive`, and that it undoes `invalidate`.
use memline.Prelude.{
  ℕ, String, ◌≡◌, ◌≢◌, refl, sym, ap, ◌∙◌, true, false, Option, some, List, [], ◌∷◌, eq_iff,
  String-cases, inl, inr, not, false_of, ◌↔◌, not_false→true,
}
use memline.Result.{ok, >>=-eq-ok, refuse_if-eq-ok}
use memline.Dict.{Dict, merge}
use memline.Memory.{MemoryClient}
use memline.Supersession.{superseded_ids, is_invalidated, is_nil}
use memline.Supersession.Graph.{Acyclic}
use memline.Supersession.Acyclic.{Redirects, redirect-Acyclic}
use memline.Staleness.{
  World, Actor, distinct_ids, invalidate, invalidation, require, log, revival, revive,
}
use memline.Staleness.Edges.{
  text_at, patched-Redirects, patched-text, lookup-patched_self, lookup-patched_ne,
}
use memline.Staleness.Invalidating.{
  graph, invalidate-Accepted, invalidate_lem, found_of, require_of, Accepted,
}

module _ (c : MemoryClient) where
  open c use {Store, lookup}

  -- What has to hold for a revival to pass, and the state that it leaves.
  pub record Revived (now : ℕ) (memory_id : String) (who : Actor) (w : World Store)
      (r : World Store × List String) : Type 0 where
    pub payload : Dict
    pub found : lookup w.store memory_id ≡ some payload
    pub inactive : is_invalidated payload ≡ true
    pub state : r ≡ (
      record w {
        store =
            log c now memory_id payload "REVIVE" who.actor_id
              (c.update w.store memory_id (revival now who));
      },
      superseded_ids payload,
    )

  -- `revive` succeeds exactly when the memory exists and is superseded.
  pub revive_iff :
      (now : ℕ) (memory_id : String) (who : Actor) (w : World Store) (r : World Store × List String)
      → (revive c now memory_id who w ≡ ok r) ↔ Revived now memory_id who w r
  unfolding revive
  revive_iff now memory_id who w r = (
    (λ e.
        let (payload, found, e1) = >>=-eq-ok (require c memory_id w) _ e in
        let (inactive, e2) = refuse_if-eq-ok _ _ _ e1 in
        record {
          payload = payload;
          found = found_of c memory_id w payload found;
          inactive = not_false→true _ inactive;
          state = cc;
        }),
    (λ a. rw (require_of c memory_id w a.payload a.found, a.inactive) (ap ok (sym a.state))),
  )

  module _ (now : ℕ) (memory_id : String) (who : Actor) (w : World Store)
      (r : World Store × List String) (done : revive c now memory_id who w ≡ ok r) where
    revived : Revived now memory_id who w r
    revived = (revive_iff now memory_id who w r).0 done

    redirects : Redirects (graph c w) (graph c r.0) memory_id []
    redirects =
        rw revived.state
          (patched-Redirects c w.store memory_id _ _ revived.payload revived.found refl)

    -- A revival that succeeds keeps the supersession graph free of cycles.
    pub revive-Acyclic : Acyclic (graph c w) → Acyclic (graph c r.0)
    revive-Acyclic =
        redirect-Acyclic (graph c w) (graph c r.0) memory_id [] redirects (λ b i. elim i [ ])

    -- A revival answers the successors that it cleared; the memory has none afterwards, every other
    -- payload is as it was, and every memory keeps its text.
    pub revive_lem :
        (r.1 ≡ graph c w memory_id)
        × (graph c r.0 memory_id ≡ [])
        × ((x : String) → x ≢ memory_id → lookup r.0.store x ≡ lookup w.store x)
        × ((x : String) → text_at (lookup r.0.store x) ≡ text_at (lookup w.store x))
    revive_lem = (
      rw (revived.state, revived.found),
      redirects.edges,
      (λ x other. rw revived.state (lookup-patched_ne c w.store memory_id _ _ x other)),
      (λ x. rw revived.state (patched-text c w.store memory_id _ _ refl x)),
    )

  nil_of : (xs : List String) → not (is_nil xs) ≡ false → xs ≡ []
  nil_of [] h = refl
  nil_of (x ∷ xs) h = cc

  graph_of :
      (w : World Store) (id : String) {p : Dict}
      → lookup w.store id ≡ some p
      → graph c w id ≡ superseded_ids p
  graph_of w id e = rw e

  merged_payload :
      (now : ℕ) (memory_id : String) (given_ids : List String) (reason : Option String)
      (who : Actor) (w : World Store) (r : World Store × ℕ)
      → Accepted c now memory_id given_ids reason who w r
      → (p : Dict) × (lookup r.0.store memory_id ≡ some p)
  merged_payload now memory_id given_ids reason who w r a = (
    merge (invalidation now (distinct_ids given_ids) reason who) a.payload,
    rw a.state (lookup-patched_self c w.store memory_id _ _ a.found),
  )

  module _ (now : ℕ) (memory_id : String) (given_ids : List String) (reason : Option String)
      (who : Actor) (w : World Store) (r : World Store × ℕ)
      (done : invalidate c now memory_id given_ids reason who w ≡ ok r) (later : ℕ)
      (who' : Actor) where
    undone :
        (p : Dict)
        → lookup r.0.store memory_id ≡ some p
        → superseded_ids p ≡ distinct_ids given_ids
        → is_nil (distinct_ids given_ids) ≡ false
        → (r' : World Store × List String) × (revive c later memory_id who' r.0 ≡ ok r')
    undone p found ids some_id = (
      _,
      (revive_iff later memory_id who' r.0 _).1
          (record { payload = p; found = found; inactive = rw (ids, some_id); state = refl }),
    )

    restored :
        (r' : World Store × List String)
        → revive c later memory_id who' r.0 ≡ ok r'
        → (x : String) → graph c r'.0 x ≡ graph c w x
    restored r' e x =
        let a = invalidate-Accepted c now memory_id given_ids reason who w r done in
        let inv = invalidate_lem c now memory_id given_ids reason who w r done in
        let rev = revive_lem later memory_id who' r.0 r' e in
        elim (String-cases x memory_id) [
          | inl same ↦ rw same (rev.1 ∙ sym (graph_of w memory_id a.found ∙ nil_of _ a.active))
          | inr other ↦
              let ne : x ≢ memory_id = (λ e. false_of _ ((eq_iff x memory_id).1 e) other) in
              rw (rev.2 x ne, inv.1 x ne)
        ]

    -- An invalidation can be undone: a revival of the memory then succeeds, it answers the ids that the
    -- invalidation recorded, and every memory has the successors and the text that it had before.
    pub revive-invalidate :
        (r' : World Store × List String) × (revive c later memory_id who' r.0 ≡ ok r')
        × (r'.1 ≡ distinct_ids given_ids)
        × ((x : String) → graph c r'.0 x ≡ graph c w x)
        × ((x : String) → text_at (lookup r'.0.store x) ≡ text_at (lookup w.store x))
    revive-invalidate =
        let a = invalidate-Accepted c now memory_id given_ids reason who w r done in
        let inv = invalidate_lem c now memory_id given_ids reason who w r done in
        let (p, found) = merged_payload now memory_id given_ids reason who w r a in
        let (r', e) = undone p found (sym (graph_of r.0 memory_id found) ∙ inv.0) a.some_id in
        let rev = revive_lem later memory_id who' r.0 r' e in
        (r', e, rev.0 ∙ inv.0, restored r' e, (λ x. rev.3 x ∙ inv.2 x))
