-- ===== src/Staleness/Deleting/Guarding.antt =====
-- src/memline/staleness.py, `delete_guard`, and src/memline/ops.py, `_delete`: which memories are kept.
use memline.Prelude.{
  ℕ, String, ◌≡◌, ◌≢◌, refl, sym, ap, ◌∙◌, Bool, true, false, Option, none, some, In, eq_refl,
  Bool-cases, String-cases, inl, inr, ◌⊎◌, ◌==◌,
}
use memline.Result.{ok, raise, not_deleted}
use memline.Dict.{Dict}
use memline.Memory.{MemoryClient}
use memline.Supersession.{is_invalidated}
use memline.Staleness.{World}
use memline.Staleness.Edges.{text_at}
use memline.Staleness.Invalidating.{graph}
use memline.Staleness.Ttl.{TtlResult}
use memline.Staleness.Ttl.Deadline.{set_ttl-ok, set_ttl_lem}
use memline.Staleness.Deleting.{
  deleted, downgraded, delete_guard, delete_memory, guard_of, superseded_by_it, at_once,
}

-- Whether a payload that may be missing has successors.
abbrev pub is_superseded : Option Dict → Bool
is_superseded none = false
is_superseded (some payload) = is_invalidated payload

module _ (c : MemoryClient) where
  open c use {Store, lookup, delete-missing, delete-present, get_all-unscoped}

  -- The guard reports that a memory takes part in a supersession exactly when the memory is itself
  -- superseded: its scan for entries that the memory supersedes has no scope, which the client refuses,
  -- and a refused scan counts as no result.
  pub delete_guard_exact :
      (memory_id : String) (w : World Store)
      → (delete_guard c memory_id w).participates ≡ is_superseded (lookup w.store memory_id)
  unfolding delete_guard
  delete_guard_exact memory_id w = by_payload (lookup w.store memory_id)
    where
      by_payload : (o : Option Dict) → (guard_of c memory_id w o).participates ≡ is_superseded o
      by_payload none = refl
      by_payload (some payload) = elim (Bool-cases (is_invalidated payload)) [
        | inl superseded ↦ rw superseded refl
        | inr active ↦
            rw (active, get_all-unscoped w.store (superseded_by_it memory_id) 1 refl) refl
      ]

  payload_of : (o : Option Dict) → is_superseded o ≡ true → (payload : Dict) × (o ≡ some payload)
  payload_of none h = cc
  payload_of (some payload) h = (payload, refl)

  module _ (now : ℕ) (memory_id : String) (by : Option String) (w : World Store) where
    -- `_delete` of a superseded memory does not delete: it answers that the memory was downgraded to
    -- an expiry, with the reason of the guard, and no text and no supersession in the store changes.
    pub delete_memory_keeps :
        is_superseded (lookup w.store memory_id) ≡ true
        → (w' : World Store) × (t : TtlResult) × (delete_memory c now memory_id by w
            ≡ ok (w', downgraded (delete_guard c memory_id w).reason t))
          × ((x : String) → text_at (lookup w'.store x) ≡ text_at (lookup w.store x))
          × ((x : String) → graph c w' x ≡ graph c w x)
    unfolding delete_memory
    delete_memory_keeps superseded =
        let (payload, found) = payload_of (lookup w.store memory_id) superseded in
        let (r, done) = set_ttl-ok c now memory_id at_once by w payload found in
        let (_, _, _, edges, texts, _) = set_ttl_lem c now memory_id at_once by w r done in
        (r.0, r.1, rw (delete_guard_exact memory_id w, superseded, done) refl, texts, edges)

    -- `_delete` of a memory that exists and is not superseded answers that it was deleted and removes it,
    -- also when another memory names it as its successor; the other memory still names it then, so the
    -- pointer dangles.
    pub delete_memory_dangles :
        (old : String) (payload : Dict)
        → lookup w.store memory_id ≡ some payload
        → is_invalidated payload ≡ false
        → old ≢ memory_id
        → In memory_id (graph c w old)
        → (w' : World Store) × (delete_memory c now memory_id by w ≡ ok (w', deleted))
          × (lookup w'.store memory_id ≡ none)
          × In memory_id (graph c w' old)
    unfolding delete_memory
    delete_memory_dangles old payload found active other i =
        let (s, done, gone) = delete-present w.store memory_id payload found in
        let unguarded : (delete_guard c memory_id w).participates ≡ false =
          delete_guard_exact memory_id w ∙ ap is_superseded found ∙ active in
        (
          record w { store = s },
          rw (unguarded, done) refl,
          rw (gone, eq_refl) refl,
          rw (gone, different (String-cases memory_id old)) i,
        )
      where
        different : (memory_id ≡ old) ⊎ ((memory_id == old) ≡ false) → (memory_id == old) ≡ false
        different (inl same) = absurd (other (sym same))
        different (inr apart) = apart

    -- `_delete` of a missing memory raises what the client raises.
    pub delete_memory_missing :
        lookup w.store memory_id ≡ none → delete_memory c now memory_id by w ≡ raise not_deleted
    unfolding delete_memory
    delete_memory_missing gone =
        let unguarded : (delete_guard c memory_id w).participates ≡ false =
          delete_guard_exact memory_id w ∙ ap is_superseded gone in
        rw (unguarded, delete-missing w.store memory_id gone) refl
