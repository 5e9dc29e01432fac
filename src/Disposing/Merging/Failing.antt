-- ===== src/Disposing/Merging/Failing.antt =====
-- src/memline/cli/stale.py, `stale_merge`: what a merge that raises leaves behind.
use memline.Prelude.{
  ℕ, String, ◌≡◌, ◌≢◌, refl, sym, ap, ◌∙◌, subst, ◌⊎◌, inl, inr, Bool, true, false, Option, some,
  [], ◌∷◌, arith, Bool-cases,
}
use memline.Prelude.Order.{update_where-Keyed}
use memline.Prelude.Rows.{All-update_where}
use memline.Result.{ok}
use memline.Dict.{Value, Dict}
use memline.Memory.{MemoryClient}
use memline.Pairs.{
  Pair, PairStore, expired, merged, is_opened, is_outdated, close_for_updated_text, get,
}
use memline.Staleness.{World, invalidate}
use memline.Staleness.Updating.{update_memory}
use memline.Staleness.Updating.Rewriting.{update_memory-Updated}
use memline.Disposing as Disposing
use memline.Disposing.{
  Session, loses_reply, Refusal, unreachable, Reply, Response, refuse, reply, by_of, actor_of,
  execute, authorized, require_disposition_authority, load_open_pair, dispose_with_rollback,
}
use memline.Disposing.Requests.{Lost, execute-raised, execute-replied, request-raised}
use memline.Disposing.Rollback.{
  Tidy, Unstamped, between, with_reopened, with_reopened-between, get-reopen, dispose-raised,
}
use memline.Disposing.Leaving.{confirms, invalidate-shown}
use memline.Disposing.Merging.{
  Existing, is_displacement, get_existing, merge_mutation, merge_updated, merge_existing,
  stale_merge,
}

-- The update of a text keeps the table tidy.
close_for_updated_text-Tidy :
    (sha256 : String → String) (now : ℕ) (memory_id new_text : String) (rows : PairStore)
    → Tidy rows
    → Tidy (close_for_updated_text sha256 now memory_id new_text rows).0
unfolding close_for_updated_text
close_for_updated_text-Tidy sha256 now memory_id new_text rows tidy = record {
  keyed =
      update_where-Keyed (λ p. p.pair_id) (is_outdated sha256 memory_id new_text)
        (λ p. record p { disposition = expired; disposed_at = some now }) (λ p. refl) rows
        tidy.keyed;
  unstamped =
      All-update_where Unstamped (is_outdated sha256 memory_id new_text)
        (λ p. record p { disposition = expired; disposed_at = some now }) (λ p h live. cc) rows
        tidy.unstamped;
}

module _ (c : MemoryClient) (view : Dict → Existing) (sha256 : String → String)
    (schema_version : Value) (who : Session) (now : ℕ) (why pair_id merged_text : String) where
  open c use {Store}

  -- What the follow-up does to the state that the update left, in which the pair is disposed of.
  abbrev Invalidates : Pair → World Store → World Store → Type 0
  Invalidates p u v =
      (closed : ℕ) × (invalidate c now p.old_id (p.new_id ∷ []) (some why) (actor_of who)
          (between now pair_id merged (by_of who) u)
        ≡ ok (v, closed))

  -- What a merge that raises leaves: everything as it was; or the update of the newer memory; or, where
  -- the reply to the invalidation was lost, the update and the invalidation, with the pair open again.
  pub data Partial (p : Pair) (w w' : World Store) (r : Refusal) : Type 0 where
    untouched : w' ≡ w → Partial p w w' r
    updated :
        (metadata : Dict) (cleared : Option Bool)
        → update_memory c sha256 now p.new_id merged_text metadata w ≡ ok (w', cleared)
        → get pair_id w'.pairs ≡ some p
        → Partial p w w' r
    superseded :
        (metadata : Dict) (cleared : Option Bool) (u v : World Store)
        → update_memory c sha256 now p.new_id merged_text metadata w ≡ ok (u, cleared)
        → who.transport "invalidate" ≡ loses_reply
        → r ≡ unreachable
        → Invalidates p u v
        → w' ≡ with_reopened pair_id v
        → get pair_id w'.pairs ≡ some p
        → Partial p w w' r

  module _ (w w' : World Store) (p : Pair) (r : Refusal) (tidy : Tidy w.pairs)
      (found : get pair_id w.pairs ≡ some p) (live : is_opened p.disposition ≡ true)
      (other : p.old_id ≢ p.new_id) where
    module _ (metadata : Dict) (u : World Store) (cleared : Option Bool)
        (e : update_memory c sha256 now p.new_id merged_text metadata w ≡ ok (u, cleared)) where
      still_open : get pair_id u.pairs ≡ some p
      still_open =
          let it =
            update_memory-Updated c sha256 now p.new_id merged_text metadata w (u, cleared) e in
          it.other_pairs pair_id p found other

      updated_table : Tidy u.pairs
      updated_table =
          let it =
            update_memory-Updated c sha256 now p.new_id merged_text metadata w (u, cleared) e in
          subst Tidy (sym it.rows)
            (close_for_updated_text-Tidy sha256 now p.new_id merged_text w.pairs tidy)

      invalidated-Partial :
          (v : World Store)
          → w' ≡ with_reopened pair_id v
          → (v ≡ between now pair_id merged (by_of who) u)
            ⊎ Lost who "invalidate"
                (invalidate c now p.old_id
                  (p.new_id ∷ [])
                  (some why)
                  (actor_of who)
                  (between now pair_id merged (by_of who) u))
                v
                r
          → Partial p w w' r
      invalidated-Partial v left (inl nothing) =
          let back : w' ≡ u =
            left
            ∙ ap (with_reopened pair_id) nothing
            ∙ with_reopened-between now pair_id merged (by_of who) (λ x. (x, refuse r)) u p
                updated_table still_open live refl in
          updated metadata cleared (rw back e) (rw back still_open)
      invalidated-Partial v left (inr (lost, gone, (closed, ran))) =
          superseded metadata cleared u v e lost gone (closed, ran) left
            (ap (λ (x : World Store). get pair_id x.pairs) left
              ∙ get-reopen now pair_id merged (by_of who) u.pairs v.pairs p updated_table still_open
                  live refl
                  (invalidate-shown c who now why pair_id (confirms false) merged u w' p r
                    updated_table still_open live refl why v closed ran))

      disposed-Partial :
          dispose_with_rollback now pair_id merged
              (by_of who)
              (merge_mutation c view sha256 schema_version who now why pair_id merged_text p)
              u
            ≡ (w', refuse r)
          → Partial p w w' r
      disposed-Partial h =
          let (v, raised, left) = dispose-raised now pair_id merged (by_of who) _ u w' r refl h in
          invalidated-Partial v left (
            request-raised Disposing.superseded (between now pair_id merged (by_of who) u) who
              "invalidate" _ v r raised)

    updated-Partial :
        (metadata : Dict) (response : Response Store (Option Bool))
        → execute who "update" w (update_memory c sha256 now p.new_id merged_text metadata w)
          ≡ response
        → merge_updated c view sha256 schema_version who now why pair_id merged_text p response
          ≡ (w', refuse r)
        → Partial p w w' r
    updated-Partial metadata (u, refuse r') sent h =
        let same : u ≡ w' = ground arith in
        elim (execute-raised w who "update" _ u r' sent) [
          | inl nothing ↦ untouched (sym same ∙ nothing)
          | inr (lost, gone, (cleared, e)) ↦
              updated metadata cleared (rw (sym same) e)
                (rw (sym same) (still_open metadata u cleared e))
        ]
    updated-Partial metadata (u, reply cleared) sent h =
        disposed-Partial metadata u cleared (execute-replied w who "update" _ u cleared sent) h

    existing-Partial :
        (existing : Reply Existing)
        → merge_existing c view sha256 schema_version who now why pair_id merged_text p w existing
          ≡ (w', refuse r)
        → Partial p w w' r
    existing-Partial (refuse r') h = untouched (ground arith)
    existing-Partial (reply existing) h = updated-Partial _ _ refl h

    loaded-Partial :
        (allowed : Reply (Unit {0}))
        → authorized c who now w allowed (
            merge_existing c view sha256 schema_version who now why pair_id merged_text p w (
              get_existing c view sha256 schema_version who now why pair_id merged_text p.new_id w))
          ≡ (w', refuse r)
        → Partial p w w' r
    loaded-Partial (refuse r') h = untouched (ground arith)
    loaded-Partial (reply done) h = existing-Partial _ h

    -- A merge that raises on an open suspicion of one entry by another, in a table with distinct ids whose
    -- open rows carry no stamp, has left one of three states. Nothing has changed; or the newer memory is
    -- updated, and nothing else is done; or, only where the command lost the reply to the invalidation, the
    -- newer memory is updated and the older one invalidated, with all that this does. In the last two the
    -- pair is open as it was.
    pub stale_merge-Partial :
        (force : Bool)
        → stale_merge c view sha256 schema_version who now why pair_id merged_text force w
          ≡ (w', refuse r)
        → Partial p w w' r
    unfolding stale_merge load_open_pair
    stale_merge-Partial force h = elim (Bool-cases (is_displacement p.kind)) [
      | inl kind ↦
          loaded-Partial (require_disposition_authority who force p) (rw (found, live, kind) at h)
      | inr kind ↦ let h' = rw (found, live, kind) at h in untouched (ground arith)
    ]
