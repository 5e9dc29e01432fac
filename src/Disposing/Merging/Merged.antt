-- ===== src/Disposing/Merging/Merged.antt =====
-- src/memline/cli/stale.py, `stale_merge`: what a merge that succeeds has done.
use memline.Prelude.{
  ℕ, String, ◌≡◌, ◌≢◌, refl, ap, ◌∙◌, inl, inr, Bool, true, Option, some, [], ◌∷◌, arith,
  Bool-cases,
}
use memline.Result.{ok}
use memline.Dict.{Value, Dict}
use memline.Memory.{MemoryClient}
use memline.Pairs.{Kind, Pair, displacement, merged, is_opened, close, get, open_for_old_ids}
use memline.Staleness.{World}
use memline.Staleness.Edges.{text_at}
use memline.Staleness.Invalidating.{graph}
use memline.Staleness.Updating.{update_memory}
use memline.Staleness.Updating.Rewriting.{update_memory-Updated}
use memline.Disposing.{
  Session, Reply, Done, Answer, Response, refuse, reply, by_of, authorized,
  require_disposition_authority, load_open_pair, dispose_with_rollback,
}
use memline.Disposing.Authority.{May, require-May}
use memline.Disposing.Requests.{refused_not, execute-replied}
use memline.Disposing.Superseding.{authorized_reply, dispose-Superseded, dispose-apart}
use memline.Disposing.Merging.{
  Existing, is_displacement, get_existing, merge_mutation, merge_updated, merge_existing,
  stale_merge,
}

kind_of : (k : Kind) → is_displacement k ≡ true → k ≡ displacement
kind_of k h = ground arith

module _ (c : MemoryClient) (view : Dict → Existing) (sha256 : String → String)
    (schema_version : Value) (who : Session) (now : ℕ) (why pair_id merged_text : String) where
  open c use {Store, lookup}

  -- What a merge leaves.
  pub record Merged (force : Bool) (w w' : World Store) (p : Pair) : Type 0 where
    pub kind : p.kind ≡ displacement
    pub permitted : May who force p
    pub itself : get pair_id w'.pairs ≡ some (close now merged (by_of who) p)
    pub new_text : text_at (lookup w'.store p.new_id) ≡ some merged_text
    pub other_texts :
        (x : String) → x ≢ p.new_id → text_at (lookup w'.store x) ≡ text_at (lookup w.store x)
    pub successor : graph c w' p.old_id ≡ p.new_id ∷ []
    pub none_open : open_for_old_ids (p.old_id ∷ []) w'.pairs p.old_id ≡ []

  module _ (w w' : World Store) (done : Done) (p : Pair) where
    -- The disposition with its follow-up, in the state that the update leaves.
    abbrev Disposes : World Store → Type 0
    Disposes v =
        dispose_with_rollback now pair_id merged (by_of who)
          (merge_mutation c view sha256 schema_version who now why pair_id merged_text p) v
        ≡ (w', reply done)

    updated_then :
        (response : Response Store (Option Bool))
        → merge_updated c view sha256 schema_version who now why pair_id merged_text p response
          ≡ (w', reply done)
        → (v : World Store) × (cleared : Option Bool) × (response ≡ (v, reply cleared)) × Disposes v
    updated_then (v, refuse r) h = cc
    updated_then (v, reply cleared) h = (v, cleared, refl, h)

    existing_then :
        (existing : Reply Existing)
        → merge_existing c view sha256 schema_version who now why pair_id merged_text p w existing
          ≡ (w', reply done)
        → (metadata : Dict) × (r : World Store × Option Bool) × (update_memory c sha256 now p.new_id
              merged_text metadata w
            ≡ ok r)
          × Disposes r.0
    existing_then (refuse r) h = cc
    existing_then (reply existing) h =
        let (v, cleared, e, disposes) = updated_then _ h in
        (_, (v, cleared), execute-replied w who "update" _ v cleared e, disposes)

    fulfilled :
        (force : Bool)
        → get pair_id w.pairs ≡ some p
        → is_opened p.disposition ≡ true
        → is_displacement p.kind ≡ true
        → authorized c who now w (require_disposition_authority who force p) (
            merge_existing c view sha256 schema_version who now why pair_id merged_text p w (
              get_existing c view sha256 schema_version who now why pair_id merged_text p.new_id w))
          ≡ (w', reply done)
        → Merged force w w' p
    fulfilled force found live kind h =
        let (allowed, next) =
          authorized_reply c who now pair_id w w' done (require_disposition_authority who force p) _
            h in
        let (metadata, r, e, disposes) = existing_then _ next in
        let it = update_memory-Updated c sha256 now p.new_id merged_text metadata w r e in
        let other : p.old_id ≢ p.new_id =
          dispose-apart c who now pair_id merged why r.0 w' done p refl disposes in
        let after =
          dispose-Superseded c who now pair_id merged why r.0 w' done p refl
            (it.other_pairs pair_id p found other) live disposes in
        record {
          kind = kind_of p.kind kind;
          permitted = require-May who force p allowed;
          itself = after.itself;
          new_text = after.kept_texts p.new_id ∙ it.new;
          other_texts = λ x apart. after.kept_texts x ∙ ap text_at (it.others x apart);
          successor = after.successor;
          none_open = after.none_open;
        }

    -- A merge that succeeds was permitted and had a displacement suspicion. The newer memory then has
    -- the merged text and every other memory the text that it had; the pair itself is marked as merged by
    -- the caller; the older memory has the newer one as its one successor, and no open pair accuses it.
    pub stale_merge_lem :
        (force : Bool)
        → get pair_id w.pairs ≡ some p
        → stale_merge c view sha256 schema_version who now why pair_id merged_text force w
          ≡ (w', reply done)
        → Merged force w w' p
    unfolding stale_merge load_open_pair
    stale_merge_lem force found h = elim (Bool-cases (is_opened p.disposition)) [
      | inl live ↦ elim (Bool-cases (is_displacement p.kind)) [
        | inl kind ↦ fulfilled force found live kind (rw (found, live, kind) at h)
        | inr other ↦
            absurd (refused_not (ap (λ (r : Answer Store). r.1) (rw (found, live, other) at h)))
      ]
      | inr over ↦ absurd (refused_not (ap (λ (r : Answer Store). r.1) (rw (found, over) at h)))
    ]
