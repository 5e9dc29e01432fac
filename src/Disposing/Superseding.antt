-- ===== src/Disposing/Superseding.antt =====
-- src/memline/cli/_support.py, `_dispose_with_rollback`: a disposition whose follow-up supersedes the
-- older entry by the newer one, as a confirmation and a merge have it.
use memline.Prelude.{
  ℕ, String, ◌≡◌, ◌≢◌, refl, ap, ◌∙◌, true, false, Option, none, some, [], ◌∷◌, ◌==◌, ◌&&◌, arith,
  elem, eq_iff, sym,
}
use mathlib.Core.Option
use memline.Prelude.Order.{updated, find-update_where}
use memline.Prelude.Rows.{find_holds}
use memline.Pairs.{
  Kind, Pair, obsoleted, Disposition, is_opened, is_disposal, is_open_for_old, close, get,
  close_for_old, open_for_old_ids,
}
use memline.Memory.{MemoryClient}
use memline.Supersession.{is_nil}
use memline.Staleness.{World, distinct_ids}
use memline.Staleness.Edges.{text_at}
use memline.Staleness.Invalidating.{graph, invalidate-Accepted, invalidate_lem}
use memline.Disposing.{
  Session, Reply, Done, Answer, refuse, reply, superseded, actor_of, by_of, run_invalidate,
  with_done, dispose_with_rollback, authorized,
}
use memline.Disposing.Requests.{request-replied}
use memline.Disposing.Rollback.{between, dispose-replied}

module _ (c : MemoryClient) (who : Session) (now : ℕ) (pair_id : String) where
  open c use {Store, lookup}

  pub authorized_reply :
      (w w' : World Store) (done : Done) (allowed : Reply (Unit {0})) (next : Answer Store)
      → authorized c who now w allowed next ≡ (w', reply done)
      → (allowed ≡ reply tt) × (next ≡ (w', reply done))
  authorized_reply w w' done (refuse r) next h = cc
  authorized_reply w w' done (reply _) next h = (refl, h)

  distinct_one :
      (b : String) → is_nil (distinct_ids (b ∷ [])) ≡ false → distinct_ids (b ∷ []) ≡ b ∷ []
  distinct_one b h = ground arith

  module _ (d : Disposition) (reason : String) where
    abbrev pub settled : World Store → World Store
    settled = between now pair_id d (by_of who)

    abbrev pub follow_up : Pair → World Store → Answer Store
    follow_up p v =
        with_done superseded (run_invalidate c who now p.old_id (p.new_id ∷ []) reason v)

    module _ (other : Disposition) (kind : Option Kind) where
      closed_once :
          (p : Pair)
          → is_disposal d ≡ true
          → (p.pair_id == pair_id) ≡ true
          → is_opened p.disposition ≡ true
          → updated (is_open_for_old p.old_id kind) (close now other (by_of who)) (
              updated
                (λ x. x.pair_id == pair_id && is_opened x.disposition)
                (close now d (by_of who))
                p)
            ≡ close now d (by_of who) p
      closed_once p final same live = ground (arith, same, live)

      -- The pair itself, after the follow-up has closed open pairs against its old entry.
      pub get-followed :
          (w : World Store) (p : Pair)
          → is_disposal d ≡ true
          → get pair_id w.pairs ≡ some p
          → is_opened p.disposition ≡ true
          → get pair_id (close_for_old now p.old_id other (by_of who) kind (settled w).pairs).0
            ≡ some (close now d (by_of who) p)
      unfolding get close_for_old
      get-followed w p final found live =
          let first_update =
            find-update_where (λ x. x.pair_id == pair_id && is_opened x.disposition)
              (close now d (by_of who)) (λ x. x.pair_id) (λ x. refl) pair_id w.pairs in
          find-update_where (is_open_for_old p.old_id kind) (close now other (by_of who))
            (λ x. x.pair_id) (λ x. refl) pair_id (settled w).pairs
          ∙ ap (Option.map (updated (is_open_for_old p.old_id kind) (close now other (by_of who))))
              (first_update ∙ ap (Option.map _) found)
          ∙ ap some
              (closed_once p final (find_holds (λ x. x.pair_id == pair_id) p w.pairs found) live)

    -- What such a disposition leaves of the pair and of the memories.
    pub record Superseded (w w' : World Store) (p : Pair) : Type 0 where
      pub itself : get pair_id w'.pairs ≡ some (close now d (by_of who) p)
      pub successor : graph c w' p.old_id ≡ p.new_id ∷ []
      pub others : (x : String) → x ≢ p.old_id → lookup w'.store x ≡ lookup w.store x
      pub kept_texts : (x : String) → text_at (lookup w'.store x) ≡ text_at (lookup w.store x)
      pub none_open : open_for_old_ids (p.old_id ∷ []) w'.pairs p.old_id ≡ []

    pub dispose-Superseded :
        (w w' : World Store) (done : Done) (p : Pair)
        → is_disposal d ≡ true
        → get pair_id w.pairs ≡ some p
        → is_opened p.disposition ≡ true
        → dispose_with_rollback now pair_id d (by_of who) (follow_up p) w ≡ (w', reply done)
        → Superseded w w' p
    dispose-Superseded w w' done p final found live h =
        let (closed, followed) =
          request-replied superseded (settled w) who "invalidate" _ w' done
            (dispose-replied now pair_id d (by_of who) (follow_up p) w w' done final h) in
        let a =
          invalidate-Accepted c now p.old_id (p.new_id ∷ []) (some reason) (actor_of who)
            (settled w) (w', closed) followed in
        let done_by =
          invalidate_lem c now p.old_id (p.new_id ∷ []) (some reason) (actor_of who) (settled w)
            (w', closed) followed in
        record {
          itself =
              ap (λ (r : World Store × ℕ). get pair_id r.0.pairs) a.state
              ∙ get-followed obsoleted none w p final found live;
          successor = done_by.0 ∙ distinct_one p.new_id a.some_id;
          others = done_by.1;
          kept_texts = done_by.2;
          none_open = done_by.4;
        }

    -- Only another entry can be the successor.
    pub dispose-apart :
        (w w' : World Store) (done : Done) (p : Pair)
        → is_disposal d ≡ true
        → dispose_with_rollback now pair_id d (by_of who) (follow_up p) w ≡ (w', reply done)
        → p.old_id ≢ p.new_id
    dispose-apart w w' done p final h same =
        let (closed, followed) =
          request-replied superseded (settled w) who "invalidate" _ w' done
            (dispose-replied now pair_id d (by_of who) (follow_up p) w w' done final h) in
        let a =
          invalidate-Accepted c now p.old_id (p.new_id ∷ []) (some reason) (actor_of who)
            (settled w) (w', closed) followed in
        let not_self : elem p.old_id (p.new_id ∷ []) ≡ false =
          ap (elem p.old_id) (sym (distinct_one p.new_id a.some_id)) ∙ a.not_self in
        ground (arith, not_self, eq_iff p.new_id p.old_id, eq_iff p.old_id p.new_id)
