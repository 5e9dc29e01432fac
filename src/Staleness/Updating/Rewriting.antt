-- ===== src/Staleness/Updating/Rewriting.antt =====
-- src/memline/ops.py, `_update`: what holds after an update of a text.
use memline.Prelude.{
  ℕ, String, ◌≡◌, ◌≢◌, refl, sym, ap, ◌∙◌, Bool, true, false, Option, none, some, ◌==◌, arith, In,
  In-map, inl, inr, Bool-cases, Option-cases, String-cases, eq_iff, subst,
}
use mathlib.Core.Option.{some-injective}
use memline.Prelude.Order.{updated, find-update_where}
use memline.Result.{Error, Result, raise, ok}
use memline.Dict.{Dict, get}
use memline.Memory.{MemoryClient}
use memline.Pairs as Pairs
use mathlib.Core.Option
use memline.Pairs.{Pair, PairStore, opened, expired, is_opened, is_outdated, close_for_updated_text}
use memline.Staleness.{World, data_of, text_of, is_displacement_protected}
use memline.Staleness.Edges.{text_at, lookup-patched_self, lookup-patched_ne}
use memline.Staleness.Invalidating.{require_of}
use memline.Staleness.Protection.{clear_displacement_protection, has_protection, unprotected}
use memline.Staleness.Protection.Clearing.{unset}
use memline.Staleness.Updating.{text_changed, agent_of, update_memory}

abbrev pub Unprotected : Option Dict → Type 0
Unprotected none = Unit
Unprotected (some payload) = (t : ℕ) → is_displacement_protected payload t ≡ false

raised_not : {A : Type 0} {e : Error} {a : A} → ◌≡◌ {A = Result A} (raise e) (ok a) → ⊥
raised_not h = cc

ok_injective : {A : Type 0} {a b : A} → ◌≡◌ {A = Result A} (ok a) (ok b) → a ≡ b
ok_injective h = ground arith

apart : (memory_id j : String) → j ≢ memory_id → (memory_id == j) ≡ false
apart memory_id j other = elim (String-cases memory_id j) [
  | inl same ↦ absurd (other (sym same))
  | inr miss ↦ miss
]

module _ (sha256 : String → String) (now : ℕ) (memory_id new_text : String) where
  Current : Pair → Type 0
  Current p = p.disposition ≡ opened → p.old_id ≡ memory_id → p.old_text_hash ≡ sha256 new_text

  expire : Pair → Pair
  expire p = record p { disposition = expired; disposed_at = some now }

  updated-Current : (p : Pair) → Current (updated (is_outdated sha256 memory_id new_text) expire p)
  unfolding Current expire
  updated-Current p = elim (Bool-cases (is_outdated sha256 memory_id new_text p)) [
    | inl hit ↦ rw (hit, updated) (λ h e. cc)
    | inr miss ↦
        rw (miss, updated)
          (λ h e.
            ground (arith, eq_iff p.old_id memory_id, eq_iff p.old_text_hash (sha256 new_text)))
  ]

  In-outdated :
      (p : Pair) (rows : PairStore)
      → In p (close_for_updated_text sha256 now memory_id new_text rows).0
      → p.disposition ≡ opened
      → p.old_id ≡ memory_id
      → p.old_text_hash ≡ sha256 new_text
  unfolding close_for_updated_text Current expire
  In-outdated p rows i =
      let (r, j, same) = In-map _ p rows i in subst Current (sym same) (updated-Current r)

  get-other_memory :
      (j : String) (p : Pair) (rows : PairStore)
      → Pairs.get j rows ≡ some p
      → p.old_id ≢ memory_id
      → Pairs.get j (close_for_updated_text sha256 now memory_id new_text rows).0 ≡ some p
  unfolding close_for_updated_text Pairs.get expire
  get-other_memory j p rows found other =
      let kept : updated (is_outdated sha256 memory_id new_text) expire p ≡ p =
        elim (String-cases p.old_id memory_id) [
          | inl same ↦ absurd (other same)
          | inr miss ↦ rw (miss, updated) refl
        ] in
      find-update_where (is_outdated sha256 memory_id new_text) expire (λ x. x.pair_id) (λ x. refl)
        j rows
      ∙ ap (Option.map (updated (is_outdated sha256 memory_id new_text) expire)) found
      ∙ ap some kept

module _ (c : MemoryClient) where
  open c use {Store, lookup, rewrite, lookup-rewrite, lookup-rewrite_other}

  -- Clearing the protection of a memory that exists.
  record Cleared (memory_id : String) (w w' : World Store) (payload : Dict) : Type 0 where
    pub pairs : w'.pairs ≡ w.pairs
    pub kept_text : text_at (lookup w'.store memory_id) ≡ some (data_of payload)
    pub others : (j : String) → j ≢ memory_id → lookup w'.store j ≡ lookup w.store j
    pub unprotected : Unprotected (lookup w'.store memory_id)

  module _ (now : ℕ) (memory_id : String) (by : Option String) (w : World Store) (payload : Dict)
      (found : lookup w.store memory_id ≡ some payload) where
    clear-Cleared :
        (r : World Store × Bool) × (clear_displacement_protection c now memory_id by w ≡ ok r)
        × Cleared memory_id w r.0 payload
    unfolding clear_displacement_protection
    clear-Cleared = elim (Bool-cases (has_protection payload)) [
      | inl some_field ↦ (
        (unprotected c now memory_id by payload w, true),
        rw (require_of c memory_id w payload found, some_field) refl,
        record {
          pairs = refl;
          kept_text = ap text_at (lookup-patched_self c w.store memory_id _ _ found);
          others = λ j other. lookup-patched_ne c w.store memory_id _ _ j other;
          unprotected = rw (lookup-patched_self c w.store memory_id _ _ found) (λ t. refl);
        },
      )
      | inr no_field ↦ (
        (w, false),
        rw (require_of c memory_id w payload found, no_field) refl,
        record {
          pairs = refl;
          kept_text = ap text_at found;
          others = λ j other. refl;
          unprotected = rw found (λ t. unset payload t no_field);
        },
      )
    ]

  -- What an update leaves of the memories and of the suspicions.
  pub record Updated (sha256 : String → String) (now : ℕ) (memory_id new_text : String)
      (w w' : World Store) : Type 0 where
    pub new : text_at (lookup w'.store memory_id) ≡ some new_text
    pub others : (j : String) → j ≢ memory_id → lookup w'.store j ≡ lookup w.store j
    pub unprotected :
        text_changed c memory_id new_text w ≡ true → Unprotected (lookup w'.store memory_id)
    pub rows : w'.pairs ≡ (close_for_updated_text sha256 now memory_id new_text w.pairs).0
    pub current :
        (p : Pair)
        → In p w'.pairs
        → p.disposition ≡ opened
        → p.old_id ≡ memory_id
        → p.old_text_hash ≡ sha256 new_text
    pub other_pairs :
        (j : String) (p : Pair)
        → Pairs.get j w.pairs ≡ some p
        → p.old_id ≢ memory_id
        → Pairs.get j w'.pairs ≡ some p

  module _ (sha256 : String → String) (now : ℕ) (memory_id new_text : String) (metadata : Dict)
      (w : World Store) where
    left :
        (later : World Store)
        → later.pairs ≡ w.pairs
        → text_at (lookup later.store memory_id) ≡ some new_text
        → ((j : String) → j ≢ memory_id → lookup later.store j ≡ lookup w.store j)
        → (text_changed c memory_id new_text w ≡ true → Unprotected (lookup later.store memory_id))
        → Updated sha256 now memory_id new_text w (record later {
          pairs = (close_for_updated_text sha256 now memory_id new_text later.pairs).0;
        })
    left later pairs new others unprotected = record {
      new = new;
      others = others;
      unprotected = unprotected;
      rows = ap (λ x. (close_for_updated_text sha256 now memory_id new_text x).0) pairs;
      current = λ p. In-outdated sha256 now memory_id new_text p later.pairs;
      other_pairs = λ j p found.
          get-other_memory sha256 now memory_id new_text j p later.pairs
            (ap (Pairs.get j) pairs ∙ found);
    }

    -- Where the client accepts the new text, an update succeeds. The memory then has the new text, and no
    -- other memory has changed; if its text was another one, it is protected from displacement at no
    -- time; each suspicion of it that is still open was judged on the new text; the suspicions of other
    -- memories are as before.
    pub update_memory_lem :
        (s : Store)
        → rewrite w.store memory_id new_text metadata ≡ some s
        → (r : World Store × Option Bool) × (update_memory c sha256 now memory_id new_text metadata
              w
            ≡ ok r)
          × Updated sha256 now memory_id new_text w r.0
    unfolding update_memory
    update_memory_lem s accepted =
        let (payload, found, has_text) =
          lookup-rewrite w.store s memory_id new_text metadata accepted in
        let new : some (data_of payload) ≡ some new_text = ap (λ v. some (text_of v)) has_text in
        let others : (j : String) → j ≢ memory_id → lookup s j ≡ lookup w.store j = λ j other.
          lookup-rewrite_other w.store s memory_id new_text metadata accepted j
            (apart memory_id j other) in
        elim (Bool-cases (text_changed c memory_id new_text w)) [
          | inl changed ↦
              let (r, e, cleared) =
                clear-Cleared now memory_id (agent_of (get "last_updated_by_agent_id" metadata))
                  (record w { store = s }) payload found in
              (
                (
                  record r.0 {
                    pairs = (close_for_updated_text sha256 now memory_id new_text r.0.pairs).0;
                  },
                  some r.1,
                ),
                rw (accepted, changed, e) refl,
                left r.0 cleared.pairs (cleared.kept_text ∙ new)
                    (λ j other. cleared.others j other ∙ others j other) (λ h. cleared.unprotected),
              )
          | inr same ↦ (
            (
              record w {
                store = s;
                pairs = (close_for_updated_text sha256 now memory_id new_text w.pairs).0;
              },
              none,
            ),
            rw (accepted, same) refl,
            left (record w { store = s }) refl (ap text_at found ∙ new) others (λ h. cc),
          )
        ]

    -- An update that returns leaves such a state.
    pub update_memory-Updated :
        (r : World Store × Option Bool)
        → update_memory c sha256 now memory_id new_text metadata w ≡ ok r
        → Updated sha256 now memory_id new_text w r.0
    unfolding update_memory
    update_memory-Updated r h = elim (Option-cases (rewrite w.store memory_id new_text metadata)) [
      | inl refused ↦ absurd (raised_not (rw refused at h))
      | inr (s, accepted) ↦
          let (r', e, it) = update_memory_lem s accepted in
          subst (λ (x : World Store × Option Bool). Updated sha256 now memory_id new_text w x.0)
            (ok_injective (sym e ∙ h)) it
    ]
