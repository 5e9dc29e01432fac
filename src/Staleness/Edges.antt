-- ===== src/Staleness/Edges.antt =====
-- What a payload update of the vector store does to the supersession graph and to the texts.
use memline.Prelude.{
  String, ◌≡◌, ◌≢◌, refl, sym, ◌∙◌, Bool, true, false, Option, none, some, ◌==◌, eq_refl,
  if◌then◌else◌, String-cases, inl, inr,
}
use mathlib.Core.Option
use memline.Dict.{Dict, get, has, merge, get-merge}
use memline.Memory.{MemoryClient, History}
use memline.Supersession.{successors, ids_of, ids_at}
use memline.Supersession.Acyclic.{Redirects}
use memline.Staleness.{data_of}

-- The text of a memory, if it exists.
abbrev pub text_at : Option Dict → Option String
text_at none = none
text_at (some payload) = some (data_of payload)

module _ (c : MemoryClient) where
  open c use {Store, lookup, update, add_history, lookup-update, lookup-add_history}

  -- An update of a payload followed by a row of history: what the operations do to the store.
  abbrev pub patched : Store → String → Dict → History → Store
  patched s id patch h = add_history (update s id patch) h

  module _ (s : Store) (id : String) (patch : Dict) (h : History) where
    pub lookup-patched :
        (j : String)
        → lookup (patched s id patch h) j
          ≡ (if id == j then Option.map (merge patch) (lookup s j) else lookup s j)
    lookup-patched j = lookup-add_history (update s id patch) h j ∙ lookup-update s id patch j

    pub lookup-patched_self :
        {payload : Dict}
        → lookup s id ≡ some payload
        → lookup (patched s id patch h) id ≡ some (merge patch payload)
    lookup-patched_self e = rw (lookup-patched, eq_refl, e)

    pub lookup-patched_ne : (j : String) → j ≢ id → lookup (patched s id patch h) j ≡ lookup s j
    lookup-patched_ne j other = elim (String-cases id j) [
      | inl same ↦ absurd (other (sym same))
      | inr miss ↦ rw (lookup-patched, miss)
    ]

    -- Where the patch sets `superseded_by`, only the successors of the memory change.
    pub patched-Redirects :
        (payload : Dict)
        → lookup s id ≡ some payload
        → has "superseded_by" patch ≡ true
        → Redirects
            (successors (lookup s))
            (successors (lookup (patched s id patch h)))
            id
            (ids_of (get "superseded_by" patch))
    patched-Redirects payload e sets = record {
      edges = rw (lookup-patched_self e, get-merge, sets);
      others = λ x other. rw (lookup-patched_ne x other);
    }

    ids_kept :
        (b : Bool) (o : Option Dict)
        → has "superseded_by" patch ≡ false
        → ids_at (if b then Option.map (merge patch) o else o) ≡ ids_at o
    ids_kept false o leaves = refl
    ids_kept true none leaves = refl
    ids_kept true (some payload) leaves = rw (get-merge, leaves)

    text_kept :
        (b : Bool) (o : Option Dict)
        → has "data" patch ≡ false
        → text_at (if b then Option.map (merge patch) o else o) ≡ text_at o
    text_kept false o leaves = refl
    text_kept true none leaves = refl
    text_kept true (some payload) leaves = rw (get-merge, leaves)

    -- Where the patch does not set `superseded_by`, no edge changes.
    pub patched-successors :
        has "superseded_by" patch ≡ false
        → (x : String) → successors (lookup (patched s id patch h)) x ≡ successors (lookup s) x
    patched-successors leaves x = rw lookup-patched (ids_kept (id == x) (lookup s x) leaves)

    -- Where it does not set `data`, every memory keeps its text, and none appears or goes.
    pub patched-text :
        has "data" patch ≡ false
        → (x : String) → text_at (lookup (patched s id patch h) x) ≡ text_at (lookup s x)
    patched-text leaves x = rw lookup-patched (text_kept (id == x) (lookup s x) leaves)
