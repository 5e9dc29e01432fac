-- ===== src/Memory.antt =====
-- The vendored mem0 client, as src/memline/staleness.py and src/memline/ops.py use it: an interface,
-- with the documented behaviour of the vector store's payload updates as its laws.
use memline.Prelude.{ℕ, String, ◌≡◌, false, Option, none, some, List, ◌==◌, if◌then◌else◌}
use mathlib.Core.Option
use memline.Dict.{Value, text, Dict, get, merge}

-- One row of `db.add_history`.
pub record History : Type 0 where
  pub memory_id : String
  pub old_text : String
  pub new_text : String
  pub event : String
  pub updated_at : ℕ
  pub actor_id : Option String

-- A result item of a search or a listing: its own keys, and those that mem0 put in `metadata`.
pub record Item : Type 0 where
  pub id : String
  pub memory : String
  pub created_at : String
  pub metadata : Dict
  pub fields : Dict

-- The filters that the program gives to `get_all`: whose memories, superseded by which memory, with a
-- deadline up to which time.
pub record Filter : Type 0 where
  pub user_id : Option String
  pub superseded_by : Option String
  pub expires_by : Option ℕ

-- A search: whose memories, and how many of them at most. The other arguments (threshold, rerank,
-- keyword, explain) are passed on as they are given.
pub record Query : Type 0 where
  pub query : String
  pub top_k : ℕ
  pub user_id : Value
  pub options : Dict

-- `lookup` is the payload of `vector_store.get(id)`, with none for a missing point and for an id that
-- makes `get` raise. `get_all` answers none where it raises, as mem0 documents it to do for filters
-- without one of user_id, agent_id and run_id. `search` answers none where its answer has no list.
-- `delete` is `client.delete`, with none where it raises, which it does for a missing memory.
-- `rewrite` is `client.update`, with none where it raises: it gives one memory that exists a new text,
-- and whatever metadata it makes of the old and the given ones.
pub record MemoryClient : Type 1 where
  pub Store : Type 0
  pub lookup : Store → String → Option Dict
  pub update : Store → String → Dict → Store
  pub add_history : Store → History → Store
  pub delete : Store → String → Option Store
  pub rewrite : Store → String → String → Dict → Option Store
  pub get_all : Store → Filter → ℕ → Option (List Item)
  pub search : Store → Query → Option (List Item)
  pub lookup-update :
      (s : Store) (id : String) (patch : Dict) (j : String)
      → lookup (update s id patch) j
        ≡ (if id == j then Option.map (merge patch) (lookup s j) else lookup s j)
  pub lookup-add_history :
      (s : Store) (h : History) (j : String) → lookup (add_history s h) j ≡ lookup s j
  pub delete-missing : (s : Store) (id : String) → lookup s id ≡ none → delete s id ≡ none
  pub delete-present :
      (s : Store) (id : String) (payload : Dict)
      → lookup s id ≡ some payload
      → (s' : Store) × (delete s id ≡ some s')
        × ((j : String) → lookup s' j ≡ (if id == j then none else lookup s j))
  pub lookup-rewrite :
      (s s' : Store) (id new_text : String) (metadata : Dict)
      → rewrite s id new_text metadata ≡ some s'
      → (payload : Dict) × (lookup s' id ≡ some payload) × (get "data" payload ≡ text new_text)
  pub lookup-rewrite_other :
      (s s' : Store) (id new_text : String) (metadata : Dict)
      → rewrite s id new_text metadata ≡ some s'
      → (j : String) → (id == j) ≡ false
      → lookup s' j ≡ lookup s j
  pub get_all-unscoped :
      (s : Store) (f : Filter) (top_k : ℕ) → f.user_id ≡ none → get_all s f top_k ≡ none
