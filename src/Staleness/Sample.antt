-- ===== src/Staleness/Sample.antt =====
-- A concrete client: the store is a function from ids to payloads, with the rows of the history.
use memline.Prelude.{
  String, ◌≡◌, refl, ap, sym, eq_iff, false, Option, none, some, List, [], ◌∷◌, ◌++◌, if◌then◌else◌,
  ◌==◌,
}
use mathlib.Core.Option
use mathlib.Core.Option.{some-injective}
use memline.Dict.{text, texts, Dict, get, merge}
use memline.Memory.{MemoryClient, History, Item, Filter}
use memline.Pairs.{Pair, displacement, superseded, dismissed, opened}
use memline.Staleness.{World, Actor}

pub record Sample : Type 0 where
  pub payload : String → Option Dict
  pub history : List History

abbrev pub patch_at : String → Dict → (String → Option Dict) → String → Option Dict
patch_at id patch payload j = if id == j then Option.map (merge patch) (payload j) else payload j

-- A memory that exists takes the new text; the metadata are merged.
abbrev pub rewritten : String → String → Dict → Sample → Option Dict → Option Sample
rewritten id new_text metadata s none = none
rewritten id new_text metadata s (some payload) = some (record s {
  payload =
      λ j. if id == j then some (("data", text new_text) ∷ merge metadata payload) else s.payload j;
})

pub rewritten_at :
    (s s' : Sample) (id new_text : String) (metadata : Dict) (found : Option Dict)
    → rewritten id new_text metadata s found ≡ some s'
    → ((payload : Dict) × (s'.payload id ≡ some payload) × (get "data" payload ≡ text new_text))
      × ((j : String) → (id == j) ≡ false → s'.payload j ≡ s.payload j)
rewritten_at s s' id new_text metadata none h = cc
rewritten_at s s' id new_text metadata (some payload) h = rw (sym (some-injective _ _ h)) (
  (("data", text new_text) ∷ merge metadata payload, rw ((eq_iff id id).1 refl) refl, refl),
  λ j other. rw other refl,
)

-- The store without a memory.
abbrev pub without : String → Sample → Sample
without id s = record s { payload = λ j. if id == j then none else s.payload j }

abbrev pub deleted_at : String → Sample → Option Dict → Option Sample
deleted_at id s none = none
deleted_at id s (some payload) = some (without id s)

-- `get_all` wants a scope.
abbrev pub scoped {ℓ} : {A : Type ℓ} → Option String → Option A → Option A
scoped none answer = none
scoped (some user_id) answer = answer

-- `listing` is what `get_all` answers where it has a scope, and `search_result` what `search` does.
abbrev pub sample_client : (Filter → Option (List Item)) → Option (List Item) → MemoryClient
sample_client listing search_result = record {
  Store = Sample;
  lookup = λ s. s.payload;
  update = λ s id patch. record s { payload = patch_at id patch s.payload };
  add_history = λ s h. record s { history = s.history ++ h ∷ [] };
  delete = λ s id. deleted_at id s (s.payload id);
  rewrite = λ s id new_text metadata. rewritten id new_text metadata s (s.payload id);
  get_all = λ s filter limit. scoped filter.user_id (listing filter);
  search = λ s query. search_result;
  lookup-update = λ s id patch j. refl;
  lookup-add_history = λ s h j. refl;
  delete-missing = λ s id e. ap (deleted_at id s) e;
  delete-present = λ s id payload e. (without id s, ap (deleted_at id s) e, λ j. refl);
  lookup-rewrite =
      λ s s' id new_text metadata h. (rewritten_at s s' id new_text metadata (s.payload id) h).0;
  lookup-rewrite_other =
      λ s s' id new_text metadata h. (rewritten_at s s' id new_text metadata (s.payload id) h).1;
  get_all-unscoped = λ s f top_k e. rw e refl;
}

abbrev pub agent : Actor
agent = record { actor_id = some "agent"; session_id = some "session" }

-- Two memories, "old" and "new".
abbrev pub two : World Sample
two = record {
  store = record {
    payload = λ id.
        if id == "old"
        then some (("data", text "before") ∷ [])
        else if id == "new"
        then some (("data", text "after") ∷ [])
        else none;
    history = [];
  };
  pairs = [];
}

-- "old" is superseded by "new".
abbrev pub linked : World Sample
linked = record {
  store = record {
    payload = λ id.
        if id == "old"
        then some (("data", text "before") ∷ ("superseded_by", texts ("new" ∷ [])) ∷ [])
        else if id == "new"
        then some (("data", text "after") ∷ [])
        else none;
    history = [];
  };
  pairs = [];
}

-- A displacement suspicion of "old" by another entry, dismissed; the hash of a text is the text.
abbrev pub dismissal : String → String → Pair
dismissal pair_id new_id = record {
  pair_id = pair_id;
  kind = displacement;
  new_id = new_id;
  old_id = "old";
  old_text_hash = "before";
  verdict = superseded;
  confidence = some 900;
  reason = none;
  judged_at = 1;
  judge_model = none;
  new_session_id = none;
  disposition = dismissed;
  disposed_by = none;
  disposed_at = some 2;
}

-- "old" has been cleared of three suspicions.
abbrev pub trusted : World Sample
trusted = record two { pairs = dismissal "p1" "a" ∷ dismissal "p2" "b" ∷ dismissal "p3" "c" ∷ [] }

-- "old" has an open suspicion.
abbrev pub accused : World Sample
accused = record two { pairs = record (dismissal "p4" "new") { disposition = opened } ∷ [] }

abbrev pub item_of : String → Dict → Item
item_of id metadata = record {
  id = id;
  memory = "text";
  created_at = "";
  metadata = metadata;
  fields = [];
}
