-- ===== src/Staleness.antt =====
-- src/memline/staleness.py: the operations on the supersession state of a memory, its time to live and
-- its displacement protection. Each takes the time that it reads; a number of days is given in the
-- unit of time, so that it may be a fraction. A state is the client's store and the pair store.
pub mod Edges
pub mod Invalidating
pub mod Reviving
pub mod Sample
pub mod Ttl
pub mod Deleting
pub mod Updating
pub mod Protection
pub mod Searching
pub mod Checking
mod Tests
mod PoolTests
use memline.Prelude.{
  ℕ, zero, suc, ◌+◌, ◌*◌, String, ◌≡◌, refl, Bool, true, false, ◌&&◌, ◌||◌, not, Option, none, some,
  List, [], ◌∷◌, ◌++◌, map, ltb, leb, ◌==◌, if◌then◌else◌, filter, any, elem,
}
use memline.Result.{
  Error, Result, ok, raise, ◌>>=◌, ◌>>◌, refuse_if, memory_not_found, superseding_not_found,
  already_invalidated, not_invalidated, no_superseding_id, supersedes_itself,
}
use memline.Dict.{Value, null, flag, time, text, texts, Dict, get, truthy}
use memline.Memory.{History, Item, MemoryClient}
use memline.Pairs.{PairStore, Disposition, obsoleted, close_for_old}
use memline.Supersession.{
  superseded_ids, is_invalidated, is_nil, successors, assert_no_cycle, resolve_head, Heads,
}

abbrev pub text_value : Option String → Value
text_value none = null
text_value (some s) = text s

-- `str(payload.get("data") or "")`
abbrev pub text_of : Value → String
text_of (text s) = s
text_of _ = ""

abbrev pub data_of : Dict → String
data_of payload = text_of (get "data" payload)

-- `value and str(value) <= now`, where a deadline is a time.
abbrev pub is_past : Value → ℕ → Bool
is_past (time t) now = leb t now
is_past _ now = false

abbrev pub is_ahead : Value → ℕ → Bool
is_ahead (time t) now = ltb now t
is_ahead _ now = false

abbrev pub is_ttl_expired : Dict → ℕ → Bool
is_ttl_expired payload now = is_past (get "ttl_expires_at" payload) now

abbrev pub is_displacement_protected : Dict → ℕ → Bool
is_displacement_protected payload now = is_ahead (get "displacement_protected_until" payload) now

-- Both layouts of a result item are read.
abbrev pub result_item_superseded : Item → Bool
result_item_superseded item = is_invalidated item.metadata || is_invalidated item.fields

abbrev pub result_item_expired : Item → ℕ → Bool
result_item_expired item now = is_ttl_expired item.metadata now || is_ttl_expired item.fields now

abbrev pub result_item_displacement_protected : Item → ℕ → Bool
result_item_displacement_protected item now =
    is_displacement_protected item.metadata now || is_displacement_protected item.fields now

-- [b for b in dict.fromkeys(by_ids) if b]
abbrev pub dedup : List String → List String
dedup [] = []
dedup (x ∷ xs) = x ∷ filter (λ y. not (y == x)) (dedup xs)

abbrev pub distinct_ids : List String → List String
distinct_ids by_ids = filter (λ b. not (b == "")) (dedup by_ids)

pub record World (Store : Type 0) : Type 0 where
  pub store : Store
  pub pairs : PairStore

-- Who acts, in which session.
pub record Actor : Type 0 where
  pub actor_id : Option String
  pub session_id : Option String

abbrev pub no_protection : Dict
no_protection =
    ("displacement_protected_until", null)
    ∷ ("displacement_protection_reason", null)
    ∷ ("displacement_protected_at", null)
    ∷ ("displacement_protected_by_agent_id", null)
    ∷ ("displacement_protected_by_session_id", null)
    ∷ []

abbrev pub invalidation : ℕ → List String → Option String → Actor → Dict
invalidation now by_ids reason who =
    ("superseded_by", texts by_ids)
    ∷ ("superseded_at", time now)
    ∷ ("superseded_reason", text_value reason)
    ∷ ("invalidated_by_agent_id", text_value who.actor_id)
    ∷ ("invalidated_session_id", text_value who.session_id)
    ∷ no_protection

abbrev pub revival : ℕ → Actor → Dict
revival now who =
    ("superseded_by", null)
    ∷ ("superseded_at", null)
    ∷ ("superseded_reason", null)
    ∷ ("revived_at", time now)
    ∷ ("revived_by_agent_id", text_value who.actor_id)
    ∷ ("revived_session_id", text_value who.session_id)
    ∷ []

module _ (c : MemoryClient) where
  open c use {Store, lookup, update, add_history}

  -- `_point_payload`, and the error of the operations that want the memory to exist.
  unfoldable pub require : String → World Store → Result Dict
  require memory_id w = elim (lookup w.store memory_id) [
    | none ↦ raise (memory_not_found memory_id)
    | some payload ↦ ok payload
  ]

  abbrev pub log : ℕ → String → Dict → String → Option String → Store → Store
  log now memory_id payload event actor_id s = add_history s (record {
    memory_id = memory_id;
    old_text = data_of payload;
    new_text = data_of payload;
    event = event;
    updated_at = now;
    actor_id = actor_id;
  })

  -- for by_id in by_ids: if _point_payload(client, by_id) is None: raise
  abbrev pub all_exist : List String → World Store → Result (Unit {0})
  all_exist [] w = ok tt
  all_exist (b ∷ bs) w =
      let rest = all_exist bs w in
      elim (lookup w.store b) [ none ↦ raise (superseding_not_found b) | some p ↦ rest ]

  abbrev pub invalidated :
      ℕ → String → List String → Option String → Actor → Dict → World Store → World Store × ℕ
  invalidated now memory_id by_ids reason who payload w =
      let (pairs, closed) = close_for_old now memory_id obsoleted who.actor_id none w.pairs in
      (
        record {
          store =
              log now memory_id payload "INVALIDATE" who.actor_id
                (update w.store memory_id (invalidation now by_ids reason who));
          pairs = pairs;
        },
        closed,
      )

  -- The number is that of the suspicions closed.
  unfoldable pub invalidate :
      ℕ → String → List String → Option String → Actor → World Store → Result (World Store × ℕ)
  invalidate now memory_id given_ids reason who w = do
    let by_ids = distinct_ids given_ids
    refuse_if (is_nil by_ids) no_superseding_id
    refuse_if (elem memory_id by_ids) supersedes_itself
    payload ← require memory_id w
    refuse_if (is_invalidated payload) (already_invalidated memory_id)
    all_exist by_ids w
    assert_no_cycle (successors (lookup w.store)) memory_id by_ids
    ok (invalidated now memory_id by_ids reason who payload w)

  -- The list is the supersession that was cleared.
  unfoldable pub revive : ℕ → String → Actor → World Store → Result (World Store × List String)
  revive now memory_id who w = do
    payload ← require memory_id w
    refuse_if (not (is_invalidated payload)) (not_invalidated memory_id)
    ok (
      record w {
        store =
            log now memory_id payload "REVIVE" who.actor_id
              (update w.store memory_id (revival now who));
      },
      superseded_ids payload,
    )
