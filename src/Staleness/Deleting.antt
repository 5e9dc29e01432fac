-- ===== src/Staleness/Deleting.antt =====
-- src/memline/staleness.py, `delete_guard`, and src/memline/ops.py, `_delete`.
pub mod Guarding
use memline.Prelude.{ℕ, String, Bool, true, false, Option, none, some, List, [], ◌∷◌, if◌then◌else◌}
use memline.Result.{Result, raise, ok, ◌>>=◌, not_deleted}
use memline.Dict.{Dict}
use memline.Memory.{Filter, Item, MemoryClient}
use memline.Supersession.{is_invalidated}
use memline.Staleness.{World}
use memline.Staleness.Ttl.{Schedule, TtlResult, set_ttl}

pub record Guard : Type 0 where
  pub participates : Bool
  pub reason : Option String

abbrev pub free : Option String → Guard
free reason = record { participates = false; reason = reason }

abbrev pub participant : String → Guard
participant reason = record { participates = true; reason = some reason }

-- What the scan for superseded entries says; one that raises says nothing.
abbrev pub guard_of_scan : Option (List Item) → Guard
guard_of_scan none = free none
guard_of_scan (some []) = free none
guard_of_scan (some (item ∷ items)) = participant "memory supersedes other entries"

-- {SUPERSEDED_BY: memory_id}
abbrev pub superseded_by_it : String → Filter
superseded_by_it memory_id = record {
  user_id = none;
  superseded_by = some memory_id;
  expires_by = none;
}

abbrev pub at_once : Schedule
at_once = record { days = none; expires_at = none; clear = false; expire_now = true }

-- What `_delete` answers: the client has deleted the memory, or it was downgraded to an expiry.
pub data Deletion : Type 0 where
  deleted : Deletion
  downgraded : Option String → TtlResult → Deletion

module _ (c : MemoryClient) where
  open c use {Store, lookup, delete, get_all}

  abbrev pub guard_of : String → World Store → Option Dict → Guard
  guard_of memory_id w none = free (some "memory not found")
  guard_of memory_id w (some payload) =
      if is_invalidated payload
      then participant "memory is superseded (chain node)"
      else guard_of_scan (get_all w.store (superseded_by_it memory_id) 1)

  unfoldable pub delete_guard : String → World Store → Guard
  delete_guard memory_id w = guard_of memory_id w (lookup w.store memory_id)

  -- client.delete(memory_id), which raises for a missing memory
  abbrev pub after_delete : World Store → Option Store → Result (World Store × Deletion)
  after_delete w none = raise not_deleted
  after_delete w (some s) = ok (record w { store = s }, deleted)

  -- `_delete` for one memory, without the flag `all`.
  unfoldable pub delete_memory :
      ℕ → String → Option String → World Store → Result (World Store × Deletion)
  delete_memory now memory_id actor_id w =
      let guard = delete_guard memory_id w in
      if guard.participates
      then (do
        (later, result) ← set_ttl c now memory_id at_once actor_id w
        ok (later, downgraded guard.reason result))
      else after_delete w (delete w.store memory_id)
