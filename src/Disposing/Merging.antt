-- ===== src/Disposing/Merging.antt =====
-- src/memline/cli/stale.py, `stale_merge`: the newer entry of a suspicion takes the merged text, and
-- the older one is superseded by it. `updated_memory_metadata` of src/memline/cli/_support.py.
pub mod Merged
pub mod Failing
mod Tests
use memline.Prelude.{ℕ, String, Bool, true, false, Option, none, some, List, [], ◌∷◌, if◌then◌else◌}
use memline.Result.{Result}
use memline.Dict.{Value, Dict, text, time, get, has, truthy, merge}
use memline.Memory.{MemoryClient}
use memline.Pairs.{Kind, displacement, merged, Pair}
use memline.Staleness.{World}
use memline.Staleness.Updating.{update_memory}
use memline.Disposing.{
  Session, Transport, answers, stays_out, loses_reply, Refusal, Reply, Answer, Response, superseded,
  refuse, reply, no_memory, unreachable, inapplicable, execute, with_done, run_invalidate, by_of,
  or_text, manual_source, manual_session, authorized, require_disposition_authority,
  dispose_with_rollback, load_open_pair,
}

-- What `client.get` answers of a memory.
pub record Existing : Type 0 where
  pub metadata : Dict
  pub created_at : Value

-- meta.setdefault(key, value)
abbrev pub set_default : String → Value → Dict → Dict
set_default key value d = if has key d then d else (key, value) ∷ d

-- `value or fallback`
abbrev pub or_value : Value → Value → Value
or_value v fallback = if truthy v then v else fallback

abbrev pub created : Value → Dict → Dict
created created_at d = if truthy created_at then ("created_at", created_at) ∷ d else d

abbrev pub updated_memory_metadata : Value → ℕ → Session → Existing → Dict → Dict
updated_memory_metadata schema_version now who existing extra =
    ("last_updated_session_id", text (or_text who.session_id manual_session))
    ∷ ("last_updated_by_agent_id", text (or_text who.source manual_source))
    ∷ ("updated_by_cli_at", time now)
    ∷ set_default "memory_schema_version" schema_version (
        set_default "ledger_timestamp"
          (or_value (get "ledger_timestamp" existing.metadata)
            (or_value existing.created_at (time now)))
          (created existing.created_at (merge extra existing.metadata)))

abbrev pub is_displacement : Kind → Bool
is_displacement displacement = true
is_displacement _ = false

-- `view` is how the client presents a payload; `why` is the text "merged into <new_id> (pair <pair_id>)".
module _ (c : MemoryClient) (view : Dict → Existing) (sha256 : String → String)
    (schema_version : Value) (who : Session) (now : ℕ) (why pair_id merged_text : String) where
  open c use {Store, lookup}

  abbrev pub existing_of : Option Dict → Reply Existing
  existing_of none = refuse no_memory
  existing_of (some payload) = reply (view payload)

  abbrev pub received : Transport → Reply Existing → Reply Existing
  received answers existing = existing
  received stays_out existing = refuse unreachable
  received loses_reply existing = refuse unreachable

  -- _support.execute("get", {"memory_id": memory_id})
  abbrev pub get_existing : String → World Store → Reply Existing
  get_existing memory_id w = received (who.transport "get") (existing_of (lookup w.store memory_id))

  abbrev pub merge_mutation : Pair → World Store → Answer Store
  merge_mutation p w =
      with_done superseded (run_invalidate c who now p.old_id (p.new_id ∷ []) why w)

  abbrev pub merge_updated : Pair → Response Store (Option Bool) → Answer Store
  merge_updated p (later, refuse r) = (later, refuse r)
  merge_updated p (later, reply cleared) =
      dispose_with_rollback now pair_id merged (by_of who) (merge_mutation p) later

  abbrev pub merge_existing : Pair → World Store → Reply Existing → Answer Store
  merge_existing p w (refuse r) = (w, refuse r)
  merge_existing p w (reply existing) = merge_updated p (
      execute who "update" w (
        update_memory c sha256 now p.new_id merged_text
          (updated_memory_metadata schema_version now who existing
            (("merged_from", text p.old_id) ∷ []))
          w))

  abbrev pub merge_loaded : Bool → World Store → Reply Pair → Answer Store
  merge_loaded force w (refuse r) = (w, refuse r)
  merge_loaded force w (reply p) =
      if is_displacement p.kind
      then authorized c who now w (require_disposition_authority who force p)
          (merge_existing p w (get_existing p.new_id w))
      else (w, refuse (inapplicable p.kind))

  unfoldable pub stale_merge : Bool → World Store → Answer Store
  stale_merge force w = merge_loaded force w (load_open_pair pair_id w.pairs)
