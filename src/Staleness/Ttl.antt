-- ===== src/Staleness/Ttl.antt =====
-- src/memline/staleness.py: `set_ttl` and `harvest_expired`. A text of a time is what `isoformat`
-- makes of it, a parameter as `sha256` is; `uuid4 n` is the id that the harvest draws for its n-th flag.
pub mod Deadline
pub mod Harvest
use memline.Prelude.{
  ℕ, suc, ◌+◌, ◌*◌, String, Bool, true, false, ◌&&◌, ◌||◌, not, Option, none, some, List, [], ◌∷◌,
  ◌==◌, if◌then◌else◌,
}
use memline.Prelude.Table.{day}
use memline.Prelude.Texts.{append}
use memline.Result.{Result, ok, ◌>>=◌}
use memline.Dict.{Value, null, time, text, Dict, get, truthy}
use memline.Memory.{Item, MemoryClient}
use memline.Pairs.{
  Judgment, PairStore, expired, ttl, ttl_expiry, ttl_expired, close_for_old, record_judgment,
}
use memline.Staleness.{World, is_ttl_expired, text_value, require, log}

-- The keyword arguments of `set_ttl`; `days` is a span of time.
pub record Schedule : Type 0 where
  pub days : Option ℕ
  pub expires_at : Option ℕ
  pub clear : Bool
  pub expire_now : Bool

abbrev pub default_ttl : ℕ
default_ttl = 7 * day

abbrev pub span : Option ℕ → ℕ
span none = default_ttl
span (some days) = days

abbrev pub chosen_deadline : ℕ → Option ℕ → Option ℕ → ℕ
chosen_deadline now days none = now + span days
chosen_deadline now days (some t) = t

-- What `set_ttl` answers of the entry.
pub data TtlResult : Type 0 where
  ttl_cleared : TtlResult
  ttl_materialized ttl_scheduled : ℕ → TtlResult

abbrev pub ttl_patch : ℕ → Schedule → Option String → Dict
ttl_patch now s actor_id =
    if s.clear
    then ("ttl_expires_at", null) ∷ ("ttl_expired_at", null) ∷ []
    else if s.expire_now
    then ("ttl_expires_at", time now)
      ∷ ("ttl_expired_at", time now)
      ∷ ("ttl_set_at", time now)
      ∷ ("ttl_set_by", text_value actor_id)
      ∷ []
    else ("ttl_expires_at", time (chosen_deadline now s.days s.expires_at))
      ∷ ("ttl_expired_at", null)
      ∷ ("ttl_set_at", time now)
      ∷ ("ttl_set_by", text_value actor_id)
      ∷ []

abbrev pub ttl_result : ℕ → Schedule → TtlResult
ttl_result now s =
    if s.clear
    then ttl_cleared
    else if s.expire_now
    then ttl_materialized now
    else ttl_scheduled (chosen_deadline now s.days s.expires_at)

abbrev pub ttl_event : Schedule → String
ttl_event s = if s.clear then "TTL_CLEAR" else if s.expire_now then "TTL_EXPIRE" else "TTL_SET"

-- `a or b`
abbrev pub or_value : Value → Value → Value
or_value a b = if truthy a then a else b

-- `str(value or "")`, of a deadline.
abbrev pub deadline_text : (ℕ → String) → Value → String
deadline_text isoformat (time t) = isoformat t
deadline_text isoformat (text s) = s
deadline_text isoformat _ = ""

abbrev pub text_or : String → String → String
text_or s t = if s == "" then t else s

-- The item's deadline has passed, and no harvest has stamped it.
abbrev pub is_due : ℕ → Item → Bool
is_due now item =
    not (item.id == "" || truthy (get "ttl_expired_at" item.metadata))
    && (is_ttl_expired item.metadata now || is_ttl_expired item.fields now)

abbrev pub expires_of : Item → Value
expires_of item = or_value (get "ttl_expires_at" item.metadata) (get "ttl_expires_at" item.fields)

module _ (c : MemoryClient) where
  open c use {Store, update, add_history, get_all}

  unfoldable pub set_ttl :
      ℕ → String → Schedule → Option String → World Store → Result (World Store × TtlResult)
  set_ttl now memory_id s actor_id w = do
    payload ← require c memory_id w
    ok (
      record {
        store =
            log c now memory_id payload (ttl_event s) actor_id
              (update w.store memory_id (ttl_patch now s actor_id));
        pairs = (close_for_old now memory_id ttl actor_id (some ttl_expiry) w.pairs).0;
      },
      ttl_result now s,
    )

  module _ (sha256 : String → String) (isoformat : ℕ → String) (uuid4 : ℕ → String)
      (default_user_id : String) where
    -- The flag that the harvest leaves for review; its text is salted with the deadline.
    abbrev pub expiry_flag : ℕ → Item → Judgment
    expiry_flag now item =
        let expires = deadline_text isoformat (expires_of item) in
        record {
          kind = ttl_expiry;
          new_id = item.id;
          old_id = item.id;
          old_text = append item.memory (append "@@" expires);
          verdict = ttl_expired;
          confidence = some 1000;
          reason = some (
              append "ttl expired at " (
                append (text_or expires (isoformat now))
                  "; the entry left the search pool. `stale confirm` accepts the expiry, `stale ttl` renews."));
          judge_model = none;
          new_session_id = none;
        }

    abbrev pub flag_expiry : ℕ → String → Item → PairStore → PairStore
    flag_expiry now pair_id item rows =
        (record_judgment sha256 now pair_id (expiry_flag now item)
          (close_for_old now item.id expired none none rows).0).0

    abbrev pub stamped : ℕ → Item → Store → Store
    stamped now item s =
        add_history (update s item.id (("ttl_expired_at", time now) ∷ [])) (record {
          memory_id = item.id;
          old_text = item.memory;
          new_text = item.memory;
          event = "TTL_EXPIRE";
          updated_at = now;
          actor_id = none;
        })

    -- The body of the loop; the number counts the items harvested.
    abbrev pub harvest_item : ℕ → Item → World Store × ℕ → World Store × ℕ
    harvest_item now item (w, harvested) =
        if is_due now item
        then (
          record {
            store = stamped now item w.store;
            pairs = flag_expiry now (uuid4 harvested) item w.pairs;
          },
          suc harvested,
        )
        else (w, harvested)

    unfoldable pub harvest_items : ℕ → List Item → World Store × ℕ → World Store × ℕ
    harvest_items now [] state = state
    harvest_items now (item ∷ items) state = harvest_items now items (harvest_item now item state)

    abbrev pub harvest_of : ℕ → World Store → Option (List Item) → World Store × Option ℕ
    harvest_of now w none = (w, none)
    harvest_of now w (some items) =
        let (later, harvested) = harvest_items now items (w, 0) in (later, some harvested)

    -- The answer is the number harvested, and none where the scan has failed.
    unfoldable pub harvest_expired : ℕ → ℕ → World Store → World Store × Option ℕ
    harvest_expired now limit w = harvest_of now w (
        get_all w.store
          (record { user_id = some default_user_id; superseded_by = none; expires_by = some now })
          limit)
