-- ===== src/Staleness/Protection.antt =====
-- src/memline/staleness.py: `set_displacement_protection` and `clear_displacement_protection`.
pub mod Granting
pub mod Clearing
use memline.Prelude.{
  ℕ, ◌+◌, ◌*◌, String, Bool, true, false, ◌||◌, not, Option, none, some, List, [], ◌∷◌, ltb, leb,
  any, ◌==◌, if◌then◌else◌,
}
use memline.Prelude.Table.{day}
use memline.Prelude.Texts.{strip, characters}
use memline.Result.{
  Result, ok, ◌>>=◌, ◌>>◌, refuse_if, protects_invalidated, protects_expired, empty_reason,
  reason_too_long, days_out_of_range, no_writer, not_eligible,
}
use memline.Dict.{Value, null, time, text, Dict, get}
use memline.Memory.{MemoryClient}
use memline.Supersession.{is_invalidated}
use memline.Pairs.{Evidence, consecutive_dismissed_displacement_evidence}
use memline.Staleness.{World, Actor, is_ttl_expired, no_protection, data_of, require, log}

abbrev pub max_displacement_protection_days : ℕ
max_displacement_protection_days = 90

abbrev pub max_displacement_protection_reason_chars : ℕ
max_displacement_protection_reason_chars = 500

abbrev pub required_consecutive_false_positives : ℕ
required_consecutive_false_positives = 3

-- `(value or "").strip()`
abbrev pub stripped : Option String → String
stripped none = ""
stripped (some s) = strip s

-- What `set_displacement_protection` answers.
pub record Protection : Type 0 where
  pub protected_until : ℕ
  pub reason : String
  pub protected_by_agent_id : String
  pub protected_by_session_id : String
  pub evidence : Evidence

abbrev pub protection : ℕ → ℕ → String → Actor → Evidence → Protection
protection now days reason who evidence = record {
  protected_until = now + days;
  reason = strip reason;
  protected_by_agent_id = stripped who.actor_id;
  protected_by_session_id = stripped who.session_id;
  evidence = evidence;
}

abbrev pub protection_patch : ℕ → Protection → Dict
protection_patch now p =
    ("displacement_protected_until", time p.protected_until)
    ∷ ("displacement_protection_reason", text p.reason)
    ∷ ("displacement_protected_at", time now)
    ∷ ("displacement_protected_by_agent_id", text p.protected_by_agent_id)
    ∷ ("displacement_protected_by_session_id", text p.protected_by_session_id)
    ∷ []

abbrev pub is_null : Value → Bool
is_null null = true
is_null _ = false

-- changed = any(payload.get(field) is not None for field in fields)
abbrev pub has_protection : Dict → Bool
has_protection payload = any (λ field. not (is_null (get field.0 payload))) no_protection

module _ (c : MemoryClient) where
  open c use {Store, update}

  abbrev pub protect : ℕ → String → Dict → Protection → World Store → World Store
  protect now memory_id payload p w = record w {
    store =
        log c now memory_id payload "PROTECT_DISPLACEMENT" (some p.protected_by_agent_id)
          (update w.store memory_id (protection_patch now p));
  }

  -- `days` is a span of time.
  unfoldable pub set_displacement_protection :
      (String → String)
      → ℕ
      → String
      → ℕ
      → String
      → Actor
      → World Store
      → Result (World Store × Protection)
  set_displacement_protection sha256 now memory_id days reason who w = do
    payload ← require c memory_id w
    refuse_if (is_invalidated payload) protects_invalidated
    refuse_if (is_ttl_expired payload now) protects_expired
    refuse_if (strip reason == "") empty_reason
    refuse_if (ltb max_displacement_protection_reason_chars (characters (strip reason)))
        reason_too_long
    refuse_if (leb days 0 || ltb (max_displacement_protection_days * day) days) days_out_of_range
    refuse_if (stripped who.actor_id == "" || stripped who.session_id == "") no_writer
    evidence ←
        consecutive_dismissed_displacement_evidence sha256 memory_id (data_of payload)
          required_consecutive_false_positives w.pairs
    refuse_if (not evidence.eligible) not_eligible
    let p = protection now days reason who evidence
    ok (protect now memory_id payload p w, p)

  abbrev pub unprotected : ℕ → String → Option String → Dict → World Store → World Store
  unprotected now memory_id actor_id payload w = record w {
    store =
        log c now memory_id payload "UNPROTECT_DISPLACEMENT" actor_id
          (update w.store memory_id no_protection);
  }

  -- The Boolean says whether there was a protection to clear.
  unfoldable pub clear_displacement_protection :
      ℕ → String → Option String → World Store → Result (World Store × Bool)
  clear_displacement_protection now memory_id actor_id w = do
    payload ← require c memory_id w
    ok (
        if has_protection payload
        then (unprotected now memory_id actor_id payload w, true)
        else (w, false))
