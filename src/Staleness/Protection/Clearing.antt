-- ===== src/Staleness/Protection/Clearing.antt =====
-- src/memline/staleness.py, `clear_displacement_protection`: that nothing is left, and that a second
-- clearing finds nothing to do.
use memline.Prelude.{
  ℕ, String, ◌≡◌, refl, sym, ◌∙◌, Bool, true, false, Option, some, [], ◌∷◌, arith, any, inl, inr,
  Bool-cases, or_split, not, not_false→true,
}
use mathlib.Core.Option.{some-injective}
use memline.Result.{ok}
use memline.Dict.{Value, null, Dict, get, merge}
use memline.Memory.{MemoryClient}
use memline.Staleness.{World, no_protection, is_displacement_protected, is_ahead}
use memline.Staleness.Edges.{lookup-patched_self}
use memline.Staleness.Invalidating.{require_of}
use memline.Staleness.Protection.{
  clear_displacement_protection, unprotected, has_protection, is_null,
}

not_ahead : (v : Value) (t : ℕ) → is_null v ≡ true → is_ahead v t ≡ false
not_ahead v t h = ground arith

first_clear :
    (payload : Dict)
    → has_protection payload ≡ false
    → not (is_null (get "displacement_protected_until" payload)) ≡ false
first_clear payload h =
    (or_split (not (is_null (get "displacement_protected_until" payload)))
      (any (λ field. not (is_null (get field.0 payload))) other_fields) h).0
  where
    other_fields : Dict
    other_fields =
        ("displacement_protection_reason", null)
        ∷ ("displacement_protected_at", null)
        ∷ ("displacement_protected_by_agent_id", null)
        ∷ ("displacement_protected_by_session_id", null)
        ∷ []

-- A payload without any of the fields is not protected.
pub unset :
    (payload : Dict) (t : ℕ)
    → has_protection payload ≡ false
    → is_displacement_protected payload t ≡ false
unset payload t h =
    not_ahead (get "displacement_protected_until" payload) t
      (not_false→true _ (first_clear payload h))

module _ (c : MemoryClient) where
  open c use {Store, lookup}

  module _ (now : ℕ) (memory_id : String) (by : Option String) (w : World Store) (payload : Dict)
      (found : lookup w.store memory_id ≡ some payload) where
    cleared_found :
        (payload' : Dict)
        → lookup (unprotected c now memory_id by payload w).store memory_id ≡ some payload'
        → payload' ≡ merge no_protection payload
    cleared_found payload' e =
        some-injective _ _ (sym e ∙ lookup-patched_self c w.store memory_id _ _ found)

    -- Clearing succeeds for a memory that exists. It reports whether there was a protection; afterwards
    -- none of the fields is set, the memory is protected at no time, and a second clearing changes
    -- nothing and reports so.
    pub clear_displacement_protection_lem :
        (r : World Store × Bool) × (clear_displacement_protection c now memory_id by w ≡ ok r)
        × (r.1 ≡ has_protection payload)
        × ((payload' : Dict)
            → lookup r.0.store memory_id ≡ some payload'
            → (has_protection payload' ≡ false)
              × ((t : ℕ) → is_displacement_protected payload' t ≡ false))
        × ((later : ℕ) (by' : Option String)
            → clear_displacement_protection c later memory_id by' r.0 ≡ ok (r.0, false))
    unfolding clear_displacement_protection
    clear_displacement_protection_lem = elim (Bool-cases (has_protection payload)) [
      | inl some_field ↦ (
        (unprotected c now memory_id by payload w, true),
        rw (require_of c memory_id w payload found, some_field) refl,
        sym some_field,
        (λ payload' e. rw (cleared_found payload' e) (refl, λ t. refl)),
        (λ later by'.
            rw
              (require_of c memory_id (unprotected c now memory_id by payload w)
                (merge no_protection payload) (lookup-patched_self c w.store memory_id _ _ found))
              refl),
      )
      | inr no_field ↦ (
        (w, false),
        rw (require_of c memory_id w payload found, no_field) refl,
        sym no_field,
        (λ payload' e.
            rw (some-injective _ _ (sym e ∙ found)) (no_field, λ t. unset payload t no_field)),
        (λ later by'. rw (require_of c memory_id w payload found, no_field) refl),
      )
    ]
