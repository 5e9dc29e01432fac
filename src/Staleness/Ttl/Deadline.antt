-- ===== src/Staleness/Ttl/Deadline.antt =====
-- src/memline/staleness.py, `set_ttl`: when the entry is out of the pool afterwards.
use memline.Prelude.{
  ℕ, ◌+◌, String, ◌≡◌, ◌≢◌, refl, sym, ap, ◌∙◌, subst, filter-map_nil, Bool, false, Option, none,
  some, [], leb, arith, if◌then◌else◌, filter, In, Bool-cases, inl, inr, ◌↔◌,
}
use memline.Prelude.Table.{update_where}
use memline.Prelude.Order.{updated, In-update_where}
use mathlib.Core.Option.{some-injective}
use memline.Result.{ok, >>=-eq-ok}
use memline.Dict.{Dict, merge, has}
use memline.Memory.{MemoryClient}
use memline.Pairs.{Pair, same_kind, ttl, ttl_expiry, is_open_for_old, close, close_for_old}
use memline.Staleness.{World, is_ttl_expired, require, log}
use memline.Staleness.Edges.{
  text_at, patched-successors, patched-text, lookup-patched_self, lookup-patched_ne,
}
use memline.Staleness.Invalidating.{graph, found_of, require_of}
use memline.Staleness.Ttl.{
  Schedule, TtlResult, chosen_deadline, span, ttl_patch, ttl_event, ttl_result, set_ttl,
}

-- What the arguments ask for, in the order in which they win.
abbrev pub asked : ℕ → Schedule → Option ℕ
asked now s =
    if s.clear
    then none
    else if s.expire_now
    then some now
    else some (elim s.expires_at [ none ↦ now + span s.days | some t ↦ t ])

abbrev pub has_passed : Option ℕ → ℕ → Bool
has_passed none t = false
has_passed (some d) t = leb d t

module _ (c : MemoryClient) where
  open c use {Store, lookup}

  pub record Scheduled (now : ℕ) (memory_id : String) (s : Schedule) (by : Option String)
      (w : World Store) (r : World Store × TtlResult) : Type 0 where
    pub payload : Dict
    pub found : lookup w.store memory_id ≡ some payload
    pub state : r ≡ (
      record {
        store =
            log c now memory_id payload
              (ttl_event s)
              by
              (c.update w.store memory_id (ttl_patch now s by));
        pairs = (close_for_old now memory_id ttl by (some ttl_expiry) w.pairs).0;
      },
      ttl_result now s,
    )

  -- A deadline is set exactly for a memory that exists; this is the state that it leaves.
  pub set_ttl_iff :
      (now : ℕ) (memory_id : String) (s : Schedule) (by : Option String) (w : World Store)
      (r : World Store × TtlResult)
      → (set_ttl c now memory_id s by w ≡ ok r) ↔ Scheduled now memory_id s by w r
  unfolding set_ttl
  set_ttl_iff now memory_id s by w r = (
    (λ e.
        let (payload, found, e1) = >>=-eq-ok (require c memory_id w) _ e in
        record { payload = payload; found = found_of c memory_id w payload found; state = cc }),
    (λ a. rw (require_of c memory_id w a.payload a.found) (ap ok (sym a.state))),
  )

  -- The memory exists: the deadline is set.
  pub set_ttl-ok :
      (now : ℕ) (memory_id : String) (s : Schedule) (by : Option String) (w : World Store)
      (payload : Dict)
      → lookup w.store memory_id ≡ some payload
      → (r : World Store × TtlResult) × (set_ttl c now memory_id s by w ≡ ok r)
  set_ttl-ok now memory_id s by w payload found = (
    _,
    (set_ttl_iff now memory_id s by w _).1
        (record { payload = payload; found = found; state = refl }),
  )

  module _ (now : ℕ) (s : Schedule) (by : Option String) where
    chosen :
        (e : Option ℕ)
        → chosen_deadline now s.days e ≡ elim e [ none ↦ now + span s.days | some t ↦ t ]
    chosen none = refl
    chosen (some t) = refl

    deadline_of_patch :
        (payload : Dict) (t : ℕ)
        → is_ttl_expired (merge (ttl_patch now s by) payload) t ≡ has_passed (asked now s) t
    deadline_of_patch payload t = elim (Bool-cases s.clear) [
      | inl clears ↦ rw clears refl
      | inr kept ↦ elim (Bool-cases s.expire_now) [
        | inl at_once ↦ rw (kept, at_once) refl
        | inr later ↦ rw (kept, later, chosen s.expires_at) refl
      ]
    ]

    patch_leaves : has "superseded_by" (ttl_patch now s by) ≡ false
    patch_leaves = elim (Bool-cases s.clear) [
      | inl clears ↦ rw clears refl
      | inr kept ↦ elim (Bool-cases s.expire_now) [
        | inl at_once ↦ rw (kept, at_once) refl
        | inr later ↦ rw (kept, later) refl
      ]
    ]

    patch_leaves_text : has "data" (ttl_patch now s by) ≡ false
    patch_leaves_text = ground arith

  module _ (now : ℕ) (memory_id : String) (s : Schedule) (by : Option String) (w : World Store)
      (r : World Store × TtlResult) (done : set_ttl c now memory_id s by w ≡ ok r) where
    scheduled : Scheduled now memory_id s by w r
    scheduled = (set_ttl_iff now memory_id s by w r).0 done

    merged : lookup r.0.store memory_id ≡ some (merge (ttl_patch now s by) scheduled.payload)
    merged = rw scheduled.state (lookup-patched_self c w.store memory_id _ _ scheduled.found)

    unflagged :
        (p : Pair)
        → is_open_for_old memory_id
            (some ttl_expiry)
            (updated (is_open_for_old memory_id (some ttl_expiry)) (close now ttl by) p)
          ≡ false
    unflagged p = elim (Bool-cases (is_open_for_old memory_id (some ttl_expiry) p)) [
      | inl hit ↦ rw (hit, updated) (ground arith)
      | inr miss ↦ rw (miss, updated) miss
    ]

    others_stay : (p : Pair) → same_kind p.kind ttl_expiry ≡ false → In p w.pairs → In p r.0.pairs
    unfolding close_for_old
    others_stay p other i =
        let miss : is_open_for_old memory_id (some ttl_expiry) p ≡ false = ground arith in
        let same : updated (is_open_for_old memory_id (some ttl_expiry)) (close now ttl by) p ≡ p =
          rw (updated, miss) refl in
        rw scheduled.state (
          subst
            (λ q. In q (
              update_where (is_open_for_old memory_id (some ttl_expiry)) (close now ttl by)
                w.pairs))
            same
            (In-update_where (is_open_for_old memory_id (some ttl_expiry)) (close now ttl by) p
              w.pairs i))

    no_flag : filter (is_open_for_old memory_id (some ttl_expiry)) r.0.pairs ≡ []
    unfolding close_for_old
    no_flag = rw scheduled.state (
        filter-map_nil (is_open_for_old memory_id (some ttl_expiry))
          (updated (is_open_for_old memory_id (some ttl_expiry)) (close now ttl by)) unflagged
          w.pairs)

    -- After `set_ttl`, the memory counts as expired at a time exactly when the deadline asked for has
    -- passed (a request to clear wins over one to expire now, which wins over a given deadline, which wins
    -- over a number of days, seven if none is given), no open expiry flag accuses it, pairs of other kinds
    -- stay, and no supersession, no text and no other payload changes.
    pub set_ttl_lem :
        ((payload : Dict) (t : ℕ)
          → lookup r.0.store memory_id ≡ some payload
          → is_ttl_expired payload t ≡ has_passed (asked now s) t)
        × (filter (is_open_for_old memory_id (some ttl_expiry)) r.0.pairs ≡ [])
        × ((p : Pair) → same_kind p.kind ttl_expiry ≡ false → In p w.pairs → In p r.0.pairs)
        × ((x : String) → graph c r.0 x ≡ graph c w x)
        × ((x : String) → text_at (lookup r.0.store x) ≡ text_at (lookup w.store x))
        × ((x : String) → x ≢ memory_id → lookup r.0.store x ≡ lookup w.store x)
    set_ttl_lem = (
      (λ payload t e.
          rw (some-injective _ _ (sym e ∙ merged))
            (deadline_of_patch now s by scheduled.payload t)),
      no_flag,
      others_stay,
      (λ x.
          rw scheduled.state
            (patched-successors c w.store memory_id _ _ (patch_leaves now s by) x)),
      (λ x.
          rw scheduled.state (patched-text c w.store memory_id _ _ (patch_leaves_text now s by) x)),
      (λ x other. rw scheduled.state (lookup-patched_ne c w.store memory_id _ _ x other)),
    )
