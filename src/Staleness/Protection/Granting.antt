-- ===== src/Staleness/Protection/Granting.antt =====
-- src/memline/staleness.py, `set_displacement_protection`: when it is granted, and for how long.
use memline.Prelude.{
  ℕ, ◌+◌, ◌*◌, ◌≤◌, ◌<◌, String, ◌≡◌, ◌≢◌, refl, sym, ap, ◌∙◌, subst, false, some, [], ltb, leb,
  arith, or_split, not_ltb→le, not_false→true, eq_iff, length, ◌==◌,
}
use mathlib.Core.Option.{some-injective}
use memline.Prelude.Table.{day}
use memline.Prelude.Texts.{strip, characters}
use memline.Result.{ok, >>=-eq-ok, refuse_if-eq-ok}
use memline.Dict.{Dict, merge}
use memline.Memory.{MemoryClient}
use memline.Supersession.{is_invalidated}
use memline.Pairs.{consecutive_dismissed_displacement_evidence, latest_evidence}
use memline.Pairs.Dismissals.{Independent, evidence_eligible}
use memline.Staleness.{World, Actor, is_ttl_expired, is_displacement_protected, data_of, require}
use memline.Staleness.Edges.{
  text_at, patched-successors, patched-text, lookup-patched_self, lookup-patched_ne,
}
use memline.Staleness.Invalidating.{graph, found_of}
use memline.Staleness.Protection.{
  Protection, stripped, protect, protection_patch, set_displacement_protection,
}

not_blank : (s : String) → (s == "") ≡ false → s ≢ ""
not_blank s h e = ground (arith, eq_iff s "")

ok-injective : {A : Type 0} {a b : A} → ok a ≡ ok b → a ≡ b
ok-injective e = cc

module _ (c : MemoryClient) (sha256 : String → String) where
  open c use {Store, lookup}

  -- What a protection asks for, and the state that it leaves.
  pub record Granted (now : ℕ) (memory_id : String) (days : ℕ) (reason : String) (who : Actor)
      (w : World Store) (r : World Store × Protection) : Type 0 where
    pub payload : Dict
    pub found : lookup w.store memory_id ≡ some payload
    pub active : is_invalidated payload ≡ false
    pub unexpired : is_ttl_expired payload now ≡ false
    pub reasoned : strip reason ≢ ""
    pub short : characters (strip reason) ≤ 500
    pub some_days : 0 < days
    pub few_days : days ≤ 90 * day
    pub actor : stripped who.actor_id ≢ ""
    pub session : stripped who.session_id ≢ ""
    pub three : length (latest_evidence sha256 memory_id (data_of payload) 3 w.pairs) ≡ 3
    pub dismissed_all :
        Independent [] (latest_evidence sha256 memory_id (data_of payload) 3 w.pairs)
    pub until : r.1.protected_until ≡ now + days
    pub state : r.0 ≡ protect c now memory_id payload r.1 w

  module _ (now : ℕ) (memory_id : String) (days : ℕ) (reason : String) (who : Actor)
      (w : World Store) (r : World Store × Protection)
      (done : set_displacement_protection c sha256 now memory_id days reason who w ≡ ok r) where
    -- A protection is granted only to a memory that exists, is not superseded and has not expired, for a
    -- reason of 1 to 500 characters, a span of more than 0 and at most 90 days, an agent and a session
    -- that are not blank, and when the three latest displacement suspicions of its text that were strong
    -- enough to open are all dismissed and come from distinct entries.
    pub granted : Granted now memory_id days reason who w r
    unfolding set_displacement_protection
    granted =
        let (payload, found, e1) = >>=-eq-ok (require c memory_id w) _ done in
        let (active, e2) = refuse_if-eq-ok _ _ _ e1 in
        let (unexpired, e3) = refuse_if-eq-ok _ _ _ e2 in
        let (reasoned, e4) = refuse_if-eq-ok _ _ _ e3 in
        let (short, e5) = refuse_if-eq-ok _ _ _ e4 in
        let (span, e6) = refuse_if-eq-ok _ _ _ e5 in
        let (writer, e7) = refuse_if-eq-ok _ _ _ e6 in
        let (evidence, judged, e8) =
          >>=-eq-ok
            (consecutive_dismissed_displacement_evidence sha256 memory_id (data_of payload) 3
              w.pairs)
            _ e7 in
        let (eligible, e9) = refuse_if-eq-ok _ _ _ e8 in
        let (answer, same, exact) =
          evidence_eligible sha256 memory_id (data_of payload) 2 w.pairs in
        let alike : answer ≡ evidence = ok-injective (sym same ∙ judged) in
        let (three, all) = exact.0 (rw alike (not_false→true _ eligible)) in
        let (no_zero, few) = or_split (leb days 0) _ span in
        let (actor, session) = or_split (stripped who.actor_id == "") _ writer in
        record {
          payload = payload;
          found = found_of c memory_id w payload found;
          active = active;
          unexpired = unexpired;
          reasoned = not_blank _ reasoned;
          short = not_ltb→le _ _ short;
          some_days = ground arith;
          few_days = not_ltb→le _ _ few;
          actor = not_blank _ actor;
          session = not_blank _ session;
          three = three;
          dismissed_all = all;
          until = ap (λ x. x.1.protected_until) (sym (ok-injective e9));
          state = subst (λ x. x.0 ≡ protect c now memory_id payload x.1 w) (ok-injective e9) refl;
        }

    merged : lookup r.0.store memory_id ≡ some (merge (protection_patch now r.1) granted.payload)
    merged = rw granted.state (lookup-patched_self c w.store memory_id _ _ granted.found)

    until_asked : r.1.protected_until ≡ now + days
    until_asked = granted.until

    -- A protection that is granted holds before the end of its span, counted from the grant, and not from
    -- then on; no supersession, no text, no other payload and no pair changes.
    pub set_displacement_protection_lem :
        ((payload : Dict) (t : ℕ)
          → lookup r.0.store memory_id ≡ some payload
          → is_displacement_protected payload t ≡ ltb t (now + days))
        × ((x : String) → graph c r.0 x ≡ graph c w x)
        × ((x : String) → text_at (lookup r.0.store x) ≡ text_at (lookup w.store x))
        × ((x : String) → x ≢ memory_id → lookup r.0.store x ≡ lookup w.store x)
        × (r.0.pairs ≡ w.pairs)
    set_displacement_protection_lem = (
      (λ payload t e. rw (some-injective _ _ (sym e ∙ merged), until_asked) refl),
      (λ x. rw granted.state (patched-successors c w.store memory_id _ _ refl x)),
      (λ x. rw granted.state (patched-text c w.store memory_id _ _ refl x)),
      (λ x other. rw granted.state (lookup-patched_ne c w.store memory_id _ _ x other)),
      ap (λ v. v.pairs) granted.state,
    )
