-- ===== src/Disposing/Confirming.antt =====
-- src/memline/cli/stale.py, `stale_confirm`: what a confirmation that succeeds has done.
use memline.Prelude.{
  ℕ, String, ◌≡◌, refl, ap, inl, inr, Bool, true, false, some, [], ◌∷◌, Bool-cases,
}
use memline.Pairs.{Pair, displacement, confirmed, is_opened, close, get, open_for_old_ids}
use memline.Memory.{MemoryClient}
use memline.Staleness.{World}
use memline.Staleness.Invalidating.{graph}
use memline.Disposing.{
  Session, Done, Answer, reply, load_open_pair, by_of, reason_or, is_correctness,
  require_disposition_authority, confirm_mutation, stale_confirm,
}
use memline.Disposing.Authority.{May, require-May}
use memline.Disposing.Requests.{refused_not}
use memline.Disposing.Superseding.{authorized_reply, follow_up, dispose-Superseded}

module _ (c : MemoryClient) (who : Session) (now : ℕ) (why pair_id : String) where
  open c use {Store}

  live_of :
      (force : Bool) (w w' : World Store) (done : Done) (p : Pair)
      → get pair_id w.pairs ≡ some p
      → stale_confirm c who now why pair_id force w ≡ (w', reply done)
      → is_opened p.disposition ≡ true
  unfolding stale_confirm load_open_pair
  live_of force w w' done p found h = elim (Bool-cases (is_opened p.disposition)) [
    | inl live ↦ live
    | inr over ↦ absurd (refused_not (ap (λ (r : Answer Store). r.1) (rw (found, over) at h)))
  ]

  -- A confirmation of a displacement suspicion that succeeds was permitted, and has marked the pair
  -- itself as confirmed by the caller (not as obsoleted, although the invalidation closes the open pairs
  -- against the old memory), has made the new memory the one successor of the old one, and has left no
  -- open pair against the old memory.
  pub stale_confirm_lem :
      (force : Bool) (w w' : World Store) (done : Done) (p : Pair)
      → get pair_id w.pairs ≡ some p
      → p.kind ≡ displacement
      → stale_confirm c who now why pair_id force w ≡ (w', reply done)
      → May who force p
        × (get pair_id w'.pairs ≡ some (close now confirmed (by_of who) p))
        × (graph c w' p.old_id ≡ p.new_id ∷ [])
        × (open_for_old_ids (p.old_id ∷ []) w'.pairs p.old_id ≡ [])
  unfolding stale_confirm load_open_pair
  stale_confirm_lem force w w' done p found kind h =
      let live = live_of force w w' done p found h in
      let other_kind : is_correctness p.kind ≡ false = rw kind refl in
      let e = rw (found, live, other_kind) at h in
      let (allowed, next) =
        authorized_reply c who now pair_id w w' done (require_disposition_authority who force p) _
          e in
      let same : confirm_mutation c who now p.kind why p
          ≡ follow_up c who now pair_id confirmed (reason_or p.reason why) p =
        rw kind refl in
      let it =
        dispose-Superseded c who now pair_id confirmed (reason_or p.reason why) w w' done p refl
          found live (rw same at next) in
      (require-May who force p allowed, it.itself, it.successor, it.none_open)
