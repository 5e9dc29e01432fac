-- ===== src/Disposing/Leaving.antt =====
-- src/memline/cli/stale.py: the commands on a suspicion, and what one that raises can leave behind.
use memline.Prelude.{
  ℕ, String, ◌≡◌, sym, ap, ◌∙◌, ◌⊎◌, inl, inr, Bool, true, Option, none, some, [], ◌∷◌, arith,
  Bool-cases, Option-cases,
}
use memline.Result.{ok}
use memline.Pairs.{
  Pair, PairStore, ttl_expiry, Disposition, confirmed, obsoleted, ttl, is_opened, is_reopenable,
  is_disposal, close, get,
}
use memline.Memory.{MemoryClient}
use memline.Staleness.{World, invalidate}
use memline.Staleness.Invalidating.{invalidate-Accepted}
use memline.Staleness.Ttl.{Schedule, TtlResult, set_ttl}
use memline.Staleness.Ttl.Deadline.{set_ttl_iff}
use memline.Disposing.{
  Session, loses_reply, Refusal, unreachable, Reply, Answer, refuse, reply, load_open_pair, by_of,
  actor_of, reason_or, expire_now, in_days, authorized, stale_confirm, stale_ttl, stale_dismiss,
}
use memline.Disposing.Requests.{refused_not}
use memline.Disposing.Rollback.{Tidy, between, with_reopened, with_reopened-between, get-reopen}
use memline.Disposing.Superseding.{get-followed}

-- The commands that dispose of a suspicion.
pub data Command : Type 0 where
  confirms : Bool → Command
  defers : Option ℕ → Command
  dismisses : Bool → Command

module _ (c : MemoryClient) (who : Session) (now : ℕ) (why pair_id : String) where
  open c use {Store}

  unfoldable pub perform : Command → World Store → Answer Store
  unfolding stale_confirm stale_ttl stale_dismiss
  perform (confirms force) w = stale_confirm c who now why pair_id force w
  perform (defers days) w = stale_ttl c who now pair_id days w
  perform (dismisses force) w = stale_dismiss c who now pair_id force w

  pub load_open_pair-found :
      (rows : PairStore) (p : Pair)
      → load_open_pair pair_id rows ≡ reply p
      → (get pair_id rows ≡ some p) × (is_opened p.disposition ≡ true)
  unfolding load_open_pair
  load_open_pair-found rows p h = elim (Option-cases (get pair_id rows)) [
    | inl missing ↦ absurd (refused_not (rw missing at h))
    | inr (q, e) ↦ elim (Bool-cases (is_opened q.disposition)) [
      | inl live ↦ let same : q ≡ p = ground arith in rw (sym same) (e, live)
      | inr over ↦ absurd (refused_not (rw (e, over) at h))
    ]
  ]

  abbrev pub settled : Disposition → World Store → World Store
  settled d w = between now pair_id d (by_of who) w

  -- What the daemon executed although the command got no reply: the follow-up, with all its effect, on
  -- the state in which the pair is disposed of.
  pub data Unanswered (p : Pair) (w v : World Store) : Command → Type 0 where
    invalidated :
        {force : Bool} (closed : ℕ)
        → who.transport "invalidate" ≡ loses_reply
        → invalidate c now p.old_id
            (p.new_id ∷ [])
            (some (reason_or p.reason why))
            (actor_of who)
            (settled confirmed w)
          ≡ ok (v, closed)
        → Unanswered p w v (confirms force)
    expired :
        {force : Bool} (t : TtlResult)
        → who.transport "set_ttl" ≡ loses_reply
        → set_ttl c now p.old_id expire_now (by_of who) (settled confirmed w) ≡ ok (v, t)
        → Unanswered p w v (confirms force)
    deferred :
        {days : Option ℕ} (t : TtlResult)
        → who.transport "set_ttl" ≡ loses_reply
        → set_ttl c now p.old_id (in_days days) (by_of who) (settled ttl w) ≡ ok (v, t)
        → Unanswered p w v (defers days)

  -- What a command that raises leaves: everything as it was, or the effect of its follow-up, with the pair
  -- open again as it was.
  pub data Remains (command : Command) (w w' : World Store) (r : Refusal) : Type 0 where
    untouched : w' ≡ w → Remains command w w' r
    unanswered :
        (p : Pair) (v : World Store)
        → Unanswered p w v command
        → r ≡ unreachable
        → w' ≡ with_reopened pair_id v
        → get pair_id w.pairs ≡ some p
        → get pair_id w'.pairs ≡ some p
        → Remains command w w' r

  pub authorized-Remains :
      (command : Command) (allowed : Reply (Unit {0})) (next : Answer Store) (w w' : World Store)
      (r : Refusal)
      → (next ≡ (w', refuse r) → Remains command w w' r)
      → authorized c who now w allowed next ≡ (w', refuse r)
      → Remains command w w' r
  authorized-Remains command (refuse r') next w w' r rolled h = untouched (ground arith)
  authorized-Remains command (reply done) next w w' r rolled h = rolled h

  module _ (command : Command) (d : Disposition) (w w' : World Store) (p : Pair) (r : Refusal)
      (tidy : Tidy w.pairs) (found : get pair_id w.pairs ≡ some p)
      (live : is_opened p.disposition ≡ true) (reopens : is_reopenable d ≡ true) where
    final : is_disposal d ≡ true
    final = ground arith

    -- The follow-up did nothing, or it did what it does and its reply was lost.
    pub raised-Remains :
        (v : World Store)
        → w' ≡ with_reopened pair_id v
        → (v ≡ settled d w)
          ⊎ (Unanswered p w v command
              × (r ≡ unreachable)
              × (get pair_id v.pairs ≡ some (close now d (by_of who) p)))
        → Remains command w w' r
    raised-Remains v left (inl nothing) = untouched (
        left
        ∙ ap (with_reopened pair_id) nothing
        ∙ with_reopened-between now pair_id d (by_of who) (λ u. (u, refuse r)) w p tidy found live
            reopens)
    raised-Remains v left (inr (ran, lost, shown)) = unanswered p v ran lost left found (
        ap (λ (u : World Store). get pair_id u.pairs) left
        ∙ get-reopen now pair_id d (by_of who) w.pairs v.pairs p tidy found live reopens shown)

    pub invalidate-shown :
        (reason : String) (v : World Store) (closed : ℕ)
        → invalidate c now p.old_id (p.new_id ∷ []) (some reason) (actor_of who) (settled d w)
          ≡ ok (v, closed)
        → get pair_id v.pairs ≡ some (close now d (by_of who) p)
    invalidate-shown reason v closed e =
        let a =
          invalidate-Accepted c now p.old_id (p.new_id ∷ []) (some reason) (actor_of who)
            (settled d w) (v, closed) e in
        ap (λ (x : World Store × ℕ). get pair_id x.0.pairs) a.state
        ∙ get-followed c who now pair_id d reason obsoleted none w p final found live

    pub ttl-shown :
        (s : Schedule) (v : World Store) (t : TtlResult)
        → set_ttl c now p.old_id s (by_of who) (settled d w) ≡ ok (v, t)
        → get pair_id v.pairs ≡ some (close now d (by_of who) p)
    ttl-shown s v t e =
        let a = (set_ttl_iff c now p.old_id s (by_of who) (settled d w) (v, t)).0 e in
        ap (λ (x : World Store × TtlResult). get pair_id x.0.pairs) a.state
        ∙ get-followed c who now pair_id d "" ttl (some ttl_expiry) w p final found live
