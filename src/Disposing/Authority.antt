-- ===== src/Disposing/Authority.antt =====
-- src/memline/cli/_support.py, `_require_disposition_authority`: who may dispose of a suspicion.
use memline.Prelude.{
  ℕ, String, ◌≡◌, refl, sym, ap, inl, inr, Bool, true, Option, none, some, arith, eq_iff,
  Bool-cases,
}
use memline.Memory.{MemoryClient}
use memline.Pairs.{Pair, ttl_expiry, is_opened, get}
use memline.Staleness.{World}
use memline.Disposing.Leaving.{Command, confirms, defers, dismisses, perform, load_open_pair-found}
use memline.Disposing.Requests.{refused_not}
use memline.Disposing.{
  Session, Reply, refuse, reply, Done, Answer, is_correctness, is_ttl_expiry, owns, asked,
  authorized, load_open_pair, require_disposition_authority, confirm_loaded, dismiss_loaded,
  stale_confirm, stale_dismiss,
}

-- What permits it: the user's approval on the command line, an expiry flag, a suspicion that this
-- session's own write raised, or the user's answer at the terminal.
pub data May (who : Session) (force : Bool) (p : Pair) : Type 0 where
  forced : force ≡ true → May who force p
  sessionless : p.kind ≡ ttl_expiry → May who force p
  own :
      (session : String)
      → who.session_id ≡ some session
      → p.new_session_id ≡ some session
      → May who force p
  approved : who.is_interactive ≡ true → who.says_yes ≡ true → May who force p

module _ (who : Session) (force : Bool) (p : Pair) where
  owned-own :
      (mine writer : Option String)
      → who.session_id ≡ mine
      → p.new_session_id ≡ writer
      → owns mine (record p { new_session_id = writer }) ≡ true
      → May who force p
  owned-own none writer e f h = cc
  owned-own (some session) none e f h = absurd (ground arith)
  owned-own (some session) (some other) e f h =
      let same : session ≡ other = ground (arith, eq_iff other session) in own session e (rw same f)

  asked-May : asked who ≡ reply tt → May who force p
  asked-May h = approved (ground arith) (ground arith)

  pub require-May : require_disposition_authority who force p ≡ reply tt → May who force p
  unfolding require_disposition_authority
  require-May h = elim (Bool-cases force) [
    | inl yes_force ↦ forced yes_force
    | inr no_force ↦ elim (Bool-cases (is_ttl_expiry p.kind)) [
      | inl expiry ↦ sessionless (ground arith)
      | inr other ↦ elim (Bool-cases (owns who.session_id p)) [
        | inl mine ↦ owned-own who.session_id p.new_session_id refl refl mine
        | inr foreign ↦ asked-May (rw (no_force, other, foreign) at h)
      ]
    ]
  ]

-- The force flag of the commands that want authority; `stale ttl` keeps the entry in the pool and
-- wants none.
abbrev pub gate : Command → Option Bool
gate (confirms force) = some force
gate (defers days) = none
gate (dismisses force) = some force

module _ (c : MemoryClient) (who : Session) (now : ℕ) (why pair_id : String) where
  open c use {Store}

  -- What permits a command on the open pair of that id.
  abbrev pub Permitted : Bool → World Store → Type 0
  Permitted force w =
      (p : Pair) × (get pair_id w.pairs ≡ some p)
      × (is_opened p.disposition ≡ true)
      × May who force p

  authorized-reply :
      (allowed : Reply (Unit {0})) (next : Answer Store) (w w' : World Store) (done : Done)
      → authorized c who now w allowed next ≡ (w', reply done)
      → allowed ≡ reply tt
  authorized-reply (refuse r) next w w' done h = cc
  authorized-reply (reply _) next w w' done h = refl

  loaded-Permitted :
      (force : Bool) (w : World Store) (p : Pair)
      → load_open_pair pair_id w.pairs ≡ reply p
      → require_disposition_authority who force p ≡ reply tt
      → Permitted force w
  loaded-Permitted force w p loaded allowed =
      let found = load_open_pair-found c who now why pair_id w.pairs p loaded in
      (p, found.0, found.1, require-May who force p allowed)

  confirm-Permitted :
      (force : Bool) (loaded : Reply Pair) (w w' : World Store) (done : Done)
      → load_open_pair pair_id w.pairs ≡ loaded
      → confirm_loaded c who now why pair_id force w loaded ≡ (w', reply done)
      → Permitted force w
  confirm-Permitted force (refuse r) w w' done e h = cc
  confirm-Permitted force (reply p) w w' done e h = elim (Bool-cases (is_correctness p.kind)) [
    | inl no_confirm ↦ absurd (refused_not (ap (λ (r : Answer Store). r.1) (rw no_confirm at h)))
    | inr confirmable ↦ loaded-Permitted force w p e (
        authorized-reply (require_disposition_authority who force p) _ w w' done
          (rw confirmable at h))
  ]

  dismiss-Permitted :
      (force : Bool) (loaded : Reply Pair) (w w' : World Store) (done : Done)
      → load_open_pair pair_id w.pairs ≡ loaded
      → dismiss_loaded c who now pair_id force w loaded ≡ (w', reply done)
      → Permitted force w
  dismiss-Permitted force (refuse r) w w' done e h = cc
  dismiss-Permitted force (reply p) w w' done e h =
      loaded-Permitted force w p e
        (authorized-reply (require_disposition_authority who force p) _ w w' done h)

  -- A confirmation or a dismissal that does not raise found its pair open, and was permitted: by the
  -- force flag, since the pair is an expiry flag, since this session's own write raised it, or by the
  -- user's answer at an interactive terminal.
  pub perform-Permitted :
      (command : Command) (force : Bool) (w w' : World Store) (done : Done)
      → gate command ≡ some force
      → perform c who now why pair_id command w ≡ (w', reply done)
      → Permitted force w
  unfolding perform stale_confirm stale_dismiss
  perform-Permitted (confirms f) force w w' done g h =
      let same : f ≡ force = ground arith in
      rw (sym same) (confirm-Permitted f (load_open_pair pair_id w.pairs) w w' done refl h)
  perform-Permitted (defers days) force w w' done g h = cc
  perform-Permitted (dismisses f) force w w' done g h =
      let same : f ≡ force = ground arith in
      rw (sym same) (dismiss-Permitted f (load_open_pair pair_id w.pairs) w w' done refl h)
