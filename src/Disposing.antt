-- ===== src/Disposing.antt =====
-- src/memline/cli/stale.py: the commands that dispose of an open suspicion, with their helpers in
-- src/memline/cli/_support.py. The daemon executes the operations on the same pair table. A command
-- answers the state that it leaves, also when it raises. The audit rows and the printing are left out.
pub mod Authority
pub mod Requests
pub mod Rollback
pub mod Leaving
pub mod Refusing
pub mod Superseding
pub mod Confirming
pub mod Merging
mod Tests
use memline.Prelude.{
  ℕ, String, Bool, true, false, ◌&&◌, ◌||◌, not, Option, none, some, List, [], ◌∷◌, ◌==◌,
  if◌then◌else◌,
}
use memline.Result.{Error, Result, raise, ok}
use memline.Memory.{MemoryClient}
use memline.Pairs.{
  Kind, displacement, necessity, correctness, ttl_expiry, safety, Disposition, confirmed, dismissed,
  ttl, Pair, PairStore, is_opened, is_text, get, dispose, reopen,
}
use memline.Staleness.{World, Actor, invalidate}
use memline.Staleness.Ttl.{Schedule, TtlResult, set_ttl}

-- What becomes of a request to the daemon: it is executed and answered, it never arrives, or it is
-- executed and its reply is lost (the read fails or times out, also through the bridge). A request that
-- is executed after the command has given up is a call of its own.
pub data Transport : Type 0 where
  answers stays_out loses_reply : Transport

-- Who runs the command: the writer context, whether the terminal is interactive and what the user
-- answers there, and what becomes of the requests, by their operation.
pub record Session : Type 0 where
  pub source : Option String
  pub session_id : Option String
  pub is_interactive : Bool
  pub says_yes : Bool
  pub transport : String → Transport

-- ClickException, told apart by the messages.
pub data Refusal : Type 0 where
  pair_not_found : Refusal
  not_open : Disposition → Refusal
  inapplicable : Kind → Refusal
  denied declined unreachable no_memory : Refusal
  failed : Error → Refusal

pub data Reply {ℓ} (A : Type ℓ) : Type ℓ where
  refuse : Refusal → Reply A
  reply : A → Reply A

-- What the follow-up of a disposition did.
pub data Done : Type 0 where
  expiry_accepted : String → Done
  expired_now scheduled : TtlResult → Done
  superseded : ℕ → Done
  noted : Done

-- MANUAL_SOURCE and MANUAL_SESSION, as they are unless the configuration names others.
abbrev pub manual_source : String
manual_source = "manual"

abbrev pub manual_session : String
manual_session = "manual-session"

-- `context.get(key) or fallback`
abbrev pub or_text : Option String → String → String
or_text none fallback = fallback
or_text (some s) fallback = if s == "" then fallback else s

abbrev pub actor_of : Session → Actor
actor_of who = record {
  actor_id = some (or_text who.source manual_source);
  session_id = some (or_text who.session_id manual_session);
}

abbrev pub by_of : Session → Option String
by_of who = some (or_text who.source manual_source)

-- `pair.get("reason") or …`
abbrev pub reason_or : Option String → String → String
reason_or reason fallback = or_text reason fallback

abbrev pub open_pair : Option Pair → Reply Pair
open_pair none = refuse pair_not_found
open_pair (some p) = if is_opened p.disposition then reply p else refuse (not_open p.disposition)

unfoldable pub load_open_pair : String → PairStore → Reply Pair
load_open_pair pair_id rows = open_pair (get pair_id rows)

abbrev pub is_ttl_expiry : Kind → Bool
is_ttl_expiry ttl_expiry = true
is_ttl_expiry _ = false

-- own_session and pair.get("new_session_id") == own_session
abbrev pub owns : Option String → Pair → Bool
owns none p = false
owns (some session) p = not (session == "") && is_text session p.new_session_id

abbrev pub asked : Session → Reply (Unit {0})
asked who =
    if who.is_interactive then if who.says_yes then reply tt else refuse declined else refuse denied

unfoldable pub require_disposition_authority : Session → Bool → Pair → Reply (Unit {0})
require_disposition_authority who force p =
    if force
    then reply tt
    else if is_ttl_expiry p.kind
    then reply tt
    else if owns who.session_id p
    then reply tt
    else asked who

-- The state that a command or a request leaves, and what it answers.
abbrev pub Response : Type 0 → Type 0 → Type 0
Response Store A = World Store × Reply A

abbrev pub Answer : Type 0 → Type 0
Answer Store = Response Store Done

module _ {Store A : Type 0} where
  -- A request of which the reply is lost has been executed.
  abbrev pub delivered : Transport → World Store → Result (World Store × A) → Response Store A
  delivered answers w (raise e) = (w, refuse (failed e))
  delivered answers w (ok (later, a)) = (later, reply a)
  delivered stays_out w outcome = (w, refuse unreachable)
  delivered loses_reply w (raise e) = (w, refuse unreachable)
  delivered loses_reply w (ok (later, a)) = (later, refuse unreachable)

  -- `_support.execute` of an operation
  abbrev pub execute : Session → String → World Store → Result (World Store × A) → Response Store A
  execute who op w outcome = delivered (who.transport op) w outcome

module _ {Store : Type 0} where
  abbrev pub undo : String → Answer Store → Answer Store
  undo pair_id (w, refuse r) = (record w { pairs = (reopen pair_id w.pairs).0 }, refuse r)
  undo pair_id (w, reply d) = (w, reply d)

  abbrev pub follow :
      String → World Store → (World Store → Answer Store) → Result (PairStore × Bool) → Answer Store
  follow pair_id w mutate (raise e) = (w, refuse (failed e))
  follow pair_id w mutate (ok (rows, hit)) = undo pair_id (mutate (record w { pairs = rows }))

  -- Dispose first, then the follow-up, which reopens the pair where it raises.
  unfoldable pub dispose_with_rollback :
      ℕ
      → String
      → Disposition
      → Option String
      → (World Store → Answer Store)
      → World Store
      → Answer Store
  dispose_with_rollback now pair_id disposition by mutate w =
      follow pair_id w mutate (dispose now pair_id disposition by w.pairs)

  abbrev pub with_done : {A : Type 0} → (A → Done) → Response Store A → Answer Store
  with_done done (w, refuse r) = (w, refuse r)
  with_done done (w, reply a) = (w, reply (done a))

abbrev pub expire_now : Schedule
expire_now = record { days = none; expires_at = none; clear = false; expire_now = true }

abbrev pub in_days : Option ℕ → Schedule
in_days days = record { days = days; expires_at = none; clear = false; expire_now = false }

abbrev pub is_correctness : Kind → Bool
is_correctness correctness = true
is_correctness _ = false

abbrev pub takes_ttl : Kind → Bool
takes_ttl necessity = true
takes_ttl ttl_expiry = true
takes_ttl _ = false

module _ (c : MemoryClient) (who : Session) (now : ℕ) where
  open c use {Store}

  -- run_invalidate(…, raise_on_error=True)
  abbrev pub run_invalidate : String → List String → String → World Store → Response Store ℕ
  run_invalidate memory_id by_ids reason w =
      execute who "invalidate" w (invalidate c now memory_id by_ids (some reason) (actor_of who) w)

  abbrev pub apply_ttl : String → Schedule → World Store → Response Store TtlResult
  apply_ttl memory_id s w = execute who "set_ttl" w (set_ttl c now memory_id s (by_of who) w)

  -- The follow-up of a confirmation, by the kind of the suspicion.
  abbrev pub confirm_mutation : Kind → String → Pair → World Store → Answer Store
  confirm_mutation ttl_expiry why p w = (w, reply (expiry_accepted p.old_id))
  confirm_mutation necessity why p w = with_done expired_now (apply_ttl p.old_id expire_now w)
  confirm_mutation _ why p w =
      with_done superseded (run_invalidate p.old_id (p.new_id ∷ []) (reason_or p.reason why) w)

  abbrev pub authorized : World Store → Reply (Unit {0}) → Answer Store → Answer Store
  authorized w (refuse r) next = (w, refuse r)
  authorized w (reply done) next = next

  -- `why` is the text "confirmed staleness suspicion <pair_id>".
  abbrev pub confirm_loaded : String → String → Bool → World Store → Reply Pair → Answer Store
  confirm_loaded why pair_id force w (refuse r) = (w, refuse r)
  confirm_loaded why pair_id force w (reply p) =
      if is_correctness p.kind
      then (w, refuse (inapplicable p.kind))
      else authorized w (require_disposition_authority who force p) (
          dispose_with_rollback now pair_id confirmed (by_of who) (confirm_mutation p.kind why p) w)

  unfoldable pub stale_confirm : String → String → Bool → World Store → Answer Store
  stale_confirm why pair_id force w =
      confirm_loaded why pair_id force w (load_open_pair pair_id w.pairs)

  abbrev pub ttl_loaded : String → Option ℕ → World Store → Reply Pair → Answer Store
  ttl_loaded pair_id days w (refuse r) = (w, refuse r)
  ttl_loaded pair_id days w (reply p) =
      if takes_ttl p.kind
      then dispose_with_rollback now pair_id ttl (by_of who)
          (λ v. with_done scheduled (apply_ttl p.old_id (in_days days) v)) w
      else (w, refuse (inapplicable p.kind))

  unfoldable pub stale_ttl : String → Option ℕ → World Store → Answer Store
  stale_ttl pair_id days w = ttl_loaded pair_id days w (load_open_pair pair_id w.pairs)

  abbrev pub dismissed_pairs : World Store → Result (PairStore × Bool) → Answer Store
  dismissed_pairs w (raise e) = (w, refuse (failed e))
  dismissed_pairs w (ok (rows, hit)) = (record w { pairs = rows }, reply noted)

  abbrev pub dismiss_loaded : String → Bool → World Store → Reply Pair → Answer Store
  dismiss_loaded pair_id force w (refuse r) = (w, refuse r)
  dismiss_loaded pair_id force w (reply p) =
      authorized w (require_disposition_authority who force p)
        (dismissed_pairs w (dispose now pair_id dismissed (by_of who) w.pairs))

  unfoldable pub stale_dismiss : String → Bool → World Store → Answer Store
  stale_dismiss pair_id force w = dismiss_loaded pair_id force w (load_open_pair pair_id w.pairs)
