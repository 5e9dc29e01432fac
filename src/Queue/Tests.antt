-- ===== src/Queue/Tests.antt =====
-- The queue on concrete rows, and the theorems about it at them.
use memline.Prelude.{
  ℕ, take, ◌≡◌, ◌≤◌, ◌+◌, refl, sym, ap, ◌∙◌, false, none, some, List, [], ◌∷◌, ◌++◌, count,
}
use memline.Dict.{text, Dict}
use memline.Queue.{
  Event, EventQueue, queued, failed, new_row, enqueue, claim_next, complete, fail, purge,
  recover_stale, retry, ack, refresh_alerts, get, list, is_processing,
}
use memline.Queue.History.{Call, claims, fails, purges, retries, step, run}
use memline.Queue.Keeping.{Ids, step-Ids}
use memline.Queue.Durability.{Kept, enqueue-Kept}
use memline.Queue.Claiming.{recover_stale-none_processing}
use memline.Queue.Tries.{AllReported, tries, left_of, allowed, tries-le}
use mathlib.Core.Option
use mathlib.Core.Option.{some-injective, Option}

abbrev args : Dict
args = ("content", text "a fact") ∷ []

abbrev broken : Event
broken = record {
  id = "e1";
  op = "add";
  args = args;
  status = failed;
  attempts = 3;
  acked = false;
  created_at = 5;
  updated_at = 9;
  result = none;
  error = some "timeout";
}

abbrev busy : EventQueue
busy = record {
  events = broken ∷ new_row 7 "e2" "add" args ∷ new_row 6 "e3" "add" args ∷ [];
  alerts = none;
}

abbrev grown : EventQueue
grown = record busy { events = busy.events ++ new_row 10 "e4" "add" args ∷ [] }

program : Unit {0}
unfolding enqueue claim_next complete fail purge recover_stale retry ack refresh_alerts get list
    step run tries
program = tt

busy-Ids : Ids busy
busy-Ids = (refl, (refl, (refl, tt)))

enqueue_fresh : enqueue 10 "e4" "add" args busy ≡ some grown
unfolding program
enqueue_fresh = refl

enqueue_again : enqueue 10 "e3" "add" args busy ≡ none
unfolding program
enqueue_again = refl

claims_oldest :
    (claim_next 11 busy).1 ≡ some (record { id = "e3"; op = "add"; args = args; attempts = 1 })
unfolding program
claims_oldest = refl

retry_requeues :
    get "e1" (retry 12 "e1" busy).0
    ≡ some (record broken { status = queued; attempts = 0; error = none; updated_at = 12 })
unfolding program
retry_requeues = refl

alert_shown :
    (refresh_alerts busy).alerts
    ≡ some (record { failed_unacked = 1; latest_error = some "timeout"; updated_at = 9 })
unfolding program
alert_shown = refl

abbrev history : List (ℕ × Call)
history = (11, claims) ∷ (12, fails "e3" "lost" 1) ∷ (13, purges 30) ∷ []

claims-Ids : Ids (step 11 claims busy)
claims-Ids = step-Ids 11 claims busy busy-Ids

enqueue-Kept_example : Kept history grown (new_row 10 "e4" "add" args)
enqueue-Kept_example = enqueue-Kept 10 "e4" "add" args busy grown history busy-Ids enqueue_fresh

recovered :
    count (λ r. is_processing r.status) (recover_stale 11 (step 10 claims busy)).0.events ≡ 0
recovered = (recover_stale-none_processing 11 (step 10 claims busy)).0

-- A job that raises every time, and is retried by hand.
abbrev tried : List (ℕ × Call)
tried =
    (11, claims)
    ∷ (12, fails "e3" "lost" 1)
    ∷ (13, claims)
    ∷ (14, fails "e3" "lost" 2)
    ∷ (15, claims)
    ∷ (16, fails "e3" "lost" 3)
    ∷ (17, retries "e3")
    ∷ (18, claims)
    ∷ (19, claims)
    ∷ []

-- The claims take "e3" three times, then "e2", which waits longer than the one that was retried.
tries_four : tries "e3" tried busy ≡ 4
unfolding program
tries_four = refl

told :
    (n : ℕ) (o : Option Event)
    → Option.map (λ r. r.attempts) o ≡ some n
    → (r : Event) → o ≡ some r
    → r.attempts ≡ n
told n none h r e = cc
told n (some x) h r e =
    ap (λ (y : Event). y.attempts) (sym (some-injective _ _ e)) ∙ some-injective _ _ h

abbrev after : ℕ → Option Event
after n = get "e3" (run (take n tried) busy)

tried-AllReported : AllReported tried busy
unfolding program
tried-AllReported = (
  tt,
  (
    told 1 (after 1) refl,
    (tt, (told 2 (after 3) refl, (tt, (told 3 (after 5) refl, (tt, (tt, (tt, tt))))))),
  ),
)

tries-le_example : tries "e3" tried busy ≤ left_of (get "e3" busy) + allowed "e3" tried
tries-le_example = tries-le "e3" tried busy busy-Ids tried-AllReported
