-- ===== src/Review/Tests.antt =====
-- A review on a concrete queue and pair table.
use memline.Prelude.{
  ℕ, String, ◌≡◌, ◌≢◌, ◌↔◌, refl, true, false, none, some, List, [], ◌∷◌, arith, eq_iff,
}
use memline.Dict.{text}
use memline.Queue.{EventQueue, Event, processing, failed}
use memline.Queue as Queue
use memline.Pairs.{Pair, PairStore, Kind, displacement, safety, superseded, opened, open_pairs}
use memline.Review.{
  session_review, pending_stale_checks, wait_pending, failed_own_adds, displacement_raised_by_me,
  failed_adds,
}
use memline.Review.Rows.{PendingCheck, LostAdd, OwnSuspicion, Expiry, Readable, No}
use memline.Review.Exact.{LastPoll, session_review_exact}

abbrev raised : String → Kind → String → Pair
raised pair_id kind session = record {
  pair_id = pair_id;
  kind = kind;
  new_id = "new";
  old_id = "old";
  old_text_hash = "";
  verdict = superseded;
  confidence = some 900;
  reason = none;
  judged_at = 1;
  judge_model = none;
  new_session_id = some session;
  disposition = opened;
  disposed_by = none;
  disposed_at = none;
}

-- One displacement of the session's, one safety flag of another session.
abbrev pairs : PairStore
pairs = raised "p1" displacement "me" ∷ raised "p2" safety "you" ∷ []

abbrev lost : Event
lost = record {
  id = "e1";
  op = "add";
  args = ("session_id", text "me") ∷ [];
  status = failed;
  attempts = 3;
  acked = false;
  created_at = 1;
  updated_at = 2;
  result = none;
  error = some "refused";
}

abbrev queue : EventQueue
queue = record { events = lost ∷ []; alerts = none }

blocked :
    (session_review "me" 0 queue [] queue pairs).blocking
    ≡ displacement_raised_by_me ("p1" ∷ []) ∷ failed_adds ("e1" ∷ []) ∷ []
unfolding session_review pending_stale_checks failed_own_adds wait_pending open_pairs Queue.list
    Queue.get_args
blocked = refl

me_named : ◌≢◌ {A = String} "me" ""
me_named e = ground (arith, eq_iff "me" "")

abbrev check : Event
check = record lost { id = "e2"; op = "stale_check"; status = processing }

-- What the session sees first, and what it sees after one sleep.
abbrev busy : EventQueue
busy = record { events = check ∷ lost ∷ []; alerts = none }

abbrev seen : List (ℕ × EventQueue)
seen = (3, queue) ∷ []

queue-Readable : Readable queue
queue-Readable = record { ids = (refl, tt); few = omega arith }

busy-Readable : Readable busy
busy-Readable = record { ids = (refl, (refl, tt)); few = omega arith }

session_review_exact_example :
    (last : EventQueue) × LastPoll "me" 9 busy seen last
    × (((session_review "me" 9 busy seen queue pairs).passes ≡ true) ↔ (
        No (PendingCheck "me" last)
        × No (OwnSuspicion "me" pairs)
        × No (Expiry pairs)
        × No (LostAdd "me" queue)))
session_review_exact_example =
    session_review_exact "me" pairs 9 busy seen queue me_named (omega arith) busy-Readable
      (queue-Readable, tt) queue-Readable
