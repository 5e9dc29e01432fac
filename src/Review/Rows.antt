-- ===== src/Review/Rows.antt =====
-- src/memline/review.py: the rows that a session has to answer for, and the tests that find them.
use memline.Prelude.{
  ◌≤◌, String, ◌≡◌, ◌≢◌, ◌⊎◌, ◌↔◌, refl, ap, ◌∙◌, sym, inl, inr, Bool, true, false, not, ◌==◌,
  eq_iff, eq_refl, Option, none, some, List, arith, any, In, length, Bool-cases,
}
use memline.Prelude.Places.{any-In, any_of}
use memline.Dict.{Value, null, flag, time, text, texts, get}
use memline.Queue.{
  EventQueue, Event, Status, queued, processing, done, failed, is_queued, is_processing, is_failed,
  matches,
}
use memline.Queue as Queue
use memline.Queue.Keeping.{Ids, row_found}
use memline.Pairs.{
  Pair, PairStore, Kind, displacement, necessity, correctness, safety, ttl_expiry, opened,
  same_kind, is_text,
}
use memline.Review.{is_session, is_own, args_or_empty, is_pending_check}
use memline.Review.Verdicts.{is_own_flag, is_expiry_flag, is_lost_add}

-- A stale check of the session that is queued or under way.
pub record PendingCheck (session : String) (q : EventQueue) (e : Event) : Type 0 where
  pub listed : In e q.events
  pub check : e.op ≡ "stale_check"
  pub unfinished : (e.status ≡ queued) ⊎ (e.status ≡ processing)
  pub own : get "session_id" e.args ≡ text session

-- An add of the session that has failed and that nobody has acknowledged.
pub record LostAdd (session : String) (q : EventQueue) (e : Event) : Type 0 where
  pub listed : In e q.events
  pub add : e.op ≡ "add"
  pub refused : e.status ≡ failed
  pub unseen : e.acked ≡ false
  pub own : get "session_id" e.args ≡ text session

-- An open suspicion that a write of the session raised.
pub record OwnSuspicion (session : String) (rows : PairStore) (p : Pair) : Type 0 where
  pub listed : In p rows
  pub live : p.disposition ≡ opened
  pub raised : p.new_session_id ≡ some session
  pub kind : p.kind ≢ ttl_expiry

-- An open expiry, whoever wrote the memory.
pub record Expiry (rows : PairStore) (p : Pair) : Type 0 where
  pub listed : In p rows
  pub live : p.disposition ≡ opened
  pub kind : p.kind ≡ ttl_expiry

-- A queue that a listing of 500 rows shows whole, with distinct ids.
pub record Readable (q : EventQueue) : Type 0 where
  pub ids : Ids q
  pub few : length q.events ≤ 500

abbrev pub No {ℓ} : {A : Type ℓ} → (A → Type 0) → Type ℓ
No {A = A} P = (a : A) → P a → ⊥

-- No row passes a test, and the test is what a predicate says.
pub any-No :
    {A : Type 0} {P : A → Type 0} (p : A → Bool) (xs : List A)
    → ((a : A) → P a → In a xs × (p a ≡ true))
    → ((a : A) → In a xs → p a ≡ true → P a)
    → (not (any p xs) ≡ true) ↔ No P
any-No p xs shows means = (
  λ h a x. let (i, e) = shows a x in let hit = any_of p a xs i e in ground arith,
  λ nobody. elim (Bool-cases (any p xs)) [
    | inl hit ↦ let (a, i, e) = any-In p xs hit in absurd (nobody a (means a i e))
    | inr miss ↦ rw miss refl
  ],
)

is_text_means : (s : String) (o : Option String) → is_text s o ≡ true → o ≡ some s
is_text_means s none h = cc
is_text_means s (some t) h = ap some ((eq_iff t s).0 h)

apart : (k : Kind) → k ≢ ttl_expiry → not (same_kind k ttl_expiry) ≡ true
apart displacement other = refl
apart necessity other = refl
apart correctness other = refl
apart ttl_expiry other = absurd (other refl)
apart safety other = refl

module _ (session : String) where
  is_session_iff : (v : Value) → (is_session session v ≡ true) ↔ (v ≡ text session)
  is_session_iff null = ((λ h. cc), (λ h. cc))
  is_session_iff (flag b) = ((λ h. cc), (λ h. cc))
  is_session_iff (time n) = ((λ h. cc), (λ h. cc))
  is_session_iff (texts xs) = ((λ h. cc), (λ h. cc))
  is_session_iff (text s) =
      ((λ h. ap text ((eq_iff s session).0 h)), (λ h. (eq_iff s session).1 (ground arith)))

  get_args-row :
      (q : EventQueue) (e : Event) → Ids q → In e q.events → Queue.get_args e.id q ≡ some e.args
  unfolding Queue.get_args
  get_args-row q e ids i = rw (row_found q.events e ids i, Queue.get_args) refl

  is_own_args :
      (q : EventQueue) (e : Event)
      → Ids q
      → In e q.events
      → is_own session q e ≡ is_session session (get "session_id" e.args)
  is_own_args q e ids i =
      ap (λ o. is_session session (get "session_id" (args_or_empty o))) (get_args-row q e ids i)

  -- The tests of the code, and what they say of a row.
  module _ (q : EventQueue) (readable : Readable q) (e : Event) where
    own_means : In e q.events → is_own session q e ≡ true → get "session_id" e.args ≡ text session
    own_means i h =
        (is_session_iff (get "session_id" e.args)).0 (sym (is_own_args q e readable.ids i) ∙ h)

    own_shows : In e q.events → get "session_id" e.args ≡ text session → is_own session q e ≡ true
    own_shows i h = is_own_args q e readable.ids i ∙ (is_session_iff (get "session_id" e.args)).1 h

    pub pending_shows :
        PendingCheck session q e → In e q.events × (is_pending_check session q e ≡ true)
    pending_shows it =
        let mine = own_shows it.listed it.own in
        (it.listed, ground (arith, mine, (eq_iff e.op "stale_check").1 it.check, it.unfinished))

    pub pending_means :
        In e q.events → is_pending_check session q e ≡ true → PendingCheck session q e
    pending_means i h =
        let mine : is_own session q e ≡ true = ground (arith, h) in
        let op : (e.op == "stale_check") ≡ true = ground (arith, h) in
        record {
          listed = i;
          check = (eq_iff e.op "stale_check").0 op;
          unfinished = ground (arith, h);
          own = own_means i mine;
        }

    lost_shows : LostAdd session q e → In e q.events × (is_lost_add session q e ≡ true)
    lost_shows it =
        let mine = own_shows it.listed it.own in
        (it.listed, ground (arith, mine, (eq_iff e.op "add").1 it.add, it.refused, it.unseen))

    lost_means : In e q.events → is_lost_add session q e ≡ true → LostAdd session q e
    lost_means i h =
        let mine : is_own session q e ≡ true = ground (arith, h) in
        let op : (e.op == "add") ≡ true = ground (arith, h) in
        record {
          listed = i;
          add = (eq_iff e.op "add").0 op;
          refused = ground (arith, h);
          unseen = ground (arith, h);
          own = own_means i mine;
        }

  module _ (rows : PairStore) where
    pub own_iff : (not (any (is_own_flag session) rows) ≡ true) ↔ No (OwnSuspicion session rows)
    own_iff =
        any-No (is_own_flag session) rows
          (λ p it. (it.listed, rw (it.live, it.raised, eq_refl session) (apart p.kind it.kind)))
          (λ p i h. record {
            listed = i;
            live = ground (arith, h);
            raised = is_text_means session p.new_session_id (ground (arith, h));
            kind = λ same. ground (arith, same, h);
          })

    pub overdue_iff : (not (any is_expiry_flag rows) ≡ true) ↔ No (Expiry rows)
    overdue_iff =
        any-No is_expiry_flag rows (λ p it. (it.listed, ground (arith, it.live, it.kind)))
          (λ p i h. record { listed = i; live = ground (arith, h); kind = ground (arith, h) })

    pub lost_iff :
        (q : EventQueue)
        → Readable q
        → (not (any (is_lost_add session q) q.events) ≡ true) ↔ No (LostAdd session q)
    lost_iff q readable =
        any-No (is_lost_add session q) q.events (lost_shows q readable) (lost_means q readable)
