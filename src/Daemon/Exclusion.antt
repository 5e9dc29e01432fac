-- ===== src/Daemon/Exclusion.antt =====
-- src/memline/daemon.py, `_RWGate`: `delete --all` runs alone.
use memline.Prelude.{
  ℕ, ◌+◌, ◌≡◌, refl, Bool, true, false, some, List, [], ◌∷◌, ◌++◌, ltb, arith, count, Bool-cases,
  inl, inr, ◌⊎◌,
}
use memline.Daemon.{
  RwGate, acquire_shared, acquire_exclusive, Phase, outside, sharing, excluding, Threads, Step,
  enter_shared, leave_shared, enter_exclusive, leave_exclusive, arrives, Reachable, initial, next,
}

abbrev pub is_sharing : Phase → Bool
is_sharing sharing = true
is_sharing _ = false

abbrev pub is_excluding : Phase → Bool
is_excluding excluding = true
is_excluding _ = false

count-append :
    (p : Phase → Bool) (xs ys : List Phase) → count p (xs ++ ys) ≡ count p xs + count p ys
count-append p [] ys = omega arith
count-append p (x ∷ xs) ys = ground (arith, count-append p xs ys)

abbrev pub as_count : Bool → ℕ
as_count true = 1
as_count false = 0

-- The gate counts its holders, and never holds both sides.
pub record Counted (s : Threads) : Type 0 where
  pub sharers : s.gate.shared ≡ count is_sharing s.phases
  pub excluders : as_count s.gate.exclusive ≡ count is_excluding s.phases
  pub apart : s.gate.exclusive ≡ true → s.gate.shared ≡ 0

-- One thread moves from one phase to another.
module _ (before after : List Phase) (p : Phase → Bool) (x : Phase) where
  count-middle : count p (before ++ x ∷ after) ≡ count p before + count p (x ∷ after)
  count-middle = count-append p before (x ∷ after)

Step-Counted : {s s' : Threads} → Step s s' → Counted s → Counted s'
Step-Counted (enter_shared g g' before after ok) v =
    let o1 = count-middle before after is_sharing outside in
    let o2 = count-middle before after is_excluding outside in
    let n1 = count-middle before after is_sharing sharing in
    let n2 = count-middle before after is_excluding sharing in ground arith
Step-Counted (leave_shared g before after) v =
    let o1 = count-middle before after is_sharing sharing in
    let o2 = count-middle before after is_excluding sharing in
    let n1 = count-middle before after is_sharing outside in
    let n2 = count-middle before after is_excluding outside in ground arith
Step-Counted (enter_exclusive g g' before after ok) v =
    let o1 = count-middle before after is_sharing outside in
    let o2 = count-middle before after is_excluding outside in
    let n1 = count-middle before after is_sharing excluding in
    let n2 = count-middle before after is_excluding excluding in ground arith
Step-Counted (leave_exclusive g before after) v =
    let o1 = count-middle before after is_sharing excluding in
    let o2 = count-middle before after is_excluding excluding in
    let n1 = count-middle before after is_sharing outside in
    let n2 = count-middle before after is_excluding outside in ground arith
Step-Counted (arrives g phases) v = record {
  sharers = v.sharers;
  excluders = v.excluders;
  apart = v.apart;
}

Reachable-Counted : {s : Threads} → Reachable s → Counted s
Reachable-Counted initial = record { sharers = refl; excluders = refl; apart = λ e. refl }
Reachable-Counted (next r step) = Step-Counted step (Reachable-Counted r)

-- In every state that the daemon can come to: at most one thread is inside `delete --all`, and while one
-- is, no thread is inside another operation on the store.
pub exclusion :
    {s : Threads}
    → Reachable s
    → (count is_excluding s.phases ≡ 0)
      ⊎ ((count is_excluding s.phases ≡ 1) × (count is_sharing s.phases ≡ 0))
exclusion {s} r =
    let v = Reachable-Counted r in
    elim (Bool-cases s.gate.exclusive) [
      | inl held ↦ inr (ground arith, ground arith)
      | inr free ↦ inl (ground arith)
    ]

-- In every state that the daemon can come to, when no thread is inside an operation, both sides of the
-- gate can be taken: it is never left closed.
pub exclusion_open :
    {s : Threads}
    → Reachable s
    → count is_sharing s.phases ≡ 0
    → count is_excluding s.phases ≡ 0
    → ((g : RwGate) × (acquire_shared s.gate ≡ some g))
      × ((g : RwGate) × (acquire_exclusive s.gate ≡ some g))
exclusion_open {s} r no_sharer no_excluder =
    let v = Reachable-Counted r in
    let open_exclusive : s.gate.exclusive ≡ false = ground arith in
    let open_shared : ltb 0 s.gate.shared ≡ false = ground arith in
    (
      (record s.gate { shared = s.gate.shared + 1 }, rw open_exclusive refl),
      (record s.gate { exclusive = true }, rw (open_exclusive, open_shared) refl),
    )
