-- ===== src/Disposing/Rollback.antt =====
-- src/memline/cli/_support.py, `_dispose_with_rollback`: what a command leaves whose follow-up raises.
use memline.Prelude.{
  ℕ, String, ◌≡◌, refl, ap, ◌∙◌, subst, inl, inr, true, false, Option, none, some, [], ◌∷◌, ◌==◌,
  ◌&&◌, arith, eq_iff, find, Bool-cases, All,
}
use memline.Prelude.Table.{update_where}
use memline.Prelude.Order.{has_key, Keyed, updated, find-update_where}
use mathlib.Core.Option
use mathlib.Core.Option.{some-injective}
use memline.Prelude.Rows.{find_holds}
use memline.Pairs.{
  Pair, PairStore, Disposition, is_opened, is_reopenable, is_disposal, opened, close, get, dispose,
  reopen,
}
use memline.Staleness.{World}
use memline.Disposing.{Refusal, Done, Answer, refuse, reply, undo, dispose_with_rollback}

-- An open row is not stamped.
abbrev pub Unstamped : Pair → Type 0
Unstamped p = is_opened p.disposition ≡ true → (p.disposed_by ≡ none) × (p.disposed_at ≡ none)

-- The table as it is between the commands: distinct ids, and no stamp on an open row.
pub record Tidy (rows : PairStore) : Type 0 where
  pub keyed : Keyed (λ p. p.pair_id) rows
  pub unstamped : All Unstamped rows

abbrev pub reopened : Pair → Pair
reopened p = record p { disposition = opened; disposed_by = none; disposed_at = none }

module _ (now : ℕ) (pair_id : String) (d : Disposition) (by : Option String) where
  abbrev disposed : PairStore → PairStore
  disposed = update_where (λ p. p.pair_id == pair_id && is_opened p.disposition) (close now d by)

  abbrev undone : PairStore → PairStore
  undone = update_where (λ p. p.pair_id == pair_id && is_reopenable p.disposition) reopened

  undone-disposed_absent :
      (rows : PairStore)
      → has_key (λ p. p.pair_id) pair_id rows ≡ false
      → undone (disposed rows) ≡ rows
  undone-disposed_absent [] h = refl
  undone-disposed_absent (p ∷ rows) h = ground (arith, undone-disposed_absent rows)

  undone-disposed_one :
      (p : Pair)
      → (p.pair_id == pair_id) ≡ true
      → is_reopenable d ≡ true
      → is_opened p.disposition ≡ true
      → Unstamped p
      → updated
          (λ x. x.pair_id == pair_id && is_reopenable x.disposition)
          reopened
          (updated (λ x. x.pair_id == pair_id && is_opened x.disposition) (close now d by) p)
        ≡ p
  undone-disposed_one p same reopens live unstamped =
      let clean = unstamped live in ground (arith, same, reopens, live, clean.0, clean.1)

  undone-disposed :
      (rows : PairStore) (p : Pair)
      → Keyed (λ x. x.pair_id) rows
      → All Unstamped rows
      → find (λ x. x.pair_id == pair_id) rows ≡ some p
      → is_opened p.disposition ≡ true
      → is_reopenable d ≡ true
      → undone (disposed rows) ≡ rows
  undone-disposed [] p keyed all found live reopens = refl
  undone-disposed (x ∷ rows) p keyed all found live reopens =
      elim (Bool-cases (x.pair_id == pair_id)) [
        | inl same ↦
            let it : x ≡ p = ground arith in
            let live_x : is_opened x.disposition ≡ true = rw it live in
            let head = undone-disposed_one x same reopens live_x all.0 in
            let absent : has_key (λ y. y.pair_id) pair_id rows ≡ false =
              ground (arith, eq_iff x.pair_id pair_id, keyed.0) in
            let tail = undone-disposed_absent rows absent in cc
        | inr other ↦
            let tail = undone-disposed rows p keyed.1 all.1 (rw other at found) live reopens in
            ground arith
      ]

All-find :
    (pair_id : String) (rows : PairStore) (p : Pair)
    → All Unstamped rows
    → find (λ x. x.pair_id == pair_id) rows ≡ some p
    → Unstamped p
All-find pair_id [] p all e = cc
All-find pair_id (x ∷ rows) p all e = elim (Bool-cases (x.pair_id == pair_id)) [
  | inl hit ↦ let same : x ≡ p = some-injective _ _ (rw hit at e) in subst Unstamped same all.0
  | inr miss ↦ All-find pair_id rows p all.1 (rw miss at e)
]

module _ (now : ℕ) (pair_id : String) (d : Disposition) (by : Option String) where
  -- An open pair that was disposed of, and is reopened.
  reopened-close :
      (p : Pair)
      → is_reopenable d ≡ true
      → is_opened p.disposition ≡ true
      → Unstamped p
      → (p.pair_id == pair_id) ≡ true
      → updated
          (λ x. x.pair_id == pair_id && is_reopenable x.disposition)
          reopened
          (close now d by p)
        ≡ p
  reopened-close p reopens live unstamped same =
      let clean = unstamped live in ground (arith, same, reopens, live, clean.0, clean.1)

  -- A table that shows the pair as disposed of shows it as it was, once it is reopened.
  pub get-reopen :
      (rows later : PairStore) (p : Pair)
      → Tidy rows
      → get pair_id rows ≡ some p
      → is_opened p.disposition ≡ true
      → is_reopenable d ≡ true
      → get pair_id later ≡ some (close now d by p)
      → get pair_id (reopen pair_id later).0 ≡ some p
  unfolding get reopen
  get-reopen rows later p tidy found live reopens shown =
      find-update_where (λ x. x.pair_id == pair_id && is_reopenable x.disposition) reopened
        (λ x. x.pair_id) (λ x. refl) pair_id later
      ∙ ap
          (Option.map (updated (λ x. x.pair_id == pair_id && is_reopenable x.disposition) reopened))
          shown
      ∙ ap some (
          reopened-close p reopens live (All-find pair_id rows p tidy.unstamped found)
            (find_holds (λ x. x.pair_id == pair_id) p rows found))

-- The state in which the pair is open again.
abbrev pub with_reopened : {Store : Type 0} → String → World Store → World Store
with_reopened pair_id v = record v { pairs = (reopen pair_id v.pairs).0 }

module _ {Store : Type 0} (now : ℕ) (pair_id : String) (d : Disposition) (by : Option String) where
  -- The state in which the follow-up of a disposition runs.
  abbrev pub between : World Store → World Store
  between w = record w {
    pairs =
        update_where (λ p. p.pair_id == pair_id && is_opened p.disposition) (close now d by)
          w.pairs;
  }

  module _ (mutate : World Store → Answer Store) (w : World Store) where
    undo-raised :
        (answer : Answer Store) (w' : World Store) (r : Refusal)
        → undo pair_id answer ≡ (w', refuse r)
        → (v : World Store) × (answer ≡ (v, refuse r)) × (w' ≡ with_reopened pair_id v)
    undo-raised (v, refuse r') w' r h = (v, ground arith, ground arith)
    undo-raised (v, reply done) w' r h = cc

    -- A follow-up that raises has left some state, in which the pair is then reopened.
    pub dispose-raised :
        (w' : World Store) (r : Refusal)
        → is_reopenable d ≡ true
        → dispose_with_rollback now pair_id d by mutate w ≡ (w', refuse r)
        → (v : World Store) × (mutate (between w) ≡ (v, refuse r)) × (w' ≡ with_reopened pair_id v)
    unfolding dispose_with_rollback dispose
    dispose-raised w' r reopens h =
        let disposes : is_disposal d ≡ true = ground arith in
        undo-raised (mutate (between w)) w' r (rw disposes at h)

    -- Where the follow-up left the state as it found it, nothing has happened.
    pub with_reopened-between :
        (p : Pair)
        → Tidy w.pairs
        → get pair_id w.pairs ≡ some p
        → is_opened p.disposition ≡ true
        → is_reopenable d ≡ true
        → with_reopened pair_id (between w) ≡ w
    unfolding get reopen
    with_reopened-between p tidy found live reopens =
        let back =
          undone-disposed now pair_id d by w.pairs p tidy.keyed tidy.unstamped found live reopens in
        ap (λ rows. record w { pairs = rows }) back

    undo-replied :
        (answer : Answer Store) (w' : World Store) (done : Done)
        → undo pair_id answer ≡ (w', reply done)
        → answer ≡ (w', reply done)
    undo-replied (v, refuse r) w' done h = cc
    undo-replied (v, reply d') w' done h = h

    pub dispose-replied :
        (w' : World Store) (done : Done)
        → is_disposal d ≡ true
        → dispose_with_rollback now pair_id d by mutate w ≡ (w', reply done)
        → mutate (between w) ≡ (w', reply done)
    unfolding dispose_with_rollback dispose
    dispose-replied w' done disposes h =
        undo-replied (mutate (between w)) w' done (rw disposes at h)
