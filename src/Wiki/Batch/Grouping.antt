-- ===== src/Wiki/Batch/Grouping.antt =====
-- src/memline/wiki/batch.py, `group_by_session`: no memory is lost or doubled.
use memline.Prelude.{
  ℕ, ◌+◌, String, ◌≡◌, refl, inl, inr, Bool, List, [], ◌∷◌, ◌++◌, ◌==◌, arith, count, Bool-cases,
}
use memline.Prelude.Table.{sort_by}
use memline.Prelude.Counting.{one_if, weigh, count-cons, count-append, count-sort_by}
use memline.Wiki.Batch.{
  Memory, Sessions, add_to, is_ledger, group_all, group_by_session, earlier, members,
}

module _ (p : Memory → Bool) where
  abbrev pub count_group : String × List Memory → ℕ
  count_group s = count p s.1

  pub count-members :
      (sessions : Sessions) → count p (members sessions) ≡ weigh count_group sessions
  count-members [] = refl
  count-members (s ∷ sessions) =
      omega (arith, count-append p s.1 (members sessions), count-members sessions)

  weigh-add_to :
      (session_id : String) (m : Memory) (sessions : Sessions)
      → weigh count_group (add_to session_id m sessions) ≡ one_if p m + weigh count_group sessions
  weigh-add_to session_id m [] = omega (arith, count-cons p m [])
  weigh-add_to session_id m ((s, group) ∷ sessions) = elim (Bool-cases (s == session_id)) [
    | inl same ↦ rw same (omega (arith, count-append p group (m ∷ []), count-cons p m []))
    | inr other ↦ rw other (omega (arith, weigh-add_to session_id m sessions))
  ]

  -- How many memories that pass the test are in the sessions and the ledger.
  abbrev pub grouped : Sessions × List Memory → ℕ
  grouped acc = weigh count_group acc.0 + count p acc.1

  grouped-group_all :
      (ledger_source : String) (ms : List Memory) (sessions : Sessions) (ledger : List Memory)
      → grouped (group_all ledger_source ms (sessions, ledger))
        ≡ count p ms + grouped (sessions, ledger)
  grouped-group_all ledger_source [] sessions ledger = omega arith
  grouped-group_all ledger_source (m ∷ ms) sessions ledger =
      elim (Bool-cases (is_ledger ledger_source m)) [
        | inl loose ↦
            rw (loose, group_all)
              (omega (
                arith,
                grouped-group_all ledger_source ms sessions (ledger ++ m ∷ []),
                count-append p ledger (m ∷ []),
                count-cons p m [],
                count-cons p m ms,
              ))
        | inr bound ↦
            rw (bound, group_all)
              (omega (
                arith,
                grouped-group_all ledger_source ms (add_to m.session_id m sessions) ledger,
                weigh-add_to m.session_id m sessions,
                count-cons p m ms,
              ))
      ]

  pub grouped-group_by_session :
      (ledger_source : String) (memories : List Memory)
      → grouped (group_by_session ledger_source memories) ≡ count p memories
  unfolding group_by_session
  grouped-group_by_session ledger_source memories = omega (
    arith,
    grouped-group_all ledger_source (sort_by earlier memories) [] [],
    count-sort_by p earlier memories,
  )
