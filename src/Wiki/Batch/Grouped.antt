-- ===== src/Wiki/Batch/Grouped.antt =====
-- src/memline/wiki/batch.py, `group_by_session`: the groups are filters of the sorted memories.
use memline.Prelude.{
  String, ◌≡◌, refl, sym, ap, ◌∙◌, inl, inr, Bool, false, List, [], ◌∷◌, ◌++◌, ◌==◌, if◌then◌else◌,
  arith, filter, Bool-cases, eq_symm_false, In, here, there, eq_iff, ◌||◌,
}
use mathlib.Core.List.{append_assoc, append-nil}
use memline.Prelude.Table.{sort_by}
use memline.Prelude.Order.{has_key, Keyed, has_key-In}
use memline.Wiki.Batch.{Memory, Sessions, add_to, is_ledger, group_all, group_by_session, earlier}

abbrev pub group_of : String → Sessions → List Memory
group_of session_id [] = []
group_of session_id ((s, group) ∷ sessions) =
    let rest = group_of session_id sessions in if s == session_id then group else rest

abbrev pub belongs : String → String → Memory → Bool
belongs ledger_source session_id m =
    if is_ledger ledger_source m then false else m.session_id == session_id

abbrev pub Distinct : Sessions → Type 0
Distinct sessions = Keyed (λ s. s.0) sessions

group_of-add_to :
    (session_id s : String) (m : Memory) (sessions : Sessions)
    → group_of session_id (add_to s m sessions) ≡ (
        if s == session_id
        then group_of session_id sessions ++ m ∷ []
        else group_of session_id sessions)
group_of-add_to session_id s m [] = ground arith
group_of-add_to session_id s m ((t, group) ∷ sessions) = ground (
  arith,
  group_of-add_to session_id s m sessions,
  eq_iff t s,
  eq_iff t session_id,
  eq_iff s session_id,
)

has_key-add_to :
    (k s : String) (m : Memory) (sessions : Sessions)
    → has_key (λ x. x.0) k (add_to s m sessions) ≡ (s == k || has_key (λ x. x.0) k sessions)
has_key-add_to k s m [] = ground arith
has_key-add_to k s m ((t, group) ∷ sessions) =
    ground (arith, has_key-add_to k s m sessions, eq_iff t s)

add_to-Distinct :
    (s : String) (m : Memory) (sessions : Sessions)
    → Distinct sessions
    → Distinct (add_to s m sessions)
add_to-Distinct s m [] h = (refl, tt)
add_to-Distinct s m ((t, group) ∷ sessions) h = elim (Bool-cases (t == s)) [
  | inl same ↦ rw same h
  | inr other ↦ rw other (
    has_key-add_to t s m sessions ∙ ground (arith, eq_symm_false t s other, h.0),
    add_to-Distinct s m sessions h.1,
  )
]

module _ (ledger_source : String) where
  group_all-Distinct :
      (ms : List Memory) (sessions : Sessions) (ledger : List Memory)
      → Distinct sessions
      → Distinct (group_all ledger_source ms (sessions, ledger)).0
  group_all-Distinct [] sessions ledger h = h
  group_all-Distinct (m ∷ ms) sessions ledger h = elim (Bool-cases (is_ledger ledger_source m)) [
    | inl loose ↦ rw (loose, group_all) (group_all-Distinct ms sessions (ledger ++ m ∷ []) h)
    | inr bound ↦
        rw (bound, group_all)
          (group_all-Distinct ms (add_to m.session_id m sessions) ledger
            (add_to-Distinct m.session_id m sessions h))
  ]

  group_of-group_all :
      (session_id : String) (ms : List Memory) (sessions : Sessions) (ledger : List Memory)
      → group_of session_id (group_all ledger_source ms (sessions, ledger)).0
        ≡ group_of session_id sessions ++ filter (belongs ledger_source session_id) ms
  group_of-group_all session_id [] sessions ledger = sym (append-nil _)
  group_of-group_all session_id (m ∷ ms) sessions ledger =
      elim (Bool-cases (is_ledger ledger_source m)) [
        | inl loose ↦
            rw (loose, group_all) (group_of-group_all session_id ms sessions (ledger ++ m ∷ []))
        | inr bound ↦
            rw (bound, group_all)
              (group_of-group_all session_id ms (add_to m.session_id m sessions) ledger
                ∙ elim (Bool-cases (m.session_id == session_id)) [
                  | inl same ↦
                      rw (same, group_of-add_to session_id m.session_id m sessions, same)
                        (append_assoc (group_of session_id sessions) (m ∷ [])
                          (filter (belongs ledger_source session_id) ms))
                  | inr other ↦
                      rw (other, group_of-add_to session_id m.session_id m sessions, other) refl
                ])
      ]

  ledger-group_all :
      (ms : List Memory) (sessions : Sessions) (ledger : List Memory)
      → (group_all ledger_source ms (sessions, ledger)).1
        ≡ ledger ++ filter (is_ledger ledger_source) ms
  ledger-group_all [] sessions ledger = sym (append-nil _)
  ledger-group_all (m ∷ ms) sessions ledger = elim (Bool-cases (is_ledger ledger_source m)) [
    | inl loose ↦
        rw (loose, group_all)
          (ledger-group_all ms sessions (ledger ++ m ∷ [])
            ∙ append_assoc ledger (m ∷ []) (filter (is_ledger ledger_source) ms))
    | inr bound ↦
        rw (bound, group_all) (ledger-group_all ms (add_to m.session_id m sessions) ledger)
  ]

  -- The loop that appends each memory to its session makes the same groups as filtering: the sessions
  -- have distinct ids, the group of an id is the sorted memories that carry it and are not of the
  -- ledger, in that order, and the ledger is the rest, sorted.
  pub group_by_session-filters :
      (memories : List Memory)
      → Distinct (group_by_session ledger_source memories).0
        × ((session_id : String)
            → group_of session_id (group_by_session ledger_source memories).0
              ≡ filter (belongs ledger_source session_id) (sort_by earlier memories))
        × ((group_by_session ledger_source memories).1
            ≡ filter (is_ledger ledger_source) (sort_by earlier memories))
  unfolding group_by_session
  group_by_session-filters memories = (
    group_all-Distinct (sort_by earlier memories) [] [] tt,
    (λ session_id. group_of-group_all session_id (sort_by earlier memories) [] []),
    ledger-group_all (sort_by earlier memories) [] [],
  )

-- A session's group is found by its id.
pub group_of-In :
    (s : String) (group : List Memory) (sessions : Sessions)
    → Distinct sessions
    → In (s, group) sessions
    → group ≡ group_of s sessions
group_of-In s group [] h i = elim i [ ]
group_of-In s group ((t, g) ∷ sessions) h (here e) = ground (
  arith,
  ap (λ (x : String × List Memory). x.0) e,
  ap (λ (x : String × List Memory). x.1) e,
  eq_iff t s,
)
group_of-In s group ((t, g) ∷ sessions) h (there i) = elim (Bool-cases (t == s)) [
  | inl same ↦ cc (has_key-In (λ x. x.0) (s, group) sessions i, h.0, (eq_iff t s).0 same)
  | inr other ↦ rw other (group_of-In s group sessions h.1 i)
]

-- A session that has a memory is there.
pub In-group_of :
    (s : String) (m : Memory) (sessions : Sessions)
    → In m (group_of s sessions)
    → In (s, group_of s sessions) sessions
In-group_of s m [] i = elim i [ ]
In-group_of s m ((t, g) ∷ sessions) i = elim (Bool-cases (t == s)) [
  | inl same ↦ rw (same, (eq_iff t s).0 same) (here refl)
  | inr other ↦ rw other (there (In-group_of s m sessions (rw other at i)))
]
