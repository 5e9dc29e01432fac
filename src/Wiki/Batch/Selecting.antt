-- ===== src/Wiki/Batch/Selecting.antt =====
-- src/memline/wiki/batch.py, `select_since`: what an incremental run reads again.
use memline.Prelude.{
  String, ◌≡◌, refl, sym, ◌∙◌, subst, inl, inr, ◌↔◌, true, false, List, map, arith, filter, In,
  In-append_left, In-append_right, In-filter, In-filter_of, In-map, In-map_of, eq_iff,
}
use memline.Prelude.Table.{sort_by}
use memline.Prelude.Counting.{concat}
use memline.Prelude.Places.{
  In-append, In-concat, In-concat_of, any-In, any_of, In-sort_by, In-sort_by_of,
}
use memline.Wiki.Batch.{
  Memory, Sessions, is_ledger, group_by_session, earlier, is_touched, has_moved, selected,
  select_since,
}
use memline.Wiki.Batch.Grouped.{
  group_of, belongs, group_by_session-filters, group_of-In, In-group_of,
}

module _ (since ledger_source : String) (memories : List Memory) where
  abbrev g : Sessions × List Memory
  g = group_by_session ledger_source memories

  -- What an incremental run has to read of the store: the memories of the ledger that changed since the
  -- cursor, and every memory of a session in which one changed.
  pub data Due (m : Memory) : Type 0 where
    loose : is_ledger ledger_source m ≡ true → is_touched since m ≡ true → Due m
    moved :
        (x : Memory)
        → is_ledger ledger_source m ≡ false
        → In x memories
        → is_ledger ledger_source x ≡ false
        → x.session_id ≡ m.session_id
        → is_touched since x ≡ true
        → Due m

  belongs-split :
      (s : String) (m : Memory)
      → belongs ledger_source s m ≡ true
      → (is_ledger ledger_source m ≡ false) × (m.session_id ≡ s)
  belongs-split s m h = ground (arith, eq_iff m.session_id s)

  belongs-join :
      (s : String) (m : Memory)
      → is_ledger ledger_source m ≡ false
      → m.session_id ≡ s
      → belongs ledger_source s m ≡ true
  belongs-join s m h e = ground (arith, eq_iff m.session_id s)

  -- A memory of a group is one of the store's, of that session.
  In-group :
      (s : String) (group : List Memory) (m : Memory)
      → In (s, group) g.0
      → In m group
      → In m memories × (is_ledger ledger_source m ≡ false) × (m.session_id ≡ s)
  In-group s group m i j =
      let spec = group_by_session-filters ledger_source memories in
      let same = group_of-In s group g.0 spec.0 i ∙ spec.1 s in
      let (sorted, its) =
        In-filter (belongs ledger_source s) m (sort_by earlier memories)
          (subst (λ xs. In m xs) same j) in
      let both = belongs-split s m its in (In-sort_by earlier m memories sorted, both.0, both.1)

  selected_session :
      (m : Memory)
      → In m (concat (map (λ s. s.1) (filter (has_moved since) g.0)))
      → In m memories × Due m
  selected_session m i =
      let (group, j, k) =
        In-concat m (map (λ (s : String × List Memory). s.1) (filter (has_moved since) g.0)) i in
      let (s, l, e) =
        In-map (λ (s : String × List Memory). s.1) group (filter (has_moved since) g.0) j in
      let (n, went) = In-filter (has_moved since) s g.0 l in
      let mine = In-group s.0 s.1 m n (subst (λ xs. In m xs) e k) in
      let (x, o, touched) = any-In (is_touched since) s.1 went in
      let its = In-group s.0 s.1 x n o in
      (mine.0, moved x mine.1 its.0 its.1 (its.2 ∙ sym mine.2) touched)

  selected_loose : (m : Memory) → In m (filter (is_touched since) g.1) → In m memories × Due m
  selected_loose m i =
      let (j, touched) = In-filter (is_touched since) m g.1 i in
      let spec = group_by_session-filters ledger_source memories in
      let (k, free) =
        In-filter (is_ledger ledger_source) m (sort_by earlier memories)
          (subst (λ xs. In m xs) spec.2 j) in
      (In-sort_by earlier m memories k, loose free touched)

  in_group :
      (m : Memory)
      → In m memories
      → is_ledger ledger_source m ≡ false
      → In m (group_of m.session_id g.0)
  in_group m i bound =
      let spec = group_by_session-filters ledger_source memories in
      subst (λ xs. In m xs) (sym (spec.1 m.session_id))
        (In-filter_of (belongs ledger_source m.session_id) m (sort_by earlier memories)
          (In-sort_by_of earlier m memories i) (belongs-join m.session_id m bound refl))

  due_selected : (m : Memory) → In m memories → Due m → In m (selected since g)
  due_selected m i (loose free touched) =
      let spec = group_by_session-filters ledger_source memories in
      In-append_right m _ _ (
        In-filter_of (is_touched since) m g.1
          (subst (λ xs. In m xs) (sym spec.2)
            (In-filter_of (is_ledger ledger_source) m (sort_by earlier memories)
              (In-sort_by_of earlier m memories i) free))
          touched)
  due_selected m i (moved x bound j bound_x same touched) =
      let group = group_of m.session_id g.0 in
      let mine = in_group m i bound in
      let its : In x group = subst (λ s. In x (group_of s g.0)) same (in_group x j bound_x) in
      In-append_left m _ _ (
        In-concat_of m group _
          (In-map_of (λ (s : String × List Memory). s.1) (m.session_id, group) _
            (In-filter_of (has_moved since) (m.session_id, group) g.0
              (In-group_of m.session_id m g.0 mine)
              (any_of (is_touched since) x group its touched)))
          mine)

  -- An incremental run reads exactly the memories of the store that are due: one of the ledger that
  -- changed since the cursor, or one of a session in which some memory changed since then (the session
  -- is read whole).
  pub select_since-Due :
      (m : Memory) → In m (select_since since ledger_source memories) ↔ (In m memories × Due m)
  unfolding select_since
  select_since-Due m = (
    (λ i.
        elim (In-append m (concat (map (λ s. s.1) (filter (has_moved since) g.0)))
          (filter (is_touched since) g.1) i) [
            | inl j ↦ selected_session m j
            | inr j ↦ selected_loose m j
          ]),
    (λ h. due_selected m h.0 h.1),
  )
