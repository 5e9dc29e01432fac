-- ===== src/Staleness/Searching/Hits.antt =====
-- src/memline/staleness.py, `search_with_staleness`: which items a default search answers, and which of
-- them it flags.
use memline.Prelude.{
  ℕ, ◌≤◌, String, ◌≡◌, ◌≢◌, refl, sym, subst, Bool, true, false, ◌&&◌, not, Option, some, List, [],
  ◌∷◌, map, ◌==◌, eq_iff, arith, filter, any, elem, length, length-take-le, In, In-take, In-filter,
  In-filter_of, Bool-cases, length-map, In-map, In-map_of, In-take_or_full, and_split,
  not_true→false, inl, inr, ◌⊎◌,
}
use memline.Memory.{Item, Query, MemoryClient}
use memline.Supersession.Graph.{In-elem}
use memline.Pairs.{Pair, PairStore, is_opened, open_for_old_ids}
use memline.Staleness.{World, result_item_superseded, result_item_expired}
use memline.Staleness.Searching.{
  Hit, annotated, ids, annotate_suspected, is_current, kept, fetch_k, search_with_staleness,
}

-- Whether a pair accuses an entry.
abbrev pub is_open_against : String → Pair → Bool
is_open_against id p = is_opened p.disposition && p.old_id == id

module _ (rows : PairStore) (items : List Item) (item : Item) (i : In item items)
    (named : item.id ≢ "") where
  named_test : not (item.id == "") ≡ true
  named_test = ground (arith, eq_iff item.id "")

  listed : elem item.id (ids items) ≡ true
  listed = In-elem item.id (ids items) (
      In-filter_of (λ id. not (id == "")) item.id (map (λ x. x.id) items)
        (In-map_of (λ x. x.id) item items i) named_test)

  one_flag :
      (p : Pair)
      → (is_opened p.disposition && elem p.old_id (ids items) && p.old_id == item.id)
        ≡ is_open_against item.id p
  one_flag p = elim (Bool-cases (p.old_id == item.id)) [
    | inl same ↦
        let e : elem p.old_id (ids items) ≡ true = rw ((eq_iff p.old_id item.id).0 same) listed in
        ground arith
    | inr other ↦ ground arith
  ]

  flags :
      (xs : PairStore)
      → (annotated item (
          filter
            (λ p. is_opened p.disposition && elem p.old_id (ids items) && p.old_id == item.id)
            xs)).suspected_stale
        ≡ any (is_open_against item.id) xs
  flags [] = refl
  flags (p ∷ xs) = elim (Bool-cases (is_open_against item.id p)) [
    | inl hit ↦ rw (one_flag p, hit) refl
    | inr miss ↦ rw (one_flag p, miss) (flags xs)
  ]

  flagged :
      (annotated item (open_for_old_ids (ids items) rows item.id)).suspected_stale
      ≡ any (is_open_against item.id) rows
  unfolding open_for_old_ids
  flagged = flags rows

module _ (c : MemoryClient) where
  open c use {Store, search}

  abbrev pub fetched : Query → World Store → Option (List Item)
  fetched q w = search w.store (record q { top_k = fetch_k false q.top_k })

  module _ (now : ℕ) (q : Query) (w : World Store) (items : List Item)
      (answer : fetched q w ≡ some items) where
    abbrev hits : List Hit
    hits = annotate_suspected w.pairs (kept now q.top_k items)

    searched : search_with_staleness c now q false w ≡ some hits
    unfolding search_with_staleness
    searched = rw answer refl

    abbrev annotate : Item → Hit
    annotate item = annotated item (open_for_old_ids (ids (kept now q.top_k items)) w.pairs item.id)

    hits_of : hits ≡ map annotate (kept now q.top_k items)
    unfolding annotate_suspected
    hits_of = refl

    within : length hits ≤ q.top_k
    within = rw (hits_of, length-map) (length-take-le q.top_k _)

    abbrev Sound : Hit → Type 0
    Sound h =
        In h.item items
        × (result_item_superseded h.item ≡ false)
        × (result_item_expired h.item now ≡ false)
        × (h.item.id ≢ "" → h.suspected_stale ≡ any (is_open_against h.item.id) w.pairs)

    sound : (item : Item) → In item (kept now q.top_k items) → Sound (annotate item)
    sound item i =
        let (j, now_current) = In-filter (is_current now) item items (In-take q.top_k item _ i) in
        let (standing, fresh) =
          and_split (not (result_item_superseded item)) (not (result_item_expired item now))
            now_current in
        (
          j,
          not_true→false _ standing,
          not_true→false _ fresh,
          flagged w.pairs (kept now q.top_k items) item i,
        )

    each : (h : Hit) → In h hits → Sound h
    each h i =
        let (item, j, e) = In-map annotate h (kept now q.top_k items) (rw hits_of at i) in
        subst Sound (sym e) (sound item j)

    complete :
        (item : Item)
        → In item items
        → result_item_superseded item ≡ false
        → result_item_expired item now ≡ false
        → In item (map (λ h. h.item) hits) ⊎ (length hits ≡ q.top_k)
    complete item i standing fresh =
        let h : is_current now item ≡ true = rw (standing, fresh) refl in
        elim (In-take_or_full item (filter (is_current now) items) q.top_k
          (In-filter_of _ item items i h)) [
            | inl j ↦ inl (
                rw hits_of (
                  In-map_of (λ x. x.item) (annotate item) (map annotate (kept now q.top_k items))
                    (In-map_of annotate item (kept now q.top_k items) j)))
            | inr full ↦ inr (rw (hits_of, length-map) full)
          ]

    -- The default search, on a list of results: it answers at most `top_k` hits, each of them one of the
    -- results, not superseded and not expired; a result that is neither is left out only if there are
    -- `top_k` hits; and a hit that has an id is flagged exactly when an open pair accuses it.
    pub search_with_staleness_lem :
        (answer_hits : List Hit) × (search_with_staleness c now q false w ≡ some answer_hits)
        × (length answer_hits ≤ q.top_k)
        × ((h : Hit)
            → In h answer_hits
            → In h.item items
              × (result_item_superseded h.item ≡ false)
              × (result_item_expired h.item now ≡ false)
              × (h.item.id ≢ "" → h.suspected_stale ≡ any (is_open_against h.item.id) w.pairs))
        × ((item : Item)
            → In item items
            → result_item_superseded item ≡ false
            → result_item_expired item now ≡ false
            → In item (map (λ h. h.item) answer_hits) ⊎ (length answer_hits ≡ q.top_k))
    search_with_staleness_lem = (hits, searched, within, each, complete)
