-- ===== src/Staleness/Checking/Candidates.antt =====
-- src/memline/staleness.py, `run_stale_check`: which neighbors the judge is given.
use memline.Prelude.{
  ℕ, ◌≤◌, max, String, ◌≡◌, refl, ◌∙◌, Bool, true, false, Option, List, filter, take, length, In,
  In-take, In-filter, In-filter_of, or_split, not_true→false, length-take-le, ◌==◌, length-map,
  In-map, In-map_of, In-take_or_full, inl, inr, ◌⊎◌, ◌||◌, not, any, elem, eq_iff, arith,
  Bool-cases, map, subst, sym, ap, here, there, [], ◌∷◌,
}
use memline.Memory.{Item}
use memline.Staleness.{result_item_superseded, result_item_displacement_protected}
use memline.Staleness.Checking.{
  Entry, Judges, is_candidate, candidates, entry_of, already_judged, unjudged,
}
use memline.Pairs.{Pair, PairStore, displacement, is_version, is_judged_either, judged_either}
use memline.Prelude.Places.{any-In, any_of}

elem-In : (x : String) (ys : List String) → elem x ys ≡ true → (y : String) × In y ys × (x ≡ y)
elem-In x [] h = cc
elem-In x (y ∷ ys) h = elim (Bool-cases (x == y)) [
  | inl same ↦ (y, here refl, (eq_iff x y).0 same)
  | inr other ↦ let (z, i, e) = elem-In x ys (rw other at h) in (z, there i, e)
]

elem_of : (x : String) (ys : List String) → In x ys → elem x ys ≡ true
elem_of x [] i = elim i [ ]
elem_of x (y ∷ ys) (here e) = ground (arith, eq_iff x y)
elem_of x (y ∷ ys) (there i) = ground (arith, elem_of x ys i)

length-filter_le : (p : Entry → Bool) (xs : List Entry) → length (filter p xs) ≤ length xs
length-filter_le p [] = omega arith
length-filter_le p (x ∷ xs) = ground (arith, length-filter_le p xs)

module _ (sha256 : String → String) (judges : Judges) (session_id : Option String) (now : ℕ)
    (new_id : String) (top_k : ℕ) (items : List Item) where
  -- An item that may be judged: another entry, with an id, that is neither superseded nor protected.
  pub record Judgeable (item : Item) : Type 0 where
    pub named : (item.id == "") ≡ false
    pub other : (item.id == new_id) ≡ false
    pub standing : result_item_superseded item ≡ false
    pub unprotected : result_item_displacement_protected item now ≡ false

  abbrev passes : Item → Bool
  passes item = is_candidate sha256 judges session_id now new_id item

  Judgeable-of : (item : Item) → passes item ≡ true → Judgeable item
  Judgeable-of item h =
      let (abc, d) =
        or_split _ (result_item_displacement_protected item now) (not_true→false _ h) in
      let (ab, c) = or_split _ (result_item_superseded item) abc in
      let (a, b) = or_split (item.id == "") (item.id == new_id) ab in
      record { named = a; other = b; standing = c; unprotected = d }

  passes_of : (item : Item) → Judgeable item → passes item ≡ true
  passes_of item j = rw (j.named, j.other, j.standing, j.unprotected) refl

  abbrev chosen : List Entry
  chosen = candidates sha256 judges session_id now new_id top_k items

  abbrev describe : Item → Entry
  describe = entry_of sha256 judges session_id now

  abbrev taken : List Item
  taken = take (max 1 top_k) (filter passes items)

  from_item :
      (e : Entry)
      → In e chosen
      → (item : Item) × In item items × Judgeable item × (e ≡ describe item)
  from_item e i =
      let (item, j, same) = In-map describe e taken i in
      let (found, passed) = In-filter passes item items (In-take _ item _ j) in
      (item, found, Judgeable-of item passed, same)

  to_entry :
      (item : Item)
      → In item items
      → Judgeable item
      → In (describe item) chosen ⊎ (length chosen ≡ max 1 top_k)
  to_entry item i j =
      elim (In-take_or_full item (filter passes items) (max 1 top_k)
        (In-filter_of passes item items i (passes_of item j))) [
          | inl k ↦ inl (In-map_of describe item taken k)
          | inr full ↦ inr (length-map describe taken ∙ full)
        ]

  module _ (body date : String) (rows : PairStore) where
    abbrev entry : Entry
    entry = record { id = new_id; body = body; date = date }

    -- A displacement judgment of the two entries, in one direction or the other, on the text that the
    -- older side of it has now.
    pub record JudgedBefore (e : Entry) (p : Pair) : Type 0 where
      pub kind : p.kind ≡ displacement
      pub direction :
          ((p.new_id ≡ new_id) × (p.old_id ≡ e.id) × (p.old_text_hash ≡ sha256 e.body))
          ⊎ ((p.new_id ≡ e.id) × (p.old_id ≡ new_id) × (p.old_text_hash ≡ sha256 body))

    version-of :
        (n o h : String) (p : Pair)
        → is_version displacement n o h p ≡ true
        → (p.kind ≡ displacement) × (p.new_id ≡ n) × (p.old_id ≡ o) × (p.old_text_hash ≡ h)
    version-of n o h p v = (
      ground arith,
      ground (arith, eq_iff p.new_id n),
      ground (arith, eq_iff p.old_id o),
      ground (arith, eq_iff p.old_text_hash h),
    )

    of-version :
        (n o h : String) (p : Pair)
        → p.kind ≡ displacement
        → p.new_id ≡ n
        → p.old_id ≡ o
        → p.old_text_hash ≡ h
        → is_version displacement n o h p ≡ true
    of-version n o h p k a b c =
        ground (arith, eq_iff p.new_id n, eq_iff p.old_id o, eq_iff p.old_text_hash h)

    abbrev either : Entry → Pair → Bool
    either e p =
        is_version displacement new_id e.id (sha256 e.body) p
        || is_version displacement e.id new_id (sha256 body) p

    either-JudgedBefore : (e : Entry) (p : Pair) → either e p ≡ true → JudgedBefore e p
    either-JudgedBefore e p h =
        elim (Bool-cases (is_version displacement new_id e.id (sha256 e.body) p)) [
          | inl v ↦
              let (k, a, b, c) = version-of new_id e.id (sha256 e.body) p v in
              record { kind = k; direction = inl (a, b, c) }
          | inr miss ↦
              let v : is_version displacement e.id new_id (sha256 body) p ≡ true = ground arith in
              let (k, a, b, c) = version-of e.id new_id (sha256 body) p v in
              record { kind = k; direction = inr (a, b, c) }
        ]

    JudgedBefore-either : (e : Entry) (p : Pair) → JudgedBefore e p → either e p ≡ true
    JudgedBefore-either e p j = elim j.direction [
      | inl (a, b, c) ↦
          let v = of-version new_id e.id (sha256 e.body) p j.kind a b c in ground arith
      | inr (a, b, c) ↦ let v = of-version e.id new_id (sha256 body) p j.kind a b c in ground arith
    ]

    abbrev before : Entry → Bool
    before e = any (either e) rows

    abbrev already : List String
    already = already_judged sha256 judges session_id now entry chosen rows

    -- What the judge is given.
    abbrev pub seen : List Entry
    seen = unjudged sha256 judges session_id now already chosen

    abbrev judged_pair : String × String → Bool
    judged_pair pair = is_judged_either sha256 new_id body pair rows

    abbrev judged_pairs : List (String × String)
    judged_pairs = filter judged_pair (map (λ c. (c.id, c.body)) chosen)

    already_by :
        (id : String)
        → elem id already ≡ true
        → (e : Entry) × In e chosen × (e.id ≡ id) × (p : Pair) × In p rows × JudgedBefore e p
    unfolding judged_either
    already_by id h =
        let (x, i, same) = elem-In id already h in
        let (pair, j, f) = In-map (λ (c : String × String). c.0) x judged_pairs i in
        let (k, was) = In-filter judged_pair pair (map (λ c. (c.id, c.body)) chosen) j in
        let (e, l, g) = In-map (λ (c : Entry). (c.id, c.body)) pair chosen k in
        let (p, m, v) = any-In (either e) rows (subst (λ q. judged_pair q ≡ true) g was) in
        (
          e,
          l,
          sym (same ∙ f ∙ ap (λ (q : String × String). q.0) g),
          p,
          m,
          either-JudgedBefore e p v,
        )

    in_already :
        (e : Entry) (p : Pair)
        → In e chosen
        → In p rows
        → JudgedBefore e p
        → elem e.id already ≡ true
    unfolding judged_either
    in_already e p i k j = elem_of e.id already (
        In-map_of (λ (c : String × String). c.0) (e.id, e.body) judged_pairs
          (In-filter_of judged_pair (e.id, e.body) (map (λ c. (c.id, c.body)) chosen)
            (In-map_of (λ (c : Entry). (c.id, c.body)) e chosen i)
            (any_of (either e) p rows k (JudgedBefore-either e p j))))

    -- The judge is given at most `top_k` neighbors (one, if that is 0), each of them a search result that is
    -- another entry, is not superseded and is not protected at that time, and that no displacement
    -- judgment of the two entries on their present texts stands for. Such a result, expired or not, is left
    -- out only if the limit is reached among those not yet compared with the judgments, or one of these
    -- with its id has been judged before.
    pub candidates_exact :
        (length seen ≤ max 1 top_k)
        × ((e : Entry)
            → In e seen
            → (item : Item) × In item items
              × Judgeable item
              × (e ≡ describe item)
              × ((p : Pair) → In p rows → JudgedBefore e p → ⊥))
        × ((item : Item)
            → In item items
            → Judgeable item
            → In (describe item) seen
              ⊎ ((length chosen ≡ max 1 top_k)
                  ⊎ ((e : Entry) × In e chosen
                      × (e.id ≡ item.id)
                      × (p : Pair) × In p rows
                      × JudgedBefore e p)))
    candidates_exact = (
      omega (
        arith,
        length-filter_le (λ c. not (elem c.id already)) chosen,
        length-map describe taken,
        length-take-le (max 1 top_k) (filter passes items),
      ),
      (λ e i.
          let (j, fresh) = In-filter (λ c. not (elem c.id already)) e chosen i in
          let (item, k, ok_item, same) = from_item e j in
          (item, k, ok_item, same, λ p l b. cc (fresh, in_already e p j l b))),
      λ item i ok_item. elim (to_entry item i ok_item) [
        | inr full ↦ inr (inl full)
        | inl j ↦ elim (Bool-cases (elem item.id already)) [
          | inl known ↦ inr (inr (already_by item.id known))
          | inr new ↦
              inl (In-filter_of (λ c. not (elem c.id already)) (describe item) chosen j (rw new))
        ]
      ],
    )
