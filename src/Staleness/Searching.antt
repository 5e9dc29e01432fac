-- ===== src/Staleness/Searching.antt =====
-- src/memline/staleness.py: `search_with_staleness` and `annotate_suspected`.
pub mod Hits
use memline.Prelude.{
  ℕ, ◌+◌, ◌*◌, max, String, Bool, true, false, ◌&&◌, not, Option, none, some, List, [], ◌∷◌, map,
  ◌==◌, if◌then◌else◌, filter, take,
}
use memline.Memory.{Item, Query, MemoryClient}
use memline.Pairs.{Kind, Verdict, Pair, PairStore, open_for_old_ids}
use memline.Supersession.{is_nil}
use memline.Staleness.{World, result_item_superseded, result_item_expired}

pub record Suspicion : Type 0 where
  pub kind : Kind
  pub suspected_by : String
  pub verdict : Verdict
  pub confidence : Option ℕ
  pub reason : Option String

-- A result item with its annotation, which is absent where `suspected_stale` is false.
pub record Hit : Type 0 where
  pub item : Item
  pub suspected_stale : Bool
  pub suspicions : List Suspicion

abbrev pub plain : Item → Hit
plain item = record { item = item; suspected_stale = false; suspicions = [] }

abbrev pub suspicion_of : Pair → Suspicion
suspicion_of p = record {
  kind = p.kind;
  suspected_by = p.new_id;
  verdict = p.verdict;
  confidence = p.confidence;
  reason = p.reason;
}

-- if pairs: …
abbrev pub annotated : Item → List Pair → Hit
annotated item pairs = record {
  item = item;
  suspected_stale = not (is_nil pairs);
  suspicions = map suspicion_of pairs;
}

-- [str(i.get("id")) for i in items if i.get("id")]
abbrev pub ids : List Item → List String
ids items = filter (λ id. not (id == "")) (map (λ i. i.id) items)

unfoldable pub annotate_suspected : PairStore → List Item → List Hit
annotate_suspected rows items =
    map (λ item. annotated item (open_for_old_ids (ids items) rows item.id)) items

abbrev pub fetch_k : Bool → ℕ → ℕ
fetch_k include_superseded top_k =
    if include_superseded then top_k else max (top_k * 2) (top_k + 10)

abbrev pub is_current : ℕ → Item → Bool
is_current now i = not (result_item_superseded i) && not (result_item_expired i now)

abbrev pub kept : ℕ → ℕ → List Item → List Item
kept now top_k items = take top_k (filter (is_current now) items)

module _ (c : MemoryClient) where
  open c use {Store, search}

  abbrev pub current_hits : ℕ → ℕ → World Store → Option (List Item) → Option (List Hit)
  current_hits now top_k w none = none
  current_hits now top_k w (some items) = some (annotate_suspected w.pairs (kept now top_k items))

  abbrev pub raw_hits : Option (List Item) → Option (List Hit)
  raw_hits none = none
  raw_hits (some items) = some (map plain items)

  -- An answer without a list of results is passed on, as none.
  unfoldable pub search_with_staleness : ℕ → Query → Bool → World Store → Option (List Hit)
  search_with_staleness now q include_superseded w =
      let answer = search w.store (record q { top_k = fetch_k include_superseded q.top_k }) in
      if include_superseded then raw_hits answer else current_hits now q.top_k w answer
