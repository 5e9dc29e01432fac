-- ===== src/Wiki/Related.antt =====
-- src/memline/wiki/related.py, `relations`: which pages share evidence. The share of the smaller page is
-- a fraction in hundredths, compared by multiplication.
pub mod Shared
mod Tests
use memline.Prelude.{
  ℕ, ◌*◌, String, Bool, not, ◌&&◌, ◌||◌, List, [], ◌∷◌, ◌++◌, map, filter, elem, length, ltb, leb,
  ◌==◌, if◌then◌else◌,
}
use memline.Prelude.Texts.{text_le}
use memline.Prelude.Table.{sort_by}

-- A published page with the set of its references.
pub record Page : Type 0 where
  pub path : String
  pub refs : List String

pub record Relation : Type 0 where
  pub page : String
  pub shared : ℕ
  pub smaller : ℕ

abbrev pub min_shared : ℕ
min_shared = 3

abbrev pub min_share : ℕ
min_share = 15

-- itertools.combinations(pages, 2)
abbrev pub combinations {ℓ} : {A : Type ℓ} → List A → List (A × A)
combinations [] = []
combinations (x ∷ xs) = map (λ y. (x, y)) xs ++ combinations xs

-- len(refs[a] & refs[b])
abbrev pub shared_count : Page → Page → ℕ
shared_count a b = length (filter (λ r. elem r b.refs) a.refs)

abbrev pub smaller_count : Page → Page → ℕ
smaller_count a b = if leb (length a.refs) (length b.refs) then length a.refs else length b.refs

abbrev pub is_related : Page × Page → Bool
is_related (a, b) =
    leb min_shared (shared_count a b)
    && leb (min_share * smaller_count a b) (100 * shared_count a b)

-- The entry that points to a page, for a pair of pages.
abbrev pub entry : Page × Page → Page → Relation
entry (a, b) target = record {
  page = target.path;
  shared = shared_count a b;
  smaller = smaller_count a b;
}

abbrev pub Relations : Type 0
Relations = List (String × List Relation)

-- out[page]
abbrev pub at : String → Relations → List Relation
at page [] = []
at page ((k, rs) ∷ out) = let rest = at page out in if k == page then rs else rest

-- out[page].append(relation)
abbrev pub append_to : String → Relation → Relations → Relations
append_to page r [] = []
append_to page r ((k, rs) ∷ out) =
    let rest = append_to page r out in
    if k == page then (k, rs ++ r ∷ []) ∷ rest else (k, rs) ∷ rest

abbrev pub relate : Page × Page → Relations → Relations
relate (a, b) out =
    if is_related (a, b)
    then append_to b.path (entry (a, b) a) (append_to a.path (entry (a, b) b) out)
    else out

abbrev pub relate_all : List (Page × Page) → Relations → Relations
relate_all [] out = out
relate_all (pair ∷ pairs) out = relate_all pairs (relate pair out)

-- key=lambda r: (-r["shared"], r["page"])
abbrev pub stronger : Relation → Relation → Bool
stronger r x = ltb x.shared r.shared || leb x.shared r.shared && text_le r.page x.page

abbrev pub ranked : String × List Relation → String × List Relation
ranked (page, rs) = (page, sort_by stronger rs)

abbrev pub sorted_pages : List Page → List Page
sorted_pages = sort_by (λ a b. text_le a.path b.path)

unfoldable pub relations : List Page → Relations
relations pages =
    map ranked (relate_all (combinations (sorted_pages pages)) (map (λ p. (p.path, [])) pages))
