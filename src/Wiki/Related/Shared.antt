-- ===== src/Wiki/Related/Shared.antt =====
-- src/memline/wiki/related.py, `relations`: which entries a page gets.
use memline.Prelude.{
  String, ◌≡◌, ◌⊎◌, refl, ap, inl, inr, Bool, true, false, ◌||◌, List, [], ◌∷◌, ◌==◌, In,
  Bool-cases,
}
use memline.Wiki.Related.{Page, Relation, Relations, is_related, entry, append_to}

abbrev pub has_page : String → Relations → Bool
has_page page [] = false
has_page page ((k, rs) ∷ out) = k == page || has_page page out

module _ (page : String) (r : Relation) where
  pub has_page-append_to :
      (k : String) (out : Relations) → has_page page (append_to k r out) ≡ has_page page out
  has_page-append_to k [] = refl
  has_page-append_to k ((x, rs) ∷ out) = elim (Bool-cases (x == k)) [
    | inl hit ↦ rw hit (ap (λ b. x == page || b) (has_page-append_to k out))
    | inr miss ↦ rw miss (ap (λ b. x == page || b) (has_page-append_to k out))
  ]

-- A pair of pages that are related puts an entry for each on the page of the other.
abbrev pub Entered : Page × Page → String → Relation → Type 0
Entered (a, b) page x =
    (is_related (a, b) ≡ true)
    × (((a.path ≡ page) × (x ≡ entry (a, b) b)) ⊎ ((b.path ≡ page) × (x ≡ entry (a, b) a)))

abbrev pub EnteredBy : List (Page × Page) → String → Relation → Type 0
EnteredBy pairs page x = (pair : Page × Page) × In pair pairs × Entered pair page x
