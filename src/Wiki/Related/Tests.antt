-- ===== src/Wiki/Related/Tests.antt =====
-- Three pages, of which two share evidence.
use memline.Prelude.{◌≡◌, refl, List, [], ◌∷◌}
use memline.Wiki.Related.{Page, Relation, relations}

abbrev article : Page
article = record { path = "articles/a.md"; refs = "r1" ∷ "r2" ∷ "r3" ∷ "r4" ∷ [] }

abbrev distilled : Page
distilled = record { path = "docs/b.md"; refs = "r3" ∷ "r2" ∷ "r1" ∷ [] }

abbrev other : Page
other = record { path = "docs/c.md"; refs = "r1" ∷ "r2" ∷ "r9" ∷ [] }

abbrev pages : List Page
pages = article ∷ distilled ∷ other ∷ []

program : Unit {0}
unfolding relations
program = tt

abbrev to_distilled : Relation
to_distilled = record { page = "docs/b.md"; shared = 3; smaller = 3 }

abbrev to_article : Relation
to_article = record { page = "articles/a.md"; shared = 3; smaller = 3 }

relations-pages :
    relations pages
    ≡ ("articles/a.md", to_distilled ∷ []) ∷ ("docs/b.md", to_article ∷ []) ∷ ("docs/c.md", []) ∷ []
unfolding relations
relations-pages = refl
