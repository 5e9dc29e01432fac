-- ===== src/Pairs/Dismissals.antt =====
-- src/memline/staleness.py, `consecutive_dismissed_displacement_evidence`: what makes a memory eligible
-- for displacement protection.
use memline.Prelude.{
  ℕ, suc, ◌≤◌, String, ◌≡◌, refl, true, false, List, [], ◌∷◌, arith, elem, length, ◌↔◌,
  length-take-le, leb→le, le→leb,
}
use memline.Result.{ok}
use memline.Pairs.{
  Disposition, dismissed, Pair, PairStore, Evidence, latest_evidence, dismissed_run,
  consecutive_dismissed_displacement_evidence, is_dismissed,
}

-- Every pair of the list is dismissed, and no two judge by the same new entry, nor by one already seen.
abbrev pub Independent : List String → List Pair → Type 0
Independent seen [] = Unit
Independent seen (p ∷ ps) =
    (p.disposition ≡ dismissed) × (elem p.new_id seen ≡ false) × Independent (p.new_id ∷ seen) ps

length-dismissed_run-le :
    (ps : List Pair) (seen : List String) → length (dismissed_run ps seen) ≤ length ps
length-dismissed_run-le [] seen = omega arith
length-dismissed_run-le (p ∷ ps) seen = ground (arith, length-dismissed_run-le ps (p.new_id ∷ seen))

dismissed_of : (d : Disposition) → is_dismissed d ≡ true → d ≡ dismissed
dismissed_of d h = ground arith

whole_run :
    (ps : List Pair) (seen : List String)
    → length ps ≤ length (dismissed_run ps seen)
    → Independent seen ps
whole_run [] seen h = tt
whole_run (p ∷ ps) seen h =
    (ground arith, ground arith, whole_run ps (p.new_id ∷ seen) (ground arith))

run_whole :
    (ps : List Pair) (seen : List String)
    → Independent seen ps
    → length (dismissed_run ps seen) ≡ length ps
run_whole [] seen h = refl
run_whole (p ∷ ps) seen h = ground (arith, run_whole ps (p.new_id ∷ seen) h.2)

-- For a positive number of required suspicions the check answers, and it says eligible exactly when the
-- latest ones of this text version that were strong enough to open (so many, no fewer) are all
-- dismissed and come from distinct new entries.
pub evidence_eligible :
    (sha256 : String → String) (old_id old_text : String) (k : ℕ) (rows : PairStore)
    → (e : Evidence) × (consecutive_dismissed_displacement_evidence sha256 old_id old_text
          (suc k)
          rows
        ≡ ok e)
      × ((e.eligible ≡ true) ↔ (
          (length (latest_evidence sha256 old_id old_text (suc k) rows) ≡ suc k)
          × Independent [] (latest_evidence sha256 old_id old_text (suc k) rows)))
unfolding consecutive_dismissed_displacement_evidence
evidence_eligible sha256 old_id old_text k rows = (
  _,
  refl,
  (
    (λ h.
        let enough = leb→le (suc k) (length (dismissed_run latest [])) h in
        (
          omega (arith, length-dismissed_run-le latest [], within),
          whole_run latest [] (omega (arith, within)),
        )),
    (λ h.
        le→leb (suc k) (length (dismissed_run latest []))
          (omega (arith, run_whole latest [] h.1, h.0))),
  ),
)
  where
    latest : List Pair
    latest = latest_evidence sha256 old_id old_text (suc k) rows

    within : length latest ≤ suc k
    within = length-take-le (suc k) _
