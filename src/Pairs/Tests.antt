-- ===== src/Pairs/Tests.antt =====
-- The pair store on concrete rows, and the theorems about it at them. The hash is a prefix of the text.
use Prim.Native.String.{◌++◌ as text_append}
use memline.Prelude.{
  ℕ, suc, String, ◌≡◌, refl, true, false, none, some, List, [], ◌∷◌, ◌++◌, here, there, In,
}
use memline.Result.{ok, raise, invalid_disposition}
use memline.Pairs.{
  displacement, superseded, Pair, PairStore, Judgment, cached, dismissed, confirmed,
  record_judgment, has_judgment, judged_row, dispose, reopen, close_for_old,
  close_for_deleted_memory, close_for_updated_text, open_for_old_ids,
  consecutive_dismissed_displacement_evidence, judged_either, open_pairs, open_count,
}
use memline.Pairs.Calls.{Call, records, disposes, reopens, closes_deleted, step, run}
use memline.Pairs.Distinct.{Distinct}
use memline.Pairs.Finality.{Next, run-Next}
use memline.Pairs.Judging.{record_judgment_once}

abbrev hash : String → String
hash text = text_append "sha:" text

abbrev displaced : String → Judgment
displaced by = record {
  kind = displacement;
  new_id = by;
  old_id = "m";
  old_text = "t";
  verdict = superseded;
  confidence = some 900;
  reason = none;
  judge_model = none;
  new_session_id = some "s";
}

abbrev rejected : String → ℕ → Pair
rejected by now = record (judged_row hash now by (displaced by)) {
  disposition = dismissed;
  disposed_by = some "agent";
  disposed_at = some (suc now);
}

abbrev rows : PairStore
rows = rejected "a" 1 ∷ rejected "b" 2 ∷ rejected "c" 3 ∷ []

program : Unit {0}
unfolding record_judgment has_judgment dispose reopen close_for_old close_for_deleted_memory
    close_for_updated_text open_for_old_ids consecutive_dismissed_displacement_evidence
    judged_either open_pairs open_count step run
program = tt

rows-Distinct : Distinct rows
rows-Distinct = (refl, (refl, (refl, tt)))

eligible :
    consecutive_dismissed_displacement_evidence hash "m" "t" 3 rows
    ≡ ok (record {
      eligible = true;
      required = 3;
      consecutive_count = 3;
      pair_ids = "c" ∷ "b" ∷ "a" ∷ [];
    })
unfolding program
eligible = refl

not_eligible_after_new :
    consecutive_dismissed_displacement_evidence hash "m" "t" 3
      (record_judgment hash 4 "d" (displaced "d") rows).0
    ≡ ok (record { eligible = false; required = 3; consecutive_count = 0; pair_ids = [] })
unfolding program
not_eligible_after_new = refl

dispose_cached : dispose 5 "a" cached none rows ≡ raise invalid_disposition
unfolding program
dispose_cached = refl

dismissed_stays : (reopen "a" rows).1 ≡ false
unfolding program
dismissed_stays = refl

abbrev history : List (ℕ × Call)
history =
    (5, reopens "a")
    ∷ (6, records "d" (displaced "d"))
    ∷ (7, disposes "d" confirmed none)
    ∷ (8, reopens "d")
    ∷ (9, closes_deleted "m")
    ∷ []

run-Next_example : (p' : Pair) × In p' (run hash history rows) × Next (rejected "b" 2) p'
run-Next_example = run-Next hash history rows (rejected "b" 2) (there (here refl))

record_judgment_once_example : record_judgment hash 6 "d" (displaced "d") rows ≡ (
  rows ++ judged_row hash 6 "d" (displaced "d") ∷ [],
  judged_row hash 6 "d" (displaced "d"),
  true,
)
unfolding has_judgment
record_judgment_once_example = record_judgment_once hash 6 "d" (displaced "d") rows refl

abbrev accused : PairStore
accused = judged_row hash 6 "d" (displaced "d") ∷ rows
