-- ===== src/Staleness/Checking/Tests.antt =====
-- A stale check of a concrete entry, with judges that find a secret in it.
use memline.Prelude.{
  ℕ, zero, suc, ◌≤◌, String, ◌≡◌, refl, true, false, Option, none, some, List, [], ◌∷◌, In, length,
  arith, eq_iff, ◌⊎◌, map,
}
use memline.Dict.{time, texts}
use memline.Memory.{Item, MemoryClient}
use memline.Pairs.{
  Pair, PairStore, displacement, cached, durable, secret_suspect, consistent, superseded,
  has_judgment, judged_either, record_judgment,
}
use memline.Staleness.Sample.{sample_client, two, item_of}
use memline.Staleness.Checking.{
  Entry, Judges, judged, SelfReport, checked, run_self_checks, record_all, run_stale_check,
  candidates, entry_of,
}
use memline.Staleness.Checking.Rerun.{all_cached, run_self_checks_again}
use memline.Staleness.Checking.Candidates.{Judgeable, JudgedBefore, seen, candidates_exact}

abbrev hash : String → String
hash s = s

abbrev judges : Judges
judges = record {
  necessity = λ e. some (record { verdict = durable; confidence = some 900; reason = "" });
  safety = λ e. some (record { verdict = secret_suspect; confidence = some 900; reason = "" });
  correctness =
      λ e i c w. some (record { verdict = consistent; confidence = some 900; reason = "" });
  displacement = λ e cs.
      some (("old", record { verdict = superseded; confidence = some 700; reason = "" }) ∷ []);
  active_model = none;
}

-- The judges may have changed their minds.
abbrev others : Judges
others = record judges { safety = λ e. none }

abbrev uuid4 : ℕ → String
uuid4 zero = "a"
uuid4 (suc zero) = "b"
uuid4 (suc (suc zero)) = "c"
uuid4 _ = "d"

abbrev entry : Entry
entry = record { id = "new"; body = "after"; date = "" }

abbrev results : List Item
results =
    item_of "new" []
    ∷ item_of "gone" (("superseded_by", texts ("new" ∷ [])) ∷ [])
    ∷ item_of "kept" (("displacement_protected_until", time 9) ∷ [])
    ∷ item_of "old" []
    ∷ []

abbrev client : MemoryClient
client = sample_client (λ f. none) (some results)

program : Unit {0}
unfolding run_self_checks record_all run_stale_check has_judgment judged_either record_judgment
program = tt

-- Only "old" is put before the judge, and the suspicion opens.
checks_old :
    (run_stale_check hash judges none 5 client uuid4 "new" 10 false two).1
    ≡ some (
        checked
          (record {
            necessity = judged durable false;
            safety = judged secret_suspect true;
            correctness = judged consistent false;
          })
          1
          1
          0)
unfolding program
checks_old = refl

first_run : PairStore × Option SelfReport
unfolding program
first_run = run_self_checks hash judges none 5 uuid4 entry [] []

abbrev report : SelfReport
report = record {
  necessity = judged durable false;
  safety = judged secret_suspect true;
  correctness = judged consistent false;
}

first_ok : run_self_checks hash judges none 5 uuid4 entry [] [] ≡ (first_run.0, some report)
unfolding program first_run
first_ok = refl

run_self_checks_again_example :
    run_self_checks hash others (some "later") 6 uuid4 entry [] first_run.0
    ≡ (first_run.0, some all_cached)
run_self_checks_again_example =
    run_self_checks_again hash entry judges none 5 uuid4 [] [] first_run.0 report refl refl refl
      (λ e. ground (arith, eq_iff "a" "b")) (λ e. ground (arith, eq_iff "a" "c"))
      (λ e. ground (arith, eq_iff "b" "c")) first_ok others (some "later") 6 uuid4 []

-- "old" has been judged on its present text.
abbrev past : PairStore
past =
    record {
      pair_id = "p";
      kind = displacement;
      new_id = "new";
      old_id = "old";
      old_text_hash = "text";
      verdict = consistent;
      confidence = some 900;
      reason = none;
      judged_at = 1;
      judge_model = none;
      new_session_id = none;
      disposition = cached;
      disposed_by = none;
      disposed_at = none;
    }
    ∷ []

abbrev more : List Item
more = item_of "another" [] ∷ results

abbrev found : List Entry
found = candidates hash judges none 5 "new" 2 more

abbrev shown : List Entry
shown = seen hash judges none 5 "new" 2 more "after" "" past

-- Two candidates, of which the judge is given the one that is not judged yet.
found_two : map (λ e. e.id) found ≡ "another" ∷ "old" ∷ []
unfolding program
found_two = refl

shown_one : map (λ e. e.id) shown ≡ "another" ∷ []
unfolding program
shown_one = refl

abbrev Past : Entry → Pair → Type 0
Past = JudgedBefore hash judges none 5 "new" 2 more "after" "" past

candidates_exact_example :
    (length shown ≤ 2)
    × ((e : Entry)
        → In e shown
        → (item : Item) × In item more
          × Judgeable hash judges none 5 "new" 2 more item
          × (e ≡ entry_of hash judges none 5 item)
          × ((p : Pair) → In p past → Past e p → ⊥))
    × ((item : Item)
        → In item more
        → Judgeable hash judges none 5 "new" 2 more item
        → In (entry_of hash judges none 5 item) shown
          ⊎ ((length found ≡ 2)
              ⊎ ((e : Entry) × In e found × (e.id ≡ item.id) × (p : Pair) × In p past × Past e p)))
candidates_exact_example = candidates_exact hash judges none 5 "new" 2 more "after" "" past
