-- ===== src/Disposing/Merging/Tests.antt =====
-- A merge of two concrete entries, and one that fails after the update of the newer entry.
use memline.Prelude.{
  String, ◌≡◌, ◌≢◌, refl, false, true, ◌==◌, eq_iff, if◌then◌else◌, some, none, [], ◌∷◌,
}
use memline.Dict.{Dict, time, null}
use memline.Memory.{MemoryClient}
use memline.Result.{already_invalidated}
use memline.Pairs.{
  Pair, displacement, superseded, opened, dispose, reopen, get, open_for_old_ids, close_for_old,
  close_for_updated_text,
}
use memline.Staleness.{World, invalidate, require}
use memline.Staleness.Sample.{Sample, sample_client, two, linked}
use memline.Staleness.Protection.{clear_displacement_protection}
use memline.Staleness.Updating.{update_memory}
use memline.Supersession.{assert_no_cycle, walk, visit}
use memline.Disposing as Disposing
use memline.Disposing.{
  Session, Answer, answers, loses_reply, unreachable, refuse, reply, failed, no_memory,
  load_open_pair, require_disposition_authority, dispose_with_rollback,
}
use memline.Disposing.Rollback.{Tidy}
use memline.Disposing.Merging.{Existing, stale_merge}
use memline.Disposing.Merging.Merged.{Merged, stale_merge_lem}
use memline.Disposing.Merging.Failing.{Partial, stale_merge-Partial}

abbrev client : MemoryClient
client = sample_client (λ f. none) none

abbrev view : Dict → Existing
view payload = record { metadata = payload; created_at = time 1 }

abbrev sha256 : String → String
sha256 s = s

abbrev doubt : Pair
doubt = record {
  pair_id = "p1";
  kind = displacement;
  new_id = "new";
  old_id = "old";
  old_text_hash = "before";
  verdict = superseded;
  confidence = some 900;
  reason = none;
  judged_at = 1;
  judge_model = none;
  new_session_id = some "s1";
  disposition = opened;
  disposed_by = none;
  disposed_at = none;
}

abbrev doubted : World Sample
doubted = record two { pairs = doubt ∷ [] }

-- "old" is superseded already.
abbrev late : World Sample
late = record linked { pairs = doubt ∷ [] }

abbrev writer : Session
writer = record {
  source = some "agent";
  session_id = some "s1";
  is_interactive = false;
  says_yes = false;
  transport = λ op. answers;
}

program : Unit {0}
unfolding stale_merge load_open_pair require_disposition_authority dispose_with_rollback dispose
    reopen get open_for_old_ids close_for_old close_for_updated_text invalidate require
    clear_displacement_protection update_memory assert_no_cycle walk visit
program = tt

abbrev merge : World Sample → Answer Sample
merge = stale_merge client view sha256 null writer 5 "why" "p1" "both" false

merges : merge doubted ≡ ((merge doubted).0, reply (Disposing.superseded 0))
unfolding program
merges = refl

doubt_found : get "p1" doubted.pairs ≡ some doubt
unfolding program
doubt_found = refl

stale_merge_lem_example :
    Merged client view sha256 null writer 5 "why" "p1" "both" false doubted (merge doubted).0 doubt
stale_merge_lem_example =
    stale_merge_lem client view sha256 null writer 5 "why" "p1" "both" doubted (merge doubted).0
      (Disposing.superseded 0) doubt false doubt_found merges

late_fails : merge late ≡ ((merge late).0, refuse (failed (already_invalidated "old")))
unfolding program
late_fails = refl

old_not_new : doubt.old_id ≢ doubt.new_id
old_not_new h = unequal ((eq_iff "old" "new").1 h)
  where
    unequal : ("old" == "new") ≡ true → ⊥
    unequal e = cc

abbrev unlucky : Session
unlucky = record writer { transport = λ op. if op == "invalidate" then loses_reply else answers }

abbrev cut : World Sample → Answer Sample
cut = stale_merge client view sha256 null unlucky 5 "why" "p1" "both" false

cut_off : cut doubted ≡ ((cut doubted).0, refuse unreachable)
unfolding program
cut_off = refl

doubted-Tidy : Tidy doubted.pairs
doubted-Tidy = record { keyed = (refl, tt); unstamped = ((λ h. (refl, refl)), tt) }

stale_merge-Partial_example :
    Partial client view sha256 null unlucky 5 "why" "p1" "both" doubt doubted
      (cut doubted).0
      unreachable
stale_merge-Partial_example =
    stale_merge-Partial client view sha256 null unlucky 5 "why" "p1" "both" doubted (cut doubted).0
      doubt unreachable doubted-Tidy doubt_found refl old_not_new false cut_off
