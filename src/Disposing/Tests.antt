-- ===== src/Disposing/Tests.antt =====
-- The disposal commands on concrete pairs, and the theorems about them at them.
use memline.Prelude.{◌≡◌, refl, false, ◌==◌, if◌then◌else◌, none, some, [], ◌∷◌}
use memline.Result.{supersedes_itself, already_invalidated}
use memline.Memory.{MemoryClient}
use memline.Pairs.{
  Pair, displacement, safety, superseded, secret_suspect, opened, confirmed, close, dispose, reopen,
  get, open_for_old_ids, close_for_old,
}
use memline.Staleness.{World, invalidate, require}
use memline.Staleness.Ttl.{set_ttl}
use memline.Staleness.Sample.{Sample, sample_client, two}
use memline.Staleness.Invalidating.{graph}
use memline.Supersession.{assert_no_cycle, walk, visit}
use memline.Disposing as Disposing
use memline.Disposing.{
  Session, Answer, answers, stays_out, loses_reply, refuse, reply, denied, unreachable, failed,
  load_open_pair, require_disposition_authority, dispose_with_rollback, stale_confirm, stale_ttl,
  stale_dismiss, by_of,
}
use memline.Disposing.Leaving.{confirms, dismisses, perform}
use memline.Disposing.Authority.{May, Permitted, perform-Permitted}
use memline.Disposing.Confirming.{stale_confirm_lem}

abbrev client : MemoryClient
client = sample_client (λ f. none) none

abbrev doubt : Pair
doubt = record {
  pair_id = "p1";
  kind = displacement;
  new_id = "new";
  old_id = "old";
  old_text_hash = "before";
  verdict = superseded;
  confidence = some 900;
  reason = none;
  judged_at = 1;
  judge_model = none;
  new_session_id = some "s1";
  disposition = opened;
  disposed_by = none;
  disposed_at = none;
}

-- A safety suspicion is about one entry, which stands on both sides.
abbrev leak : Pair
leak = record doubt { pair_id = "p2"; kind = safety; new_id = "old"; verdict = secret_suspect }

abbrev doubted : World Sample
doubted = record two { pairs = doubt ∷ leak ∷ [] }

abbrev writer : Session
writer = record {
  source = some "agent";
  session_id = some "s1";
  is_interactive = false;
  says_yes = false;
  transport = λ op. answers;
}

abbrev stranger : Session
stranger = record writer { session_id = some "s2" }

program : Unit {0}
unfolding stale_confirm stale_ttl stale_dismiss load_open_pair require_disposition_authority
    dispose_with_rollback perform dispose reopen get open_for_old_ids close_for_old invalidate
    require set_ttl assert_no_cycle walk visit
program = tt

stranger_denied :
    stale_confirm client stranger 5 "why" "p1" false doubted ≡ (doubted, refuse denied)
unfolding program
stranger_denied = refl

offline :
    (stale_confirm client
      (record writer { transport = λ op. stays_out })
      5
      "why"
      "p1"
      false
      doubted).1
    ≡ refuse unreachable
unfolding program
offline = refl

leak_not_confirmed :
    perform client writer 5 "why" "p2" (confirms false) doubted
    ≡ (doubted, refuse (failed supersedes_itself))
unfolding program
leak_not_confirmed = refl

-- Whose invalidations are executed without a reply.
abbrev unlucky : Session
unlucky = record writer { transport = λ op. if op == "invalidate" then loses_reply else answers }

abbrev half_done : World Sample
half_done = (stale_confirm client unlucky 5 "why" "p1" false doubted).0

-- The pair is open again, and "old" has its successor.
reopened_with_effect :
    (get "p1" half_done.pairs ≡ some doubt) × (graph client half_done "old" ≡ "new" ∷ [])
unfolding program
reopened_with_effect = (refl, refl)

-- The same command once more is refused: the memory is invalidated already.
again_refused :
    (stale_confirm client writer 6 "why" "p1" false half_done).1
    ≡ refuse (failed (already_invalidated "old"))
unfolding program
again_refused = refl

abbrev after : World Sample
after = (stale_confirm client writer 5 "why" "p1" false doubted).0

confirms_doubt :
    stale_confirm client writer 5 "why" "p1" false doubted ≡ (after, reply (Disposing.superseded 1))
unfolding program
confirms_doubt = refl

doubt_found : get "p1" doubted.pairs ≡ some doubt
unfolding program
doubt_found = refl

stale_confirm_lem_example :
    May writer false doubt
    × (get "p1" after.pairs ≡ some (close 5 confirmed (some "agent") doubt))
    × (graph client after "old" ≡ "new" ∷ [])
    × (open_for_old_ids ("old" ∷ []) after.pairs "old" ≡ [])
stale_confirm_lem_example =
    stale_confirm_lem client writer 5 "why" "p1" false doubted after (Disposing.superseded 1) doubt
      doubt_found refl confirms_doubt

abbrev dropped : World Sample
dropped = (stale_dismiss client writer 5 "p1" false doubted).0

dismisses_doubt :
    perform client writer 5 "why" "p1" (dismisses false) doubted ≡ (dropped, reply Disposing.noted)
unfolding program
dismisses_doubt = refl

perform-Permitted_example : Permitted client writer 5 "why" "p1" false doubted
perform-Permitted_example =
    perform-Permitted client writer 5 "why" "p1" (dismisses false) false doubted dropped
      Disposing.noted refl dismisses_doubt
