-- ===== src/Staleness/PoolTests.antt =====
-- Deadlines, deletion, protection and search on concrete memories, and the theorems about them there.
use memline.Prelude.{
  ℕ, ◌≤◌, String, ◌≡◌, ◌≢◌, refl, eq_iff, ◌==◌, false, none, some, List, [], ◌∷◌, map, filter, any,
  length, arith, In, here, if◌then◌else◌, ◌⊎◌,
}
use memline.Prelude.Texts.{strip}
use memline.Result.{Result, ok, raise}
use memline.Dict.{Dict, time, text, texts, null}
use memline.Memory.{MemoryClient, Item, Query}
use memline.Pairs.{
  Pair, same_kind, ttl_expiry, is_open_for_old, open_for_old_ids, close_for_old, record_judgment,
  consecutive_dismissed_displacement_evidence,
}
use memline.Staleness.{World, require, is_ttl_expired, result_item_superseded, result_item_expired}
use memline.Staleness.Sample.{Sample, sample_client, agent, two, linked, trusted, accused, item_of}
use memline.Staleness.Edges.{text_at}
use memline.Staleness.Invalidating.{graph}
use memline.Staleness.Ttl.{
  Schedule, TtlResult, ttl_cleared, set_ttl, harvest_items, harvest_expired,
}
use memline.Staleness.Ttl.Deadline.{asked, has_passed, set_ttl_lem}
use memline.Staleness.Deleting.{deleted, downgraded, delete_guard, delete_memory}
use memline.Staleness.Deleting.Guarding.{delete_memory_keeps, delete_memory_dangles}
use memline.Staleness.Protection.{
  Protection, set_displacement_protection, clear_displacement_protection,
}
use memline.Staleness.Protection.Granting.{Granted, granted}
use memline.Staleness.Searching.{Hit, annotate_suspected, search_with_staleness}
use memline.Staleness.Searching.Hits.{is_open_against, search_with_staleness_lem}

abbrev results : List Item
results =
    item_of "old" (("superseded_by", texts ("new" ∷ [])) ∷ [])
    ∷ item_of "old" []
    ∷ item_of "new" (("ttl_expires_at", time 4) ∷ [])
    ∷ []

abbrev client : MemoryClient
client = sample_client (λ f. some results) (some results)

pool : Unit {0}
unfolding require set_ttl harvest_items harvest_expired delete_guard delete_memory
    set_displacement_protection clear_displacement_protection annotate_suspected
    search_with_staleness close_for_old open_for_old_ids record_judgment
    consecutive_dismissed_displacement_evidence strip
pool = tt

abbrev outcome {ℓ} : {A : Type ℓ} → A → Result A → A
outcome d (ok r) = r
outcome d (raise e) = d

abbrev in_a_week : Schedule
in_a_week = record { days = none; expires_at = none; clear = false; expire_now = false }

timed : World Sample × TtlResult
unfolding pool
timed = outcome (two, ttl_cleared) (set_ttl client 5 "old" in_a_week none two)

timed_ok : set_ttl client 5 "old" in_a_week none two ≡ ok timed
unfolding pool timed
timed_ok = refl

set_ttl_lem_example :
    ((payload : Dict) (t : ℕ)
      → client.lookup timed.0.store "old" ≡ some payload
      → is_ttl_expired payload t ≡ has_passed (asked 5 in_a_week) t)
    × (filter (is_open_for_old "old" (some ttl_expiry)) timed.0.pairs ≡ [])
    × ((p : Pair) → same_kind p.kind ttl_expiry ≡ false → In p two.pairs → In p timed.0.pairs)
    × ((x : String) → graph client timed.0 x ≡ graph client two x)
    × ((x : String) → text_at (client.lookup timed.0.store x) ≡ text_at (client.lookup two.store x))
    × ((x : String) → x ≢ "old" → client.lookup timed.0.store x ≡ client.lookup two.store x)
set_ttl_lem_example = set_ttl_lem client 5 "old" in_a_week none two timed timed_ok

abbrev isoformat : ℕ → String
isoformat t = "time"

abbrev uuid4 : ℕ → String
uuid4 n = "fresh"

abbrev hash : String → String
hash s = s

-- One of the three results has passed its deadline.
harvests_one : (harvest_expired client hash isoformat uuid4 "user" 9 10 linked).1 ≡ some 1
unfolding pool
harvests_one = refl

delete_memory_keeps_example :
    (w' : World Sample) × (t : TtlResult) × (delete_memory client 5 "old" none linked
      ≡ ok (w', downgraded (delete_guard client "old" linked).reason t))
    × ((x : String) → text_at (client.lookup w'.store x) ≡ text_at (client.lookup linked.store x))
    × ((x : String) → graph client w' x ≡ graph client linked x)
delete_memory_keeps_example = delete_memory_keeps client 5 "old" none linked refl

delete_memory_dangles_example :
    (w' : World Sample) × (delete_memory client 5 "new" none linked ≡ ok (w', deleted))
    × (client.lookup w'.store "new" ≡ none)
    × In "new" (graph client w' "old")
delete_memory_dangles_example =
    delete_memory_dangles client 5 "new" none linked "old" (("data", text "after") ∷ []) refl refl
      (λ e. ground (arith, eq_iff "old" "new")) (here refl)

abbrev nothing : Protection
nothing = record {
  protected_until = 0;
  reason = "";
  protected_by_agent_id = "";
  protected_by_session_id = "";
  evidence = record { eligible = false; required = 0; consecutive_count = 0; pair_ids = [] };
}

shielded : World Sample × Protection
unfolding pool
shielded =
    outcome (trusted, nothing)
      (set_displacement_protection client hash 5 "old" 1000 " false alarms " agent trusted)

shielded_ok :
    set_displacement_protection client hash 5 "old" 1000 " false alarms " agent trusted
    ≡ ok shielded
unfolding pool shielded
shielded_ok = refl

granted_example : Granted client hash 5 "old" 1000 " false alarms " agent trusted shielded
granted_example =
    granted client hash 5 "old" 1000 " false alarms " agent trusted shielded shielded_ok

-- "old" is protected up to the time 50.
abbrev guarded : World Sample
guarded = record {
  store = record {
    payload = λ id.
        if id == "old"
        then some (("displacement_protected_until", time 50) ∷ ("data", text "before") ∷ [])
        else none;
    history = [];
  };
  pairs = [];
}

abbrev asks_old : Query
asks_old = record { query = "text"; top_k = 2; user_id = null; options = [] }

search_with_staleness_lem_example :
    (answer_hits : List Hit) × (search_with_staleness client 9 asks_old false accused
      ≡ some answer_hits)
    × (length answer_hits ≤ 2)
    × ((h : Hit)
        → In h answer_hits
        → In h.item results
          × (result_item_superseded h.item ≡ false)
          × (result_item_expired h.item 9 ≡ false)
          × (h.item.id ≢ "" → h.suspected_stale ≡ any (is_open_against h.item.id) accused.pairs))
    × ((item : Item)
        → In item results
        → result_item_superseded item ≡ false
        → result_item_expired item 9 ≡ false
        → In item (map (λ h. h.item) answer_hits) ⊎ (length answer_hits ≡ 2))
search_with_staleness_lem_example = search_with_staleness_lem client 9 asks_old accused results refl
