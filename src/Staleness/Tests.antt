-- ===== src/Staleness/Tests.antt =====
-- Invalidation and revival on two concrete memories, and the theorems about them there.
use memline.Prelude.{ℕ, String, ◌≡◌, ◌≢◌, refl, false, none, some, List, [], ◌∷◌, arith}
use memline.Result.{Result, ok, raise, already_invalidated}
use memline.Dict.{Dict}
use memline.Supersession.{visit, walk, assert_no_cycle}
use memline.Supersession.Graph.{Acyclic}
use memline.Pairs.{close_for_old, open_for_old_ids}
use memline.Memory.{MemoryClient}
use memline.Staleness.{World, invalidate, revive, require, is_displacement_protected}
use memline.Staleness.Sample.{Sample, sample_client, agent, two}
use memline.Staleness.Edges.{text_at}
use memline.Staleness.Invalidating.{graph, invalidate-Acyclic, invalidate_lem}
use memline.Staleness.Reviving.{revive-invalidate}

abbrev client : MemoryClient
client = sample_client (λ f. none) none

program : Unit {0}
unfolding visit walk assert_no_cycle close_for_old open_for_old_ids require invalidate revive
program = tt

abbrev outcome {ℓ} : {A : Type ℓ} → A → Result A → A
outcome d (ok r) = r
outcome d (raise e) = d

gone : World Sample × ℕ
unfolding program
gone = outcome (two, 0) (invalidate client 5 "old" ("new" ∷ "new" ∷ []) none agent two)

gone_ok : invalidate client 5 "old" ("new" ∷ "new" ∷ []) none agent two ≡ ok gone
unfolding program gone
gone_ok = refl

gone_twice :
    invalidate client 6 "old" ("new" ∷ []) none agent gone.0 ≡ raise (already_invalidated "old")
unfolding program gone
gone_twice = refl

no_edges : (x : String) → graph client two x ≡ []
no_edges x = ground arith

two-Acyclic : Acyclic (graph client two)
two-Acyclic x y i r = elim (rw (no_edges x) at i) [ ]

gone-Acyclic : Acyclic (graph client gone.0)
gone-Acyclic =
    invalidate-Acyclic client 5 "old" ("new" ∷ "new" ∷ []) none agent two gone gone_ok two-Acyclic

invalidate-Acyclic_example : Acyclic (graph client gone.0)
invalidate-Acyclic_example =
    invalidate-Acyclic client 5 "old" ("new" ∷ "new" ∷ []) none agent two gone gone_ok two-Acyclic

invalidate_lem_example :
    (graph client gone.0 "old" ≡ "new" ∷ [])
    × ((x : String) → x ≢ "old" → client.lookup gone.0.store x ≡ client.lookup two.store x)
    × ((x : String) → text_at (client.lookup gone.0.store x) ≡ text_at (client.lookup two.store x))
    × ((payload : Dict) (t : ℕ)
        → client.lookup gone.0.store "old" ≡ some payload
        → is_displacement_protected payload t ≡ false)
    × (open_for_old_ids ("old" ∷ []) gone.0.pairs "old" ≡ [])
invalidate_lem_example =
    invalidate_lem client 5 "old" ("new" ∷ "new" ∷ []) none agent two gone gone_ok

back : World Sample × List String
unfolding program
back = outcome (two, []) (revive client 8 "old" agent gone.0)

back_ok : revive client 8 "old" agent gone.0 ≡ ok back
unfolding program gone back
back_ok = refl

revive-invalidate_example :
    (r' : World Sample × List String) × (revive client 8 "old" agent gone.0 ≡ ok r')
    × (r'.1 ≡ "new" ∷ [])
    × ((x : String) → graph client r'.0 x ≡ graph client two x)
    × ((x : String) → text_at (client.lookup r'.0.store x) ≡ text_at (client.lookup two.store x))
revive-invalidate_example =
    revive-invalidate client 5 "old" ("new" ∷ "new" ∷ []) none agent two gone gone_ok 8 agent
