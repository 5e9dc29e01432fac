-- ===== src/Ops/Registry.antt =====
-- src/memline/ops.py and src/memline/daemon.py: which requests run alone.
use memline.Prelude.{
  String, ◌≡◌, refl, ap, subst, Bool, true, false, ◌&&◌, ◌||◌, not, List, [], ◌∷◌, ◌==◌, eq_iff,
  if◌then◌else◌, arith, Bool-cases, inl, inr,
}
use memline.Dict.{Dict, null, get}
use memline.Ops.{
  OpSpec, ops, spec_in, exclusive_of, is_exclusive, flag, plan, gated, without, is_llm_bound,
}

-- No entry but "delete" is ever exclusive.
abbrev only_delete : Dict → List (String × OpSpec) → Bool
only_delete args [] = true
only_delete args ((name, s) ∷ specs) =
    (name == "delete" && not (s.exclusive args && not (flag "all" args)) || not (s.exclusive args))
    && only_delete args specs

registered : (args : Dict) → only_delete args ops ≡ true
registered args = ground arith

exclusive_delete :
    (op : String) (args : Dict) (specs : List (String × OpSpec))
    → only_delete args specs ≡ true
    → exclusive_of args (spec_in op specs) ≡ true
    → ((op == "delete") ≡ true) × (flag "all" args ≡ true)
exclusive_delete op args [] all h = cc
exclusive_delete op args ((name, s) ∷ specs) all h = elim (Bool-cases (name == op)) [
  | inl found ↦
      let ex : s.exclusive args ≡ true = rw found at h in
      subst (λ o. ((o == "delete") ≡ true) × (flag "all" args ≡ true)) ((eq_iff name op).0 found)
        (ground arith, ground arith)
  | inr later ↦ exclusive_delete op args specs (ground arith) (rw later at h)
]

is_exclusive-delete :
    (op : String) (args : Dict)
    → is_exclusive op args ≡ true
    → (op ≡ "delete") × (flag "all" args ≡ true)
unfolding is_exclusive
is_exclusive-delete op args h =
    let (named, all) = exclusive_delete op args ops (registered args) h in
    ((eq_iff op "delete").0 named, all)

gated_of :
    (has_queue : Bool) (op : String) (args : Dict) (slot : Bool)
    → plan has_queue op args ≡ gated true slot
    → is_exclusive op args ≡ true
unfolding plan
gated_of has_queue op args slot e = ground arith

-- A request takes the exclusive side of the gate exactly when it is `delete` with the flag `all`, which
-- also takes no slot for calls of an LLM; no other request waits for the running ones.
pub plan_exclusive :
    (has_queue : Bool) (op : String) (args : Dict)
    → ((slot : Bool)
        → plan has_queue op args ≡ gated true slot
        → (op ≡ "delete") × (flag "all" args ≡ true))
      × (flag "all" args ≡ true → plan has_queue "delete" args ≡ gated true false)
unfolding plan is_exclusive is_llm_bound
plan_exclusive has_queue op args = (
  (λ slot e. is_exclusive-delete op args (gated_of has_queue op args slot e)),
  (λ all. rw all refl),
)

-- The arguments of an asynchronous add are queued without the flag `async`, and otherwise unchanged.
pub get-without :
    (key k : String) (args : Dict)
    → get k (without key args) ≡ (if key == k then null else get k args)
get-without key k [] = ground arith
get-without key k ((j, v) ∷ args) = elim (Bool-cases (j == key)) [
  | inl dropped ↦
      let same : (j == k) ≡ (key == k) = ap (λ n. n == k) ((eq_iff j key).0 dropped) in
      rw dropped (ground (arith, get-without key k args, same))
  | inr kept ↦
      rw kept (ground (arith, get-without key k args, eq_iff key k, eq_iff j key, eq_iff j k))
]
