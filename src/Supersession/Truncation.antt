-- ===== src/Supersession/Truncation.antt =====
-- src/memline/staleness.py, `resolve_head` at a chain that is longer than MAX_CHAIN_DEPTH hops.
use memline.Prelude.{
  ℕ, zero, suc, ◌+◌, ◌≤◌, String, ◌≡◌, refl, ap, ◌∙◌, inl, inr, false, some, List, [], ◌∷◌, ◌==◌,
  elem, here, arith, if◌then◌else◌, or_join, String-cases,
}
use memline.Result.{ok}
use memline.Dict.{Dict}
use memline.Supersession.{
  GetPayload, successors, superseded_ids, is_nil, Level, Heads, resolve_level, resolve,
  resolve_from, resolve_head, max_chain_depth,
}
use memline.Supersession.Graph.{Reaches, start, onward}

-- A chain of memories, each superseded by the next one, through the depth limit and beyond.
pub record LongChain (get_payload : GetPayload) (ids : ℕ → String) : Type 0 where
  pub distinct : (i j : ℕ) → ids i ≡ ids j → i ≡ j
  pub exists : (i : ℕ) → i ≤ suc max_chain_depth → (p : Dict) × (get_payload (ids i) ≡ some p)
  pub next : (i : ℕ) → i ≤ max_chain_depth → successors get_payload (ids i) ≡ ids (suc i) ∷ []

module _ (get_payload : GetPayload) (ids : ℕ → String) (chain : LongChain get_payload ids) where
  abbrev Unseen : ℕ → List String → Type 0
  Unseen i visited = (j : ℕ) → i ≤ j → elem (ids j) visited ≡ false

  Unseen-next :
      (i : ℕ) (visited : List String) → Unseen i visited → Unseen (suc i) (ids i ∷ visited)
  Unseen-next i visited h j le =
      or_join (ids j == ids i) (elem (ids j) visited) other (h j (omega arith))
    where
      other : (ids j == ids i) ≡ false
      other = elim (String-cases (ids j) (ids i)) [
        | inl same ↦ absurd (omega (arith, chain.distinct j i same))
        | inr no_match ↦ no_match
      ]

  level_step :
      (i : ℕ) (visited : List String)
      → i ≤ max_chain_depth
      → Unseen i visited
      → resolve_level get_payload (ids i ∷ []) (record { visited = visited; next = []; heads = [] })
        ≡ record { visited = ids i ∷ visited; next = ids (suc i) ∷ []; heads = [] }
  unfolding resolve_level
  level_step i visited le h =
      let (p, found) = chain.exists i (omega arith) in
      let follows : superseded_ids p ≡ ids (suc i) ∷ [] = (rw found at (chain.next i le)) in
      rw (h i (omega arith), found, follows)

  resolve_chain :
      (requested : String) (fuel i : ℕ) (visited : List String) (hops : ℕ)
      → i + fuel ≤ suc max_chain_depth
      → Unseen i visited
      → resolve get_payload requested fuel (ids i ∷ []) visited [] hops
        ≡ record { requested = requested; heads = []; hops = hops + fuel }
  unfolding resolve
  resolve_chain requested zero i visited hops le h = ground arith
  resolve_chain requested (suc fuel) i visited hops le h =
      ap
        (λ (l : Level).
          resolve get_payload requested fuel l.next l.visited l.heads
            (if is_nil l.next then hops else hops + 1))
        (level_step i visited (omega arith) h)
      ∙ resolve_chain requested fuel (suc i) (ids i ∷ visited) (hops + 1) (omega arith)
          (Unseen-next i visited h)
      ∙ ap {B = Heads} (λ n. record { requested = requested; heads = []; hops = n }) sum
    where
      sum : hops + 1 + fuel ≡ hops + suc fuel
      sum = omega arith

  chain-Reaches :
      (i : ℕ) → i ≤ suc max_chain_depth → Reaches (successors get_payload) (ids 0) (ids i)
  chain-Reaches zero le = start
  chain-Reaches (suc i) le =
      onward (chain-Reaches i (omega arith)) (rw (chain.next i (omega arith)) (here refl))

  -- For a chain of 102 distinct memories that exist, each of the first 101 superseded by the next one
  -- alone, `resolve_head` of the first answers no head at all, and 101 hops, although the last one
  -- follows the first.
  pub resolve_head_truncated :
      (resolve_head get_payload (ids 0) ≡ ok (record { requested = ids 0; heads = []; hops = 101 }))
      × Reaches (successors get_payload) (ids 0) (ids 101)
  unfolding resolve_head
  resolve_head_truncated =
      let (p, found) = chain.exists 0 (omega arith) in
      (
        rw (found, resolve_from)
            (ap ok (resolve_chain (ids 0) 101 0 [] 0 (omega arith) (λ j le. refl))),
        chain-Reaches 101 (omega arith),
      )
