-- ===== src/Supersession/Acyclic.antt =====
-- A new supersession edge that `_assert_no_cycle` lets pass keeps the graph free of cycles.
use memline.Prelude.{String, ◌≡◌, ◌≢◌, ◌⊎◌, inl, inr, List, In, arith, String-cases, eq_iff}
use memline.Supersession.Graph.{Reaches, Reaches-trans, start, onward, Acyclic}

-- `after` is `before` with the edges from `target` set to `by_ids`.
pub record Redirects (before after : String → List String) (target : String) (by_ids : List String)
    : Type 0 where
  pub edges : after target ≡ by_ids
  pub others : (x : String) → x ≢ target → after x ≡ before x

module _ (before after : String → List String) (target : String) (by_ids : List String)
    (redirects : Redirects before after target by_ids) where
  abbrev Detour : String → String → Type 0
  Detour a z = Reaches before a target × ((b : String) × In b by_ids × Reaches before b z)

  module _ (free : (b : String) → In b by_ids → ¬ Reaches before b target) where
    decide_target : (b : String) → (b ≡ target) ⊎ (b ≢ target)
    decide_target b = elim (String-cases b target) [
      | inl same ↦ inl same
      | inr other ↦ inr (λ e. ground (arith, eq_iff b target))
    ]

    -- A walk in the new graph takes the new edges once at most.
    reroute : (a : String) {z : String} → Reaches after a z → Reaches before a z ⊎ Detour a z
    reroute a start = inl start
    reroute a (onward {b = b} {c = c} r i) = elim (decide_target b) [
      | inl same ↦ elim (reroute a r) [
        | inl p ↦ inr (rw (← same) p, (c, rw (same, redirects.edges) at i, start))
        | inr (p, (d, j, q)) ↦ absurd (free d j (rw (← same) q))
      ]
      | inr other ↦ elim (reroute a r) [
        | inl p ↦ inl (onward p (rw (redirects.others b other) at i))
        | inr (p, (d, j, q)) ↦ inr (p, (d, j, onward q (rw (redirects.others b other) at i)))
      ]
    ]

    from_target : (x y : String) → x ≡ target → In y (after x) → Reaches before y x ⊎ Detour y x → ⊥
    from_target x y same i (inl p) = free y (rw (same, redirects.edges) at i) (rw (← same) p)
    from_target x y same i (inr (p, _)) = free y (rw (same, redirects.edges) at i) p

    from_other :
        (x y : String) → Acyclic before → In y (before x) → Reaches before y x ⊎ Detour y x → ⊥
    from_other x y sound i (inl p) = sound x y i p
    from_other x y sound i (inr (p, (d, j, q))) = free d j (Reaches-trans before d y (onward q i) p)

    -- If none of the new successors leads to the target, the graph stays free of cycles.
    pub redirect-Acyclic : Acyclic before → Acyclic after
    redirect-Acyclic sound x y i r = elim (decide_target x) [
      | inl same ↦ from_target x y same i (reroute y r)
      | inr other ↦ from_other x y sound (rw (redirects.others x other) at i) (reroute y r)
    ]
