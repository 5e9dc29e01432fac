-- ===== src/Disposing/Requests.antt =====
-- src/memline/cli/_support.py, `execute`: what a request leaves, by what became of it.
use memline.Prelude.{String, ◌≡◌, refl, ap, ◌⊎◌, inl, inr, arith}
use memline.Result.{Result, ok, raise}
use memline.Staleness.{World}
use memline.Disposing.{
  Session, Transport, answers, stays_out, loses_reply, Refusal, unreachable, Reply, Done, Response,
  refuse, reply, delivered, execute, with_done,
}

pub refused_not : {A : Type 0} {r : Refusal} {a : A} → ◌≡◌ {A = Reply A} (refuse r) (reply a) → ⊥
refused_not h = cc

-- What a request can have left when it raises: nothing, or, its reply lost, all that it does.
abbrev pub Lost :
    {Store A : Type 0}
    → Session
    → String
    → Result (World Store × A)
    → World Store
    → Refusal
    → Type 0
Lost {A = A} who op outcome v r =
    (who.transport op ≡ loses_reply) × (r ≡ unreachable) × ((a : A) × (outcome ≡ ok (v, a)))

module _ {Store A : Type 0} (w : World Store) where
  delivered-raised :
      (t : Transport) (outcome : Result (World Store × A)) (v : World Store) (r : Refusal)
      → delivered t w outcome ≡ (v, refuse r)
      → (v ≡ w) ⊎ ((t ≡ loses_reply) × (r ≡ unreachable) × ((a : A) × (outcome ≡ ok (v, a))))
  delivered-raised answers (raise e) v r h = inl (ground arith)
  delivered-raised answers (ok (u, a)) v r h = cc
  delivered-raised stays_out outcome v r h = inl (ground arith)
  delivered-raised loses_reply (raise e) v r h = inl (ground arith)
  delivered-raised loses_reply (ok (u, a)) v r h =
      inr (refl, ground arith, (a, ap ok (pair_of u v a (ground arith))))
    where
      pair_of : (u v : World Store) (a : A) → u ≡ v → ◌≡◌ {A = World Store × A} (u, a) (v, a)
      pair_of u v a e = ap (λ x. (x, a)) e

  delivered-replied :
      (t : Transport) (outcome : Result (World Store × A)) (v : World Store) (a : A)
      → delivered t w outcome ≡ (v, reply a)
      → outcome ≡ ok (v, a)
  delivered-replied answers (raise e) v a h = cc
  delivered-replied answers (ok (u, b)) v a h = ground arith
  delivered-replied stays_out outcome v a h = cc
  delivered-replied loses_reply (raise e) v a h = cc
  delivered-replied loses_reply (ok (u, b)) v a h = cc

  -- A request alone, when it raises and when it does not.
  pub execute-raised :
      (who : Session) (op : String) (outcome : Result (World Store × A)) (v : World Store)
      (r : Refusal)
      → execute who op w outcome ≡ (v, refuse r)
      → (v ≡ w) ⊎ Lost who op outcome v r
  execute-raised who op outcome v r h = delivered-raised (who.transport op) outcome v r h

  pub execute-replied :
      (who : Session) (op : String) (outcome : Result (World Store × A)) (v : World Store) (a : A)
      → execute who op w outcome ≡ (v, reply a)
      → outcome ≡ ok (v, a)
  execute-replied who op outcome v a h = delivered-replied (who.transport op) outcome v a h

module _ {Store A : Type 0} (done : A → Done) (w : World Store) where
  refused_of :
      (response : Response Store A) (v : World Store) (r : Refusal)
      → with_done done response ≡ (v, refuse r)
      → response ≡ (v, refuse r)
  refused_of (u, refuse r') v r h = ground arith
  refused_of (u, reply a) v r h = cc

  answered :
      (response : Response Store A) (v : World Store) (d : Done)
      → with_done done response ≡ (v, reply d)
      → (a : A) × (response ≡ (v, reply a))
  answered (u, refuse r') v d h = cc
  answered (u, reply a) v d h = (a, ground arith)

  module _ (who : Session) (op : String) (outcome : Result (World Store × A))
      (v : World Store) where
    -- A request as a follow-up, when it raises and when it does not.
    pub request-raised :
        (r : Refusal)
        → with_done done (execute who op w outcome) ≡ (v, refuse r)
        → (v ≡ w) ⊎ Lost who op outcome v r
    request-raised r h = execute-raised w who op outcome v r (refused_of _ v r h)

    pub request-replied :
        (d : Done)
        → with_done done (execute who op w outcome) ≡ (v, reply d)
        → (a : A) × (outcome ≡ ok (v, a))
    request-replied d h =
        let (a, e) = answered _ v d h in (a, execute-replied w who op outcome v a e)
