-- ===== src/Bridge/Mailbox.antt =====
-- src/memline/bridge.py: what the table promises to one request. Each request is a mailbox of its
-- own, in one of four phases, and the calls of every process act on it one at a time.
use memline.Prelude.{
  ℕ, ◌-◌, ◌*◌, String, ◌≡◌, sym, inl, inr, Bool, true, false, Option, none, some, List, [], ◌∷◌,
  ltb, ◌==◌, if◌then◌else◌, arith, eq_iff, find, Bool-cases,
}
use memline.Prelude.Order.{Keyed}
use memline.Prelude.{All}
use memline.Dict.{Dict, get}
use memline.Bridge.{
  Status, queued, processing, done, error, Request, BridgeQueue, hour, is_ok, failure, restarted,
  response_or_empty,
}
use memline.Bridge.History.{
  Call, readies, beats, stops, enqueues, acknowledges, cancels, claims, completes, recovers, purges,
}

-- A mailbox is empty, holds a request that waits, is served by a worker, or holds an answer: whether
-- it is a success, what it says, and since when it is there.
pub data Phase : Type 0 where
  absent : Phase
  waiting running : Dict → Phase
  answered : Bool → Dict → ℕ → Phase

abbrev pub submit : Dict → Phase → Phase
submit payload absent = waiting payload
submit payload p = p

abbrev pub take_up : Phase → Phase
take_up (waiting payload) = running payload
take_up p = p

abbrev pub give_up : ℕ → Dict → Phase → Phase
give_up now d (waiting payload) = answered false d now
give_up now d p = p

abbrev pub lose : ℕ → Dict → Phase → Phase
lose now d (running payload) = answered false d now
lose now d p = p

abbrev pub settle : ℕ → Bool → Dict → Phase → Phase
settle now good d absent = absent
settle now good d p = answered good d now

abbrev pub collect : Phase → Phase
collect (answered good d at) = absent
collect p = p

abbrev pub forget : ℕ → Phase → Phase
forget cutoff (answered good d at) = if ltb at cutoff then absent else answered good d at
forget cutoff p = p

abbrev pub only : Bool → (Phase → Phase) → Phase → Phase
only here change p = if here then change p else p

-- What a call does to the mailbox of the request `id`.
unfoldable pub act : String → ℕ → Call → Phase → Phase
act id now (readies daemon_id daemon_pid) p = p
act id now (beats daemon_id) p = p
act id now (stops daemon_id) p = p
act id now (enqueues j payload) p = only (id == j) (submit payload) p
act id now (acknowledges j) p = only (id == j) collect p
act id now (cancels j reason) p = only (id == j) (give_up now (failure reason)) p
act id now (claims row) p = only (id == row.id) take_up p
act id now (completes j d) p = only (id == j) (settle now (is_ok (get "status" d)) d) p
act id now recovers p = lose now restarted p
act id now (purges hours) p = forget (now - hours * hour) p

unfoldable pub acts : String → List (ℕ × Call) → Phase → Phase
acts id [] p = p
acts id ((now, c) ∷ calls) p = acts id calls (act id now c p)

abbrev pub phase_as : Status → Dict → Dict → ℕ → Phase
phase_as queued payload d at = waiting payload
phase_as processing payload d at = running payload
phase_as done payload d at = answered true d at
phase_as error payload d at = answered false d at

abbrev pub phase_of : Option Request → Phase
phase_of none = absent
phase_of (some r) = phase_as r.status r.payload (response_or_empty r.response) r.updated_at

-- The mailbox of a request, as the table holds it.
abbrev pub view : String → BridgeQueue → Phase
view id q = phase_of (find (λ r. r.id == id) q.requests)

-- No two rows have one id, and no row is marked as acknowledged: an answer is deleted when it is.
pub record WellFormed (q : BridgeQueue) : Type 0 where
  pub keyed : Keyed (λ r. r.id) q.requests
  pub unmarked : All (λ r. r.acknowledged ≡ false) q.requests

pub find-unmarked :
    (id : String) (rows : List Request) (r : Request)
    → All (λ r. r.acknowledged ≡ false) rows
    → find (λ r. r.id == id) rows ≡ some r
    → (r.id ≡ id) × (r.acknowledged ≡ false)
find-unmarked id [] r all h = cc
find-unmarked id (x ∷ rows) r all h = elim (Bool-cases (x.id == id)) [
  | inl same ↦ let e : x ≡ r = ground arith in rw (sym e) ((eq_iff x.id id).0 same, all.0)
  | inr other ↦ find-unmarked id rows r all.1 (rw other at h)
]
