-- ===== src/Supersession.antt =====
-- src/memline/staleness.py: the walks over the supersession graph, `_assert_no_cycle` and
-- `resolve_head`. Both read the graph one level at a time, through the payload of a memory.
pub mod Graph
pub mod NoCycle
pub mod Acyclic
pub mod Resolving
pub mod Completeness
pub mod Truncation
mod Tests
use memline.Prelude.{
  ℕ, zero, suc, ◌+◌, String, Bool, true, false, ◌&&◌, ◌||◌, not, Option, none, some, List, [], ◌∷◌,
  ◌++◌, ◌==◌, if◌then◌else◌, filter, elem,
}
use memline.Result.{Result, ok, raise, would_cycle, chain_too_long, memory_not_found, ◌>>=◌}
use memline.Dict.{Value, null, flag, time, text, texts, Dict, get, is_empty}

abbrev pub max_chain_depth : ℕ
max_chain_depth = 100

abbrev pub ids_of : Value → List String
ids_of (text s) = if s == "" then [] else s ∷ []
ids_of (texts ss) = filter (λ s. not (s == "")) ss
ids_of _ = []

-- The successors that a payload records.
abbrev pub superseded_ids : Dict → List String
superseded_ids payload = ids_of (get "superseded_by" payload)

abbrev pub is_nil {ℓ} : {A : Type ℓ} → List A → Bool
is_nil [] = true
is_nil (x ∷ xs) = false

abbrev pub is_invalidated : Dict → Bool
is_invalidated payload = not (is_nil (superseded_ids payload))

-- How a walk reads the store: the payload of a memory, or none if there is no such memory.
abbrev pub GetPayload : Type 0
GetPayload = String → Option Dict

abbrev pub ids_at : Option Dict → List String
ids_at none = []
ids_at (some payload) = superseded_ids payload

abbrev pub successors : GetPayload → String → List String
successors get_payload node = ids_at (get_payload node)

module _ (succ : String → List String) where
  -- The inner loop of `_assert_no_cycle`: the visited nodes and the next frontier.
  unfoldable pub visit :
      String → List String → List String → List String → Result (List String × List String)
  visit target [] visited next = ok (visited, next)
  visit target (node ∷ rest) visited next =
      let later =
        visit target rest (if elem node visited then visited else node ∷ visited)
          (if elem node visited then next else next ++ succ node) in
      if node == target then raise (would_cycle node) else later

  -- The outer loop; `fuel` is MAX_CHAIN_DEPTH - depth.
  unfoldable pub walk : String → ℕ → List String → List String → Result (Unit {0})
  walk target fuel [] visited = ok tt
  walk target zero (node ∷ rest) visited = raise chain_too_long
  walk target (suc fuel) (node ∷ rest) visited = do
    (seen, next) ← visit target (node ∷ rest) visited []
    walk target fuel next seen

  unfoldable pub assert_no_cycle : String → List String → Result (Unit {0})
  assert_no_cycle target by_ids = walk target max_chain_depth by_ids []

-- What one level of `resolve_head` leaves: visited, next frontier, heads.
pub record Level : Type 0 where
  pub visited : List String
  pub next : List String
  pub heads : List String

-- `get_payload(node) or {}`
abbrev pub payload_or_empty : Option Dict → Dict
payload_or_empty none = []
payload_or_empty (some payload) = payload

pub record Heads : Type 0 where
  pub requested : String
  pub heads : List String
  pub hops : ℕ

abbrev pub look : String → Dict → Level → Level
look node payload l = record {
  visited = node ∷ l.visited;
  next = l.next ++ superseded_ids payload;
  heads =
      if not (is_nil (superseded_ids payload)) || is_empty payload
      then l.heads
      else l.heads ++ node ∷ [];
}

module _ (get_payload : GetPayload) where
  unfoldable pub resolve_level : List String → Level → Level
  resolve_level [] l = l
  resolve_level (node ∷ rest) l =
      resolve_level rest
        (if elem node l.visited then l else look node (payload_or_empty (get_payload node)) l)

  -- `fuel` is the number of levels that `hops <= MAX_CHAIN_DEPTH` still admits.
  unfoldable pub resolve : String → ℕ → List String → List String → List String → ℕ → Heads
  resolve requested fuel [] visited heads hops = record {
    requested = requested;
    heads = heads;
    hops = hops;
  }
  resolve requested zero (node ∷ rest) visited heads hops = record {
    requested = requested;
    heads = heads;
    hops = hops;
  }
  resolve requested (suc fuel) (node ∷ rest) visited heads hops =
      let l =
        resolve_level (node ∷ rest) (record { visited = visited; next = []; heads = heads }) in
      resolve requested fuel l.next l.visited l.heads (if is_nil l.next then hops else hops + 1)

  abbrev pub resolve_from : String → Option Dict → Result Heads
  resolve_from memory_id none = raise (memory_not_found memory_id)
  resolve_from memory_id (some start) =
      ok (resolve memory_id (suc max_chain_depth) (memory_id ∷ []) [] [] 0)

  unfoldable pub resolve_head : String → Result Heads
  resolve_head memory_id = resolve_from memory_id (get_payload memory_id)
