-- ===== src/Wiki/Batch.antt =====
-- src/memline/wiki/batch.py: how the memories are cut up for profiling. A text of a memory or of its
-- metadata that is missing or None reads as the empty text, as `get(…) or ""` makes it.
pub mod Grouping
pub mod Chunks
pub mod Placing
pub mod Partition
pub mod Limits
pub mod Grouped
pub mod Selecting
mod Tests
use memline.Prelude.{
  ℕ, zero, suc, ◌+◌, max, String, Bool, true, false, ◌&&◌, ◌||◌, not, List, [], ◌∷◌, ◌++◌, map, ltb,
  leb, ◌==◌, if◌then◌else◌, filter, any, elem, length, take, drop,
}
use memline.Prelude.Table.{sort_by}
use memline.Prelude.Texts.{first_characters, text_le}
use memline.Prelude.Counting.{concat}
use memline.Staleness.{dedup}

pub record Memory : Type 0 where
  pub id : String
  pub created_at : String
  pub updated_at : String
  pub session_id : String
  pub source : String
  pub ingested_at : String
  pub updated_by_cli_at : String

abbrev pub default_max_memories : ℕ
default_max_memories = 275

abbrev pub default_pack_threshold : ℕ
default_pack_threshold = 60

abbrev pub created : Memory → String
created m = first_characters 19 m.created_at

-- The key (created, id) of the sort.
abbrev pub earlier : Memory → Memory → Bool
earlier a b = if created a == created b then text_le a.id b.id else text_le (created a) (created b)

abbrev pub first_or_empty : List String → String
first_or_empty [] = ""
first_or_empty (d ∷ ds) = d

abbrev pub last_or_empty : List String → String
last_or_empty [] = ""
last_or_empty (d ∷ ds) = if leb (length ds) 0 then d else last_or_empty ds

abbrev pub dates : List Memory → List String
dates memories = sort_by text_le (map (λ m. first_characters 10 (created m)) memories)

-- The first and the last date; no batch is empty.
abbrev pub span : List Memory → String × String
span memories = (first_or_empty (dates memories), last_or_empty (dates memories))

abbrev pub Sessions : Type 0
Sessions = List (String × List Memory)

-- sessions.setdefault(session_id, []).append(memory)
abbrev pub add_to : String → Memory → Sessions → Sessions
add_to session_id m [] = (session_id, m ∷ []) ∷ []
add_to session_id m ((s, group) ∷ sessions) =
    let rest = add_to session_id m sessions in
    if s == session_id then (s, group ++ m ∷ []) ∷ sessions else (s, group) ∷ rest

abbrev pub is_ledger : String → Memory → Bool
is_ledger ledger_source m = m.source == ledger_source || m.session_id == ""

abbrev pub group_all : String → List Memory → Sessions × List Memory → Sessions × List Memory
group_all ledger_source [] acc = acc
group_all ledger_source (m ∷ ms) (sessions, ledger) = group_all ledger_source ms (
    if is_ledger ledger_source m
    then (sessions, ledger ++ m ∷ [])
    else (add_to m.session_id m sessions, ledger))

unfoldable pub group_by_session : String → List Memory → Sessions × List Memory
group_by_session ledger_source memories =
    group_all ledger_source (sort_by earlier memories) ([], [])

abbrev pub text_max : String → String → String
text_max a b = if text_le a b then b else a

abbrev pub stamp : String → String
stamp s = first_characters 19 s

-- The empty text is the default, and before every stamp.
unfoldable pub touched_at : Memory → String
touched_at m =
    text_max (stamp m.created_at)
      (text_max (stamp m.updated_at) (text_max (stamp m.ingested_at) (stamp m.updated_by_cli_at)))

abbrev pub is_touched : String → Memory → Bool
is_touched since m = text_le since (touched_at m)

abbrev pub has_moved : String → String × List Memory → Bool
has_moved since (session_id, group) = any (is_touched since) group

-- The source walks the moved sessions in the order of a set; the plan sorts what it takes.
abbrev pub selected : String → Sessions × List Memory → List Memory
selected since (sessions, ledger) =
    concat (map (λ s. s.1) (filter (has_moved since) sessions)) ++ filter (is_touched since) ledger

unfoldable pub select_since : String → String → List Memory → List Memory
select_since since ledger_source memories = selected since (group_by_session ledger_source memories)

pub data Kind : Type 0 where
  session pack ledger : Kind
  session_part : (part part_count : ℕ) → Kind

pub record SessionEntry : Type 0 where
  pub session_id : String
  pub memory_ids : List String
  pub span : String × String

-- `index` is the number in the batch_id.
pub record Batch : Type 0 where
  pub index : ℕ
  pub kind : Kind
  pub session_ids : List String
  pub memory_ids : List String
  pub memory_count : ℕ
  pub span : String × String
  pub sessions : List SessionEntry

pub record State : Type 0 where
  pub batches : List Batch
  pub pending : Sessions

abbrev pub ids : List Memory → List String
ids memories = map (λ m. m.id) memories

abbrev pub batch_of : Kind → List String → List Memory → List SessionEntry → Batch
batch_of kind session_ids members sessions = record {
  index = 0;
  kind = kind;
  session_ids = session_ids;
  memory_ids = ids members;
  memory_count = length members;
  span = span members;
  sessions = sessions;
}

abbrev pub entry_of : String × List Memory → SessionEntry
entry_of (session_id, group) = record {
  session_id = session_id;
  memory_ids = ids group;
  span = span group;
}

abbrev pub members : Sessions → List Memory
members sessions = concat (map (λ s. s.1) sessions)

abbrev pub pack_kind : Sessions → Kind
pack_kind pending = if ltb 1 (length pending) then pack else session

abbrev pub pack_of : Sessions → Batch
pack_of pending =
    batch_of (pack_kind pending) (map (λ s. s.0) pending) (members pending) (map entry_of pending)

abbrev pub flushed : List Batch → Sessions → State
flushed batches [] = record { batches = batches; pending = [] }
flushed batches (s ∷ pending) = record {
  batches = batches ++ pack_of (s ∷ pending) ∷ [];
  pending = [];
}

abbrev pub flush_pack : State → State
flush_pack st = flushed st.batches st.pending

-- [xs[i:i + size] for i in range(0, len(xs), size)], on fuel: the length of the list is enough.
abbrev pub chunks {ℓ} : {A : Type ℓ} → ℕ → ℕ → List A → List (List A)
chunks zero size xs = []
chunks (suc fuel) size [] = []
chunks (suc fuel) size (x ∷ xs) = take size (x ∷ xs) ∷ chunks fuel size (drop size (x ∷ xs))

abbrev pub cut {ℓ} : {A : Type ℓ} → ℕ → List A → List (List A)
cut size xs = chunks (length xs) size xs

abbrev pub part_batches : String → ℕ → ℕ → List (List Memory) → List Batch
part_batches session_id part_count number [] = []
part_batches session_id part_count number (part ∷ parts) =
    batch_of (session_part number part_count) (session_id ∷ []) part []
    ∷ part_batches session_id part_count (suc number) parts

abbrev pub part_of_session : ℕ → String → List Memory → List Batch
part_of_session max_memories session_id group =
    part_batches session_id (length (cut max_memories group)) 1 (cut max_memories group)

abbrev pub pending_size : Sessions → ℕ
pending_size [] = 0
pending_size (s ∷ pending) = length s.1 + pending_size pending

abbrev pub push : String × List Memory → State → State
push s st = record st { pending = st.pending ++ s ∷ [] }

-- One turn of the loop over the sessions.
abbrev pub place : ℕ → ℕ → String × List Memory → State → State
place max_memories pack_threshold (session_id, group) st =
    if ltb max_memories (length group)
    then record {
      batches = (flush_pack st).batches ++ part_of_session max_memories session_id group;
      pending = [];
    }
    else if leb pack_threshold (length group)
    then flush_pack (push (session_id, group) (flush_pack st))
    else if ltb max_memories (pending_size st.pending + length group)
    then push (session_id, group) (flush_pack st)
    else push (session_id, group) st

abbrev pub place_all : ℕ → ℕ → Sessions → State → State
place_all max_memories pack_threshold [] st = st
place_all max_memories pack_threshold (s ∷ sessions) st =
    place_all max_memories pack_threshold sessions (place max_memories pack_threshold s st)

abbrev pub first_created : String × List Memory → String
first_created (session_id, []) = ""
first_created (session_id, m ∷ group) = created m

abbrev pub session_earlier : String × List Memory → String × List Memory → Bool
session_earlier a b = text_le (first_created a) (first_created b)

abbrev pub ledger_batches : List (List Memory) → List Batch
ledger_batches parts = map (λ part. batch_of ledger [] part []) parts

abbrev pub numbered : ℕ → List Batch → List Batch
numbered n [] = []
numbered n (b ∷ batches) = record b { index = n } ∷ numbered (suc n) batches

abbrev pub plan_groups : ℕ → ℕ → Sessions × List Memory → List Batch
plan_groups max_memories pack_threshold (sessions, rest) = numbered 0 (
    (flush_pack (
      place_all max_memories pack_threshold (sort_by session_earlier sessions)
        (record { batches = []; pending = [] }))).batches
    ++ ledger_batches (cut max_memories rest))

-- An empty `since` is none.
unfoldable pub plan_batches : String → ℕ → ℕ → String → List Memory → List Batch
plan_batches since max_memories pack_threshold ledger_source memories =
    plan_groups max_memories pack_threshold (
      group_by_session ledger_source
        (if since == "" then memories else select_since since ledger_source memories))

abbrev pub is_ledger_batch : Batch → Bool
is_ledger_batch b = elim b.kind [ ledger ↦ true | _ ↦ false ]

abbrev pub total : List Batch → ℕ
total [] = 0
total (b ∷ batches) = b.memory_count + total batches

abbrev pub largest : List Batch → ℕ
largest [] = 0
largest (b ∷ batches) = max b.memory_count (largest batches)

abbrev pub kind_text : Kind → String
kind_text session = "session"
kind_text pack = "pack"
kind_text ledger = "ledger"
kind_text (session_part part part_count) = "session-part"

-- kinds[kind] = kinds.get(kind, 0) + 1
abbrev pub tally : String → List (String × ℕ) → List (String × ℕ)
tally kind [] = (kind, 1) ∷ []
tally kind ((k, n) ∷ kinds) =
    let rest = tally kind kinds in if k == kind then (k, suc n) ∷ kinds else (k, n) ∷ rest

abbrev pub tallied : List Batch → List (String × ℕ) → List (String × ℕ)
tallied [] kinds = kinds
tallied (b ∷ batches) kinds = tallied batches (tally (kind_text b.kind) kinds)

pub record Summary : Type 0 where
  pub batches : ℕ
  pub by_kind : List (String × ℕ)
  pub sessions : ℕ
  pub memories_in_sessions : ℕ
  pub memories_in_ledger : ℕ
  pub largest_batch : ℕ

unfoldable pub plan_summary : List Batch → Summary
plan_summary batches = record {
  batches = length batches;
  by_kind = tallied batches [];
  sessions = length (dedup (concat (map (λ b. b.session_ids) batches)));
  memories_in_sessions = total (filter (λ b. not (is_ledger_batch b)) batches);
  memories_in_ledger = total (filter is_ledger_batch batches);
  largest_batch = largest batches;
}
