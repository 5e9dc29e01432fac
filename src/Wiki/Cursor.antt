-- ===== src/Wiki/Cursor.antt =====
-- src/memline/wiki/state.py: the cursor that a run of the wiki pipeline leaves for the next one. What
-- the file holds, and the hashes of the source documents, are arguments.
pub mod Missing
mod Tests
use memline.Prelude.{
  ℕ, zero, suc, ◌+◌, Bool, String, ◌==◌, Option, none, some, List, [], map, filter, if◌then◌else◌,
}
use memline.Prelude.Texts.{text_le}
use memline.Prelude.Table.{sort_by}
use memline.Wiki.Batch.{Memory, stamp, touched_at}

pub record Cursor : Type 0 where
  pub next_run : ℕ
  pub last_compile_at : Option String
  pub boundary_memory_ids : List String
  pub source_hashes : List (String × String)

-- EMPTY
abbrev pub empty : Cursor
empty = record {
  next_run = 1;
  last_compile_at = none;
  boundary_memory_ids = [];
  source_hashes = [];
}

-- `none` is a file that is not there or cannot be read; a key that the file lacks is the one of `empty`.
abbrev pub read_state : Option Cursor → Cursor
read_state none = empty
read_state (some c) = c

abbrev pub is_at : String → Memory → Bool
is_at started_at m = stamp (touched_at m) == stamp started_at

unfoldable pub boundary_ids : String → List Memory → List String
boundary_ids started_at memories =
    sort_by text_le (map (λ m. m.id) (filter (is_at started_at) memories))

-- int(state.get("next_run") or 1) + 1
abbrev pub following : ℕ → ℕ
following zero = 2
following (suc n) = suc n + 1

-- `hashes` are those of the documents, where there is a source directory.
unfoldable pub close_run :
    Option Cursor → String → List Memory → Option (List (String × String)) → Cursor
close_run file started_at memories hashes = record {
  next_run = following (read_state file).next_run;
  last_compile_at = some started_at;
  boundary_memory_ids = boundary_ids started_at memories;
  source_hashes = elim hashes [ none ↦ (read_state file).source_hashes | some h ↦ h ];
}

-- The time that the next plan is given, `--since`.
abbrev pub since_of : Cursor → String
since_of c = elim c.last_compile_at [ none ↦ "" | some t ↦ t ]
