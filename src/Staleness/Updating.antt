-- ===== src/Staleness/Updating.antt =====
-- src/memline/ops.py, `_update`: a memory gets a new text, which ends its displacement protection and
-- the suspicions against the old one.
pub mod Rewriting
mod Tests
use memline.Prelude.{ℕ, String, Bool, not, Option, none, some, ◌==◌, if◌then◌else◌}
use memline.Result.{Result, raise, ok, ◌>>=◌, not_updated}
use memline.Dict.{Value, text, Dict, get}
use memline.Memory.{MemoryClient}
use memline.Pairs.{close_for_updated_text}
use memline.Staleness.{World, data_of}
use memline.Staleness.Protection.{clear_displacement_protection}

-- str(previous_payload.get("data") or "")
abbrev pub previous_text : Option Dict → String
previous_text none = ""
previous_text (some payload) = data_of payload

abbrev pub agent_of : Value → Option String
agent_of (text s) = some s
agent_of _ = none

module _ (c : MemoryClient) where
  open c use {Store, lookup, rewrite}

  abbrev pub text_changed : String → String → World Store → Bool
  text_changed memory_id new_text w = not (previous_text (lookup w.store memory_id) == new_text)

  -- The answer is `displacement_protection_cleared`, where the text changed.
  abbrev pub clear_if : Bool → ℕ → String → Dict → World Store → Result (World Store × Option Bool)
  clear_if changed now memory_id metadata w =
      if changed
      then (do
        (later, cleared) ←
            clear_displacement_protection c now memory_id
              (agent_of (get "last_updated_by_agent_id" metadata)) w
        ok (later, some cleared))
      else ok (w, none)

  abbrev pub after_rewrite :
      (String → String)
      → ℕ
      → String
      → String
      → Dict
      → World Store
      → Option Store
      → Result (World Store × Option Bool)
  after_rewrite sha256 now memory_id new_text metadata w none = raise not_updated
  after_rewrite sha256 now memory_id new_text metadata w (some s) = do
    (later, cleared) ←
        clear_if (text_changed memory_id new_text w) now memory_id metadata (record w { store = s })
    ok (
      record later { pairs = (close_for_updated_text sha256 now memory_id new_text later.pairs).0 },
      cleared,
    )

  unfoldable pub update_memory :
      (String → String)
      → ℕ
      → String
      → String
      → Dict
      → World Store
      → Result (World Store × Option Bool)
  update_memory sha256 now memory_id new_text metadata w =
      after_rewrite sha256 now memory_id new_text metadata w
        (rewrite w.store memory_id new_text metadata)
