-- ===== src/Staleness/Updating/Tests.antt =====
-- A protected memory with an open suspicion gets a new text.
use memline.Prelude.{String, ◌≡◌, refl, Bool, Option, none, some, [], ◌∷◌, if◌then◌else◌, ◌==◌}
use memline.Result.{ok, raise, not_updated}
use memline.Dict.{Dict, text, time}
use memline.Memory.{MemoryClient}
use memline.Staleness.{World}
use memline.Staleness.Sample.{Sample, sample_client, accused, patch_at}
use memline.Staleness.Updating.{update_memory}
use memline.Staleness.Updating.Rewriting.{Updated, update_memory_lem}

abbrev client : MemoryClient
client = sample_client (λ filter. none) none

abbrev sha256 : String → String
sha256 s = s

abbrev shielded : World Sample
shielded = record accused {
  store = record accused.store {
    payload = patch_at "old" (("displacement_protected_until", time 50) ∷ []) accused.store.payload;
  };
}

abbrev metadata : Dict
metadata = ("last_updated_by_agent_id", text "agent") ∷ []

abbrev after : Sample
after = record shielded.store {
  payload = λ j.
      if "old" == j
      then some (
          ("data", text "revised")
          ∷ ("last_updated_by_agent_id", text "agent")
          ∷ ("displacement_protected_until", time 50)
          ∷ ("data", text "before")
          ∷ [])
      else shielded.store.payload j;
}

update_memory_lem_example :
    (r : World Sample × Option Bool) × (update_memory client sha256 10 "old" "revised" metadata
        shielded
      ≡ ok r)
    × Updated client sha256 10 "old" "revised" shielded r.0
update_memory_lem_example =
    update_memory_lem client sha256 10 "old" "revised" metadata shielded after refl

-- An unknown memory.
update_memory-not_updated :
    update_memory client sha256 10 "gone" "revised" metadata shielded ≡ raise not_updated
unfolding update_memory
update_memory-not_updated = refl
