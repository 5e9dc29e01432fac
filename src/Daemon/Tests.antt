-- ===== src/Daemon/Tests.antt =====
-- A thread that takes the exclusive side of the gate, and gives it back.
use memline.Prelude.{◌≡◌, refl, true, none, [], ◌∷◌, count, ◌⊎◌}
use memline.Daemon.{
  RwGate, open_gate, acquire_shared, Threads, excluding, Reachable, initial, next, arrives,
  enter_exclusive,
}
use memline.Daemon.Exclusion.{is_sharing, is_excluding, exclusion}

abbrev held : RwGate
held = record { shared = 0; exclusive = true }

abbrev alone : Threads
alone = record { gate = held; phases = excluding ∷ [] }

alone_reached : Reachable alone
alone_reached =
    next (next initial (arrives open_gate [])) (enter_exclusive open_gate held [] [] refl)

-- Nobody else gets in.
closed : acquire_shared held ≡ none
closed = refl

exclusion_example :
    (count is_excluding alone.phases ≡ 0)
    ⊎ ((count is_excluding alone.phases ≡ 1) × (count is_sharing alone.phases ≡ 0))
exclusion_example = exclusion alone_reached
