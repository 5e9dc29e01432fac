-- ===== src/Daemon.antt =====
-- src/memline/daemon.py: the shared/exclusive gate over the memory store, `_RWGate`. A method that
-- waits is a step that cannot be taken yet; the condition variable only says when to try again.
pub mod Exclusion
pub mod Processing
mod Tests
use memline.Prelude.{
  ℕ, ◌+◌, ◌-◌, ◌≡◌, Bool, true, false, ◌||◌, Option, none, some, List, [], ◌∷◌, ◌++◌, ltb,
  if◌then◌else◌,
}

pub record RwGate : Type 0 where
  pub shared : ℕ
  pub exclusive : Bool

abbrev pub open_gate : RwGate
open_gate = record { shared = 0; exclusive = false }

-- `none` while the caller has to wait.
abbrev pub acquire_shared : RwGate → Option RwGate
acquire_shared g = if g.exclusive then none else some (record g { shared = g.shared + 1 })

abbrev pub release_shared : RwGate → RwGate
release_shared g = record g { shared = g.shared - 1 }

abbrev pub acquire_exclusive : RwGate → Option RwGate
acquire_exclusive g =
    if g.exclusive || ltb 0 g.shared then none else some (record g { exclusive = true })

abbrev pub release_exclusive : RwGate → RwGate
release_exclusive g = record g { exclusive = false }

-- Where a thread is: outside an operation, inside one, or inside `delete --all`.
pub data Phase : Type 0 where
  outside sharing excluding : Phase

pub record Threads : Type 0 where
  pub gate : RwGate
  pub phases : List Phase

-- One thread takes or gives back its side of the gate, by `try`/`finally` around the operation.
pub data Step : Threads → Threads → Type 0 where
  enter_shared :
      (g g' : RwGate) (before after : List Phase)
      → acquire_shared g ≡ some g'
      → Step
          (record { gate = g; phases = before ++ outside ∷ after })
          (record { gate = g'; phases = before ++ sharing ∷ after })
  leave_shared :
      (g : RwGate) (before after : List Phase)
      → Step
          (record { gate = g; phases = before ++ sharing ∷ after })
          (record { gate = release_shared g; phases = before ++ outside ∷ after })
  enter_exclusive :
      (g g' : RwGate) (before after : List Phase)
      → acquire_exclusive g ≡ some g'
      → Step
          (record { gate = g; phases = before ++ outside ∷ after })
          (record { gate = g'; phases = before ++ excluding ∷ after })
  leave_exclusive :
      (g : RwGate) (before after : List Phase)
      → Step
          (record { gate = g; phases = before ++ excluding ∷ after })
          (record { gate = release_exclusive g; phases = before ++ outside ∷ after })
  arrives :
      (g : RwGate) (phases : List Phase)
      → Step (record { gate = g; phases = phases }) (record { gate = g; phases = outside ∷ phases })

-- The states that the daemon can come to, from the open gate and no thread.
pub data Reachable : Threads → Type 0 where
  initial : Reachable (record { gate = open_gate; phases = [] })
  next : {s s' : Threads} → Reachable s → Step s s' → Reachable s'
