-- ===== src/Disposing/Refusing.antt =====
-- src/memline/cli/stale.py: what a command that raises leaves behind.
use memline.Prelude.{ℕ, String, ◌≡◌, ◌⊎◌, Bool, true, some}
use memline.Pairs.{Pair, confirmed, is_opened, close, get}
use memline.Memory.{MemoryClient}
use memline.Staleness.{World}
use memline.Disposing.{Session, Refusal, unreachable, by_of}
use memline.Disposing.Rollback.{Tidy}
use memline.Disposing.Leaving.{confirms, settled, Unanswered}

module _ (c : MemoryClient) (who : Session) (now : ℕ) (why pair_id : String) where
  open c use {Store}

  module _ (force : Bool) (w w' : World Store) (p : Pair) (r : Refusal) (tidy : Tidy w.pairs)
      (found : get pair_id w.pairs ≡ some p) (live : is_opened p.disposition ≡ true) where
    abbrev Follows : World Store → Type 0
    Follows v =
        (v ≡ settled c who now why pair_id confirmed w)
        ⊎ (Unanswered c who now why pair_id p w v (confirms force)
            × (r ≡ unreachable)
            × (get pair_id v.pairs ≡ some (close now confirmed (by_of who) p)))
