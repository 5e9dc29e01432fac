-- ===== src/Pairs/Calls.antt =====
-- src/memline/staleness.py, `PairStore`: the calls that change the table, as steps of a history.
use memline.Prelude.{ℕ, String, Bool, Option, List, [], ◌∷◌}
use memline.Result.{Result, ok, raise}
use memline.Pairs.{
  Kind, Disposition, Judgment, PairStore, record_judgment, close_for_updated_text, dispose, reopen,
  close_for_old, close_for_deleted_memory,
}

pub data Call : Type 0 where
  records : String → Judgment → Call
  disposes : String → Disposition → Option String → Call
  reopens : String → Call
  closes_old : String → Disposition → Option String → Option Kind → Call
  closes_deleted : String → Call
  closes_updated : String → String → Call

-- A call that raises changes nothing.
abbrev after : PairStore → Result (PairStore × Bool) → PairStore
after rows (ok r) = r.0
after rows (raise e) = rows

module _ (sha256 : String → String) where
  unfoldable pub step : ℕ → Call → PairStore → PairStore
  unfolding record_judgment dispose reopen close_for_old close_for_deleted_memory
      close_for_updated_text
  step now (records pair_id j) rows = (record_judgment sha256 now pair_id j rows).0
  step now (disposes pair_id d by) rows = after rows (dispose now pair_id d by rows)
  step now (reopens pair_id) rows = (reopen pair_id rows).0
  step now (closes_old old_id d by kind) rows = (close_for_old now old_id d by kind rows).0
  step now (closes_deleted memory_id) rows = (close_for_deleted_memory now memory_id rows).0
  step now (closes_updated memory_id text) rows =
      (close_for_updated_text sha256 now memory_id text rows).0

  unfoldable pub run : List (ℕ × Call) → PairStore → PairStore
  run [] rows = rows
  run ((now, c) ∷ calls) rows = run calls (step now c rows)
