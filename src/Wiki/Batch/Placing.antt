-- ===== src/Wiki/Batch/Placing.antt =====
-- src/memline/wiki/batch.py, `plan_batches`: the four cases of a turn of the loop over the sessions.
use memline.Prelude.{
  ℕ, ◌+◌, String, ◌≡◌, inl, inr, true, false, List, [], ◌++◌, ltb, leb, length, Bool-cases,
}
use memline.Wiki.Batch.{Memory, State, flush_pack, push, part_of_session, pending_size, place}

module _ {κ} (max_memories pack_threshold : ℕ) (session_id : String) (group : List Memory)
    (st : State) (P : State → Type κ) where
  pub place-cases :
      (ltb max_memories (length group) ≡ true
        → P (record {
          batches = (flush_pack st).batches ++ part_of_session max_memories session_id group;
          pending = [];
        }))
      → (ltb max_memories (length group) ≡ false
          → P (flush_pack (push (session_id, group) (flush_pack st))))
      → (ltb max_memories (length group) ≡ false → P (push (session_id, group) (flush_pack st)))
      → (ltb max_memories (pending_size st.pending + length group) ≡ false
          → P (push (session_id, group) st))
      → P (place max_memories pack_threshold (session_id, group) st)
  place-cases large alone new joined = elim (Bool-cases (ltb max_memories (length group))) [
    | inl h ↦ rw (h, place) (large h)
    | inr h ↦ elim (Bool-cases (leb pack_threshold (length group))) [
      | inl k ↦ rw (h, k, place) (alone h)
      | inr k ↦ elim (Bool-cases (ltb max_memories (pending_size st.pending + length group))) [
        | inl full ↦ rw (h, k, full, place) (new h)
        | inr room ↦ rw (h, k, room, place) (joined room)
      ]
    ]
  ]
