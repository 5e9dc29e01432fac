-- ===== src/Queue/Alerts.antt =====
-- src/memline/queue.py: the alerts file after `refresh_alerts`.
use memline.Prelude.{
  ℕ, ◌≤◌, ◌≡◌, refl, ap, inl, inr, true, false, Option, none, some, List, [], ◌∷◌, arith, filter,
  count, In, In-filter, Bool-cases, In-filter_of, count-zero_all,
}
use memline.Prelude.Table.{first, update_where, desc, order_by_desc}
use memline.Prelude.Order.{first-order_by_desc-le, first-sort_by-In, not-In-first-sort_by, updated}
use memline.Queue.{
  Event, EventQueue, Alert, ackable, ack_row, ack, is_unacked_failure, publish, refresh_alerts,
}

-- What the alerts file says of the rows: nothing if and only if no failure is unacknowledged, and
-- otherwise how many are, with the error and the time of one that changed last.
abbrev pub Reports : List Event → Option Alert → Type 0
Reports rows none = (r : Event) → In r rows → is_unacked_failure r ≡ false
Reports rows (some a) =
    (r : Event) × In r rows
    × (is_unacked_failure r ≡ true)
    × (a ≡ record {
      failed_unacked = count is_unacked_failure rows;
      latest_error = r.error;
      updated_at = r.updated_at;
    })
    × ((x : Event) → In x rows → is_unacked_failure x ≡ true → x.updated_at ≤ r.updated_at)

abbrev by_time : Event → ℕ
by_time r = r.updated_at

publish-Reports :
    (rows sorted : List Event)
    → order_by_desc by_time (filter is_unacked_failure rows) ≡ sorted
    → Reports rows (publish sorted (count is_unacked_failure rows))
publish-Reports rows [] e = λ r i. elim (Bool-cases (is_unacked_failure r)) [
  | inl bad ↦ absurd (
      not-In-first-sort_by (desc by_time) r _ (ap first e)
        (In-filter_of is_unacked_failure r rows i bad))
  | inr fine ↦ fine
]
publish-Reports rows (m ∷ ms) e =
    let i =
      In-filter is_unacked_failure m rows (first-sort_by-In (desc by_time) m _ (ap first e)) in
    (
      m,
      i.0,
      i.1,
      refl,
      λ x j bad.
          first-order_by_desc-le by_time x m _ (ap first e)
            (In-filter_of is_unacked_failure x rows j bad),
    )

-- After `refresh_alerts` there is no alerts file if and only if no failure is unacknowledged;
-- otherwise it names the number of such failures, and the error and the time of one of them that
-- changed last. The table is as it was.
pub refresh_alerts-Reports :
    (q : EventQueue)
    → Reports q.events (refresh_alerts q).alerts × ((refresh_alerts q).events ≡ q.events)
unfolding refresh_alerts
refresh_alerts-Reports q = (publish-Reports q.events _ refl, refl)

acked_all :
    (now : ℕ) (r : Event) → is_unacked_failure (updated (ackable none) (ack_row now) r) ≡ false
acked_all now r = ground arith

count-zero_nil :
    (rows : List Event) → count is_unacked_failure rows ≡ 0 → filter is_unacked_failure rows ≡ []
count-zero_nil [] h = refl
count-zero_nil (r ∷ rows) h = ground (arith, count-zero_nil rows)

-- After `ack` without an event id and `refresh_alerts` there is no alerts file.
pub refresh_alerts-ack :
    (now : ℕ) (q : EventQueue) → (refresh_alerts (ack now none q).0).alerts ≡ none
unfolding refresh_alerts ack
refresh_alerts-ack now q =
    let gone = count-zero_nil (update_where (ackable none) (ack_row now) q.events) (
      count-zero_all is_unacked_failure (updated (ackable none) (ack_row now)) (acked_all now)
        q.events) in
    rw gone
