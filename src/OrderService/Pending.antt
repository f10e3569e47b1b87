-- ===== src/OrderService/Pending.antt =====
-- What the query for the orders that wait for a notification returns.
use go_pay.Prelude.{
  ℕ, ◌≤◌, ◌<◌, true, none, List, ◌≡◌, refl, arith, inl, inr, eq_iff, Option-cases, length, take,
  select, order_by, All, All-take, All-order_by, All-select, length-take-le,
}
use mathlib.Core.Path.{subst}
use go_pay.Errors.{Result, ok}
use go_pay.Models.{Order}
use go_pay.Models.OrderStatus
use go_pay.Models.NotifyStatus
use go_pay.World.{World, Env, running}
use go_pay.OrderService.Queries.{is_pending_notify, list_pending_notify_orders}

-- A paid order whose business system has not been told, after fewer than five attempts.
pub record IsWaiting (o : Order) : Type 0 where
  pub paid : o.status ≡ OrderStatus.paid
  pub pending : o.notify_status ≡ NotifyStatus.pending
  pub attempts : o.retry_count < 5

IsWaiting-is_pending_notify : (o : Order) → is_pending_notify o ≡ true → IsWaiting o
IsWaiting-is_pending_notify o h = record {
  paid = ground (arith, eq_iff o.status OrderStatus.paid);
  pending = ground (arith, eq_iff o.notify_status NotifyStatus.pending);
  attempts = ground arith;
}

module _ (env : Env) where
  abbrev Listed : ℕ → World → Result (List Order) × World → Type 0
  Listed limit w x =
      (x.1.db ≡ w.db) × ((os : List Order) → x.0 ≡ ok os → All IsWaiting os × (length os ≤ limit))

  Listed-list_pending_notify_orders :
      (limit : ℕ) (w : World) → Listed limit w (list_pending_notify_orders env limit w)
  unfolding list_pending_notify_orders running
  Listed-list_pending_notify_orders limit w = elim (Option-cases (env.fault w.statements)) [
    | inr (e, f) ↦ (ground arith, λ os h. absurd (ground arith))
    | inl f ↦ (
      ground arith,
      λ os h.
          subst (λ xs. All IsWaiting xs × (length xs ≤ limit)) (rows os f h)
            (
              All-take IsWaiting limit _ (
                  All-order_by IsWaiting (λ o. o.created_at) _
                    (All-select IsWaiting is_pending_notify IsWaiting-is_pending_notify
                      w.db.orders)),
              length-take-le limit _,
            ),
    )
  ]
    where
      rows :
          (os : List Order)
          → env.fault w.statements ≡ none
          → (list_pending_notify_orders env limit w).0 ≡ ok os
          → take limit (order_by (λ o. o.created_at) (select is_pending_notify w.db.orders)) ≡ os
      rows os f h = ground arith

  -- What the query returns is at most `limit` orders, and each is paid, waits for its notification
  -- and has had fewer than five attempts; and the tables stay as they are.
  pub list_pending_notify_orders-IsWaiting :
      (limit : ℕ) (w w' : World) (os : List Order)
      → list_pending_notify_orders env limit w ≡ (ok os, w')
      → All IsWaiting os × (length os ≤ limit) × (w'.db ≡ w.db)
  list_pending_notify_orders-IsWaiting limit w w' os h =
      let (same, listed) = subst (Listed limit w) h (Listed-list_pending_notify_orders limit w) in
      let (waiting, few) = listed os refl in (waiting, few, same)
