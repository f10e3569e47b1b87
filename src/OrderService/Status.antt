-- ===== src/OrderService/Status.antt =====
-- `UpdateOrderStatus`, `UpdateNotifyStatus` and `IncrementRetryCount` of
-- internal/service/order_service.go.
use go_pay.Prelude.{ℕ, ◌+◌, String, ⊤, not, ◌&&◌, Option, some, ◌==◌, if◌then◌else◌, find, update}
use go_pay.Prelude.Int.{ℤ}
use go_pay.Errors.{wrap}
use go_pay.Sql.{scan}
use go_pay.Errors.Make.{new_order_paid, new_order_closed}
use go_pay.Models.{Order}
use go_pay.Models.OrderStatus
use go_pay.World.{
  Db, Env, M, pure, raise, query, exec, begin, exec_in, commit, map_error, ◌>>=◌, ◌>>◌,
}
use go_pay.OrderService.Queries.{has_order_no, not_found_or}

-- `UPDATE orders SET … WHERE order_no = $n`
abbrev pub update_order : String → (Order → Order) → Db → Db
update_order order_no f db = record db { orders = update (has_order_no order_no) f db.orders }

abbrev pub set_status : String → Option ℕ → ℕ → Order → Order
set_status status paid_at now o = record o { status = status; paid_at = paid_at; updated_at = now }

abbrev pub set_notify_status : String → ℕ → Order → Order
set_notify_status notify_status now o = record o {
  notify_status = notify_status;
  notified_at = some now;
  updated_at = now;
}

abbrev pub add_retry : ℕ → Order → Order
add_retry now o = record o { retry_count = o.retry_count + 1; updated_at = now }

module _ (env : Env) where
  -- The two statements that write the status and end the transaction.
  unfoldable pub write_status : String → String → Option ℕ → M ⊤
  write_status order_no status paid_at = do
    writes ←
        map_error (wrap "failed to update order status")
          (exec_in env (λ now. update_order order_no (set_status status paid_at now)))
    map_error (wrap "failed to commit transaction") (commit env writes)

  -- The transaction once the row is locked and its status is known. A refunded order that is
  -- refunded again is left as it is.
  unfoldable pub update_locked : String → String → Option ℕ → String → M ⊤
  update_locked order_no status paid_at current =
      if (current == OrderStatus.paid) && not (status == OrderStatus.refunded)
      then raise (new_order_paid order_no)
      else if current == OrderStatus.refunded
      then (if status == OrderStatus.refunded then pure tt else raise (new_order_paid order_no))
      else if current == OrderStatus.closed
      then raise (new_order_closed order_no)
      else write_status order_no status paid_at

  -- `paid_amount` is taken, as in the source, and never read.
  unfoldable pub update_order_status : String → String → Option ℕ → ℤ → M ⊤
  unfolding update_locked write_status
  update_order_status order_no status paid_at paid_amount = do
    map_error (wrap "failed to begin transaction") (begin env)
    current ←
        map_error (not_found_or order_no "failed to lock order")
          (query env (λ db. scan (find (has_order_no order_no) db.orders)))
    update_locked order_no status paid_at current.status

  unfoldable pub update_notify_status : String → String → M ⊤
  update_notify_status order_no notify_status =
      map_error (wrap "failed to update notify status")
        (exec env (λ now. update_order order_no (set_notify_status notify_status now)))

  unfoldable pub increment_retry_count : String → M ⊤
  increment_retry_count order_no =
      map_error (wrap "failed to increment retry count")
        (exec env (λ now. update_order order_no (add_retry now)))
