-- ===== src/OrderService/Queries.antt =====
-- The `SELECT` statements of internal/service/order_service.go. `QueryRow` returns the first row
-- that fits, or `sql.ErrNoRows`.
use go_pay.Prelude.{
  ℕ, String, Bool, ◌&&◌, Option, none, some, List, [], ◌==◌, if◌then◌else◌, find, select, take,
  order_by, get_last?, reverse_onto, ltb,
}
use go_pay.Errors.{GoError, wrap, is_no_rows, ok}
use go_pay.Sql.{scan}
use go_pay.Errors.Make.{new_order_not_found}
use go_pay.Models.{App, Order}
use go_pay.Models.OrderStatus
use go_pay.Models.NotifyStatus
use go_pay.World.{Db, Env, M, query, map_error}

-- `WHERE order_no = $1`
abbrev pub has_order_no : String → Order → Bool
has_order_no order_no o = o.order_no == order_no

abbrev pub has_trade_no : String → String → Order → Bool
has_trade_no app_id out_trade_no o = (o.app_id == app_id) && (o.out_trade_no == out_trade_no)

abbrev pub is_active_app : String → App → Bool
is_active_app app_id a = (a.app_id == app_id) && (a.status == "active")

abbrev pub is_app_row : ℕ → App → Bool
is_app_row id a = go_pay.Prelude.eqb a.id id

-- `WHERE app_id = (SELECT app_id FROM apps WHERE id = $1) AND out_trade_no = $2`: the inner query
-- is NULL where there is no such app, and then no row fits.
abbrev pub row_of_trade_no : ℕ → String → Db → Option Order
row_of_trade_no id out_trade_no db = elim (find (is_app_row id) db.apps) [
  | none ↦ none
  | some a ↦ find (has_trade_no a.app_id out_trade_no) db.orders
]

-- `ORDER BY created_at DESC`, as the rows of `ORDER BY created_at ASC` in reverse.
abbrev pub newest_first : List Order → List Order
newest_first orders = reverse_onto (order_by (λ o. o.created_at) orders) []

-- `WHERE status = 'paid' AND notify_status = 'pending' AND retry_count < 5`
abbrev pub is_pending_notify : Order → Bool
is_pending_notify o =
    (o.status == OrderStatus.paid)
    && (o.notify_status == NotifyStatus.pending)
    && ltb o.retry_count 5

-- The error of a query for one order: a missing row is its own error.
abbrev pub not_found_or : String → String → GoError → GoError
not_found_or key prefix e = if is_no_rows e then new_order_not_found key else wrap prefix e

module _ (env : Env) where
  -- `getApp`, of the order service and of the notify service.
  unfoldable pub get_app : String → M App
  get_app app_id = query env (λ db. scan (find (is_active_app app_id) db.apps))

  unfoldable pub get_order_by_order_no : String → M Order
  get_order_by_order_no order_no = query env (λ db. scan (find (has_order_no order_no) db.orders))

  unfoldable pub get_order_by_out_trade_no : ℕ → String → M Order
  get_order_by_out_trade_no id out_trade_no =
      query env (λ db. scan (row_of_trade_no id out_trade_no db))

  unfoldable pub query_order : String → M Order
  unfolding get_order_by_order_no
  query_order order_no =
      map_error (not_found_or order_no "failed to get order") (get_order_by_order_no order_no)

  unfoldable pub query_order_by_out_trade_no : String → String → M Order
  query_order_by_out_trade_no app_id out_trade_no =
      map_error (not_found_or out_trade_no "failed to query order by out_trade_no")
        (query env (λ db. scan (find (has_trade_no app_id out_trade_no) db.orders)))

  unfoldable pub query_order_by_out_trade_no_global : String → M Order
  query_order_by_out_trade_no_global out_trade_no =
      map_error (not_found_or out_trade_no "failed to query order globally") (
        query env (λ db. scan (
          get_last? (
            order_by (λ o. o.created_at)
              (select (λ o. o.out_trade_no == out_trade_no) db.orders)))))

  unfoldable pub list_pending_notify_orders : ℕ → M (List Order)
  list_pending_notify_orders limit = map_error (wrap "failed to query pending notify orders") (
      query env
        (λ db. ok (take limit (order_by (λ o. o.created_at) (select is_pending_notify db.orders)))))

  unfoldable pub list_failed_orders : ℕ → M (List Order)
  list_failed_orders limit = map_error (wrap "failed to query failed orders") (
      query env (λ db. ok (
        take limit
          (newest_first (select (λ o. o.notify_status == NotifyStatus.failed_notify) db.orders)))))
