-- ===== src/Facts.antt =====
-- What holds of the table of orders over any call of the program. `OrderFact` is a relation
-- between the tables before and after, with one law for each statement of the source that writes
-- orders; the modules below carry it through the services, the webhooks and the goroutines.
pub mod Orders
pub mod Refunds
pub mod Notify
pub mod Webhooks
use go_pay.Prelude.{ℕ, String, Option, none, some, [], ◌∷◌, ◌++◌, ◌≡◌, ◌⊎◌, find, ◌==◌}
use go_pay.Prelude.Int.{pos, ◌≤ℤ◌}
use go_pay.Models.{App, Order}
use go_pay.Models.OrderStatus
use go_pay.Models.NotifyStatus
use go_pay.World.{Db}
use go_pay.World.Keeps.{Kept}
use go_pay.OrderService.Queries.{has_order_no, has_trade_no}
use go_pay.OrderService.Status.{update_order, set_status, set_notify_status, add_retry}
use go_pay.OrderService.Transition.{Allowed}
use go_pay.OrderService.Create.{stored_order}
use go_pay.RefundService.{mark_refunded}
use go_pay.NotifyService.Pool.{reset_notify}

-- A row as `CreateOrder` makes it.
pub record IsNew (o : Order) : Type 0 where
  pub pending : o.status ≡ OrderStatus.pending
  pub not_notified : o.notify_status ≡ NotifyStatus.pending
  pub no_retries : o.retry_count ≡ 0
  pub positive : pos 1 ≤ℤ o.amount

pub record OrderFact : Type 1 where
  pub kept : Kept
  pub open kept use {Rel, keep, chain}
  pub same_orders : (a b : Db) → b.orders ≡ a.orders → b.apps ≡ a.apps → Rel a b
  pub on_status :
      (order_no status : String) (paid_at : Option ℕ) (now : ℕ) (db : Db) (o : Order)
      → find (has_order_no order_no) db.orders ≡ some o
      → Allowed o.status status
      → (status ≡ OrderStatus.paid) ⊎ (status ≡ OrderStatus.refunded)
      → Rel db (update_order order_no (set_status status paid_at now) db)
  pub on_refunded :
      (order_no : String) (now : ℕ) (db : Db)
      → Rel db (update_order order_no (mark_refunded now) db)
  pub on_notify_status :
      (order_no status : String) (now : ℕ) (db : Db)
      → (status ≡ NotifyStatus.notified) ⊎ (status ≡ NotifyStatus.failed_notify)
      → Rel db (update_order order_no (set_notify_status status now) db)
  pub on_retry :
      (order_no : String) (now : ℕ) (db : Db) → Rel db (update_order order_no (add_retry now) db)
  pub on_reset :
      (order_no : String) (now : ℕ) (db : Db) → Rel db (update_order order_no (reset_notify now) db)
  pub on_insert :
      (o : Order) (now : ℕ) (db : Db)
      → IsNew o
      → find (has_order_no o.order_no) db.orders ≡ none
      → find (has_trade_no o.app_id o.out_trade_no) db.orders ≡ none
      → (a : App) → find (λ (b : App). b.app_id == o.app_id) db.apps ≡ some a
      → Rel db (record db { orders = db.orders ++ stored_order o now db ∷ [] })
