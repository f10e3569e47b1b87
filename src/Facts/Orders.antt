-- ===== src/Facts/Orders.antt =====
-- internal/service/order_service.go: the facts of the orders (`OrderFact`) through its methods.
use go_pay.Prelude.{
  ℕ, String, Option, none, some, ◌≡◌, refl, ◌⊎◌, inl, inr, arith, Bool-cases, Option-cases, find,
  ◌==◌, ⊤,
}
use go_pay.Prelude.Int.{ℤ, pos, leb_ℤ, ◌≤ℤ◌}
use go_pay.Errors.{Result, ok, err}
use go_pay.Models.{App, Order}
use go_pay.Models.OrderStatus
use go_pay.Models.NotifyStatus
use go_pay.Channel
use go_pay.World.{Db, World, Env, ChannelManager}
use go_pay.World.Keeps.{
  Keeps, Keeps-if, Keeps-bind_success, Keeps-raise, Keeps-bind, Keeps-attempt, keeps_rules,
  Keeps-statement, Keeps-exec, Keeps-map_error,
}
use go_pay.OrderService.{CreateOrderRequest}
use go_pay.OrderService.Queries.{
  has_order_no, has_trade_no, get_app, get_order_by_out_trade_no, query_order,
  query_order_by_out_trade_no, query_order_by_out_trade_no_global, list_pending_notify_orders,
}
use go_pay.OrderService.Status.{update_order_status, update_notify_status, increment_retry_count}
use go_pay.OrderService.Transition.{Effect, refused, kept, written, update_order_status-Effect}
use go_pay.OrderService.Create.{
  insert_order, new_order, save_order, generate_order_no, check_request, place_order, create_order,
}
use go_pay.Facts.{OrderFact, IsNew}

new_order-IsNew :
    (env : Env) (req : CreateOrderRequest)
    → pos 1 ≤ℤ req.amount
    → (n : String) (resp : Channel.CreateOrderResponse) (now : ℕ)
    → IsNew (new_order env req n resp now)
new_order-IsNew env req h n resp now = record {
  pending = refl;
  not_notified = refl;
  no_retries = refl;
  positive = h;
}

module _ (F : OrderFact) (env : Env) where
  open F use {Rel, keep}

  pub get_app-Keeps : (id : String) → Keeps F.kept (get_app env id)
  unfolding get_app
  get_app-Keeps id = search keeps_rules

  get_order_by_out_trade_no-Keeps :
      (id : ℕ) (n : String) → Keeps F.kept (get_order_by_out_trade_no env id n)
  unfolding get_order_by_out_trade_no
  get_order_by_out_trade_no-Keeps id n = search keeps_rules

  pub query_order-Keeps : (n : String) → Keeps F.kept (query_order env n)
  unfolding query_order
  query_order-Keeps n = search keeps_rules

  pub query_order_by_out_trade_no-Keeps :
      (a n : String) → Keeps F.kept (query_order_by_out_trade_no env a n)
  unfolding query_order_by_out_trade_no
  query_order_by_out_trade_no-Keeps a n = search keeps_rules

  pub query_order_by_out_trade_no_global-Keeps :
      (n : String) → Keeps F.kept (query_order_by_out_trade_no_global env n)
  unfolding query_order_by_out_trade_no_global
  query_order_by_out_trade_no_global-Keeps n = search keeps_rules

  pub list_pending_notify_orders-Keeps : (n : ℕ) → Keeps F.kept (list_pending_notify_orders env n)
  unfolding list_pending_notify_orders
  list_pending_notify_orders-Keeps n = search keeps_rules

  Effect-Rel :
      (n s : String) (t : Option ℕ) (db db' : Db) (r : Result ⊤)
      → (s ≡ OrderStatus.paid) ⊎ (s ≡ OrderStatus.refunded)
      → Effect n s t db r db'
      → Rel db db'
  Effect-Rel n s t db db' r h (refused e p q) = rw q (keep db)
  Effect-Rel n s t db db' r h (kept o f c e p q) = rw q (keep db)
  Effect-Rel n s t db db' r h (written o now f a p q) = rw q (F.on_status n s t now db o f a h)

  pub update_order_status-Keeps :
      (n s : String) (t : Option ℕ) (amount : ℤ)
      → (s ≡ OrderStatus.paid) ⊎ (s ≡ OrderStatus.refunded)
      → Keeps F.kept (update_order_status env n s t amount)
  update_order_status-Keeps n s t amount h = record {
    at = λ w. Effect-Rel n s t w.db _ _ h (update_order_status-Effect env n s t amount w);
  }

  pub update_notify_status-Keeps :
      (n s : String)
      → (s ≡ NotifyStatus.notified) ⊎ (s ≡ NotifyStatus.failed_notify)
      → Keeps F.kept (update_notify_status env n s)
  unfolding update_notify_status
  update_notify_status-Keeps n s h =
      Keeps-map_error _ (Keeps-exec env _ (λ now db. F.on_notify_status n s now db h))

  pub increment_retry_count-Keeps : (n : String) → Keeps F.kept (increment_retry_count env n)
  unfolding increment_retry_count
  increment_retry_count-Keeps n =
      Keeps-map_error _ (Keeps-exec env _ (λ now db. F.on_retry n now db))

  insert_order-Rel : (o : Order) → IsNew o → (now : ℕ) (db : Db) → Rel db (insert_order o now db).1
  unfolding insert_order
  insert_order-Rel o new now db = elim (Option-cases (find (has_order_no o.order_no) db.orders)) [
    | inr (x, h) ↦ rw h (keep db)
    | inl h ↦ elim (Option-cases (find (has_trade_no o.app_id o.out_trade_no) db.orders)) [
      | inr (x, k) ↦ rw (h, k) (keep db)
      | inl k ↦ elim (Option-cases (find (λ (a : App). a.app_id == o.app_id) db.apps)) [
        | inr (a, l) ↦ rw (h, k, l) (F.on_insert o now db new h k a l)
        | inl l ↦ rw (h, k, l) (keep db)
      ]
    ]
  ]

  generate_order_no-Keeps : Keeps F.kept (generate_order_no env)
  unfolding generate_order_no
  generate_order_no-Keeps = search keeps_rules depth 20

  save_order-Keeps : (o : Order) → IsNew o → Keeps F.kept (save_order env o)
  unfolding save_order
  save_order-Keeps o h = Keeps-statement env _ (insert_order-Rel o h)

  check_request-Keeps : (req : CreateOrderRequest) → Keeps F.kept (check_request env req)
  unfolding check_request
  check_request-Keeps req = Keeps-if _ (Keeps-raise _) (
      Keeps-bind (Keeps-map_error _ (get_app-Keeps req.app_id)) λ a.
        Keeps-bind (Keeps-attempt (get_order_by_out_trade_no-Keeps a.id req.out_trade_no))
          (elim [ ok o ↦ Keeps-raise _ | err e ↦ search keeps_rules ]))

  module _ (cm : ChannelManager) (base : String) where
    place_order-Keeps :
        (req : CreateOrderRequest)
        → pos 1 ≤ℤ req.amount
        → Keeps F.kept (place_order env cm base req)
    unfolding place_order
    place_order-Keeps req h =
        search (keeps_rules, generate_order_no-Keeps, save_order-Keeps, new_order-IsNew env req h)
          depth 16

    checked_amount :
        (req : CreateOrderRequest) (w : World) (a : ⊤) (w' : World)
        → check_request env req w ≡ (ok a, w')
        → pos 1 ≤ℤ req.amount
    unfolding check_request
    checked_amount req w a w' e = elim (Bool-cases (leb_ℤ req.amount (pos 0))) [
      | inl h ↦ absurd (ground arith)
      | inr h ↦ ground arith
    ]

    pub create_order-Keeps :
        (req : Option CreateOrderRequest) → Keeps F.kept (create_order env cm base req)
    unfolding create_order
    create_order-Keeps none = Keeps-raise _
    create_order-Keeps (some req) =
        Keeps-bind_success (check_request-Keeps req) (checked_amount req)
          (λ h _. place_order-Keeps req h)
