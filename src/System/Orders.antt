-- ===== src/System/Orders.antt =====
-- The facts of the orders (`OrderFact`) through every call of the program.
use go_pay.Prelude.{ℕ, String, Bool, Option, none, some, List, [], ◌∷◌, not, ◌||◌, ◌==◌}
use go_pay.Errors.{Result, ok, err}
use go_pay.World.{World, Task, Env, ChannelManager}
use go_pay.World.Keeps.{Keeps, Keeps-if, Keeps-pure, Keeps-bind, Keeps-attempt, keeps_rules}
use go_pay.OrderService.Queries.{list_failed_orders}
use go_pay.Handler
use go_pay.Handler.{CheckoutRequest, RefundBody, is_mismatch}
use go_pay.Facts.{OrderFact}
use go_pay.Facts.Orders.{query_order-Keeps, create_order-Keeps}
use go_pay.Facts.Refunds.{refund-Keeps, query_refund-Keeps}
use go_pay.Facts.Notify.{run_task-Rel, retry_notify-Keeps, process_pending_notifies-Keeps}
use go_pay.Facts.Webhooks.{wechat_webhook-Keeps, alipay_webhook-Keeps, stripe_webhook-Keeps}
use go_pay.System.{Setup, Event, pick, run_picked, serve, serve_all}

module _ (F : OrderFact) (env : Env) where
  open F use {Rel, keep, chain}

  list_failed_orders-Keeps : (n : ℕ) → Keeps F.kept (list_failed_orders env n)
  unfolding list_failed_orders
  list_failed_orders-Keeps n = search keeps_rules

  module _ (cm : ChannelManager) where
    checkout-Keeps :
        (base : String) (verified : Option String) (req : Result CheckoutRequest)
        → Keeps F.kept (Handler.checkout env cm base verified req)
    unfolding Handler.checkout
    checkout-Keeps base verified (err e) = Keeps-pure _
    checkout-Keeps base verified (ok req) =
        Keeps-if (is_mismatch verified req.app_id) (Keeps-pure _) (
          Keeps-bind (Keeps-attempt (create_order-Keeps F env cm base (some req)))
            (λ r. Keeps-pure _))

    refund_order-Keeps :
        (service initialized : Bool) (body : Result RefundBody) (order_no : String)
        → Keeps F.kept (Handler.refund_order env cm service initialized body order_no)
    unfolding Handler.refund_order
    refund_order-Keeps service initialized (err e) order_no =
        Keeps-if (not service) (Keeps-pure _) (Keeps-pure _)
    refund_order-Keeps service initialized (ok b) order_no = Keeps-if (not service) (Keeps-pure _) (
        Keeps-if (order_no == "") (Keeps-pure _)
          (Keeps-bind (Keeps-attempt (refund-Keeps F env cm initialized _)) (λ r. Keeps-pure _)))

    query_refund-answer-Keeps :
        (service initialized : Bool) (order_no refund_no : String)
        → Keeps F.kept (Handler.query_refund env cm service initialized order_no refund_no)
    unfolding Handler.query_refund
    query_refund-answer-Keeps service initialized order_no refund_no =
        Keeps-if (not service) (Keeps-pure _) (
          Keeps-if ((order_no == "") || (refund_no == "")) (Keeps-pure _) (
            Keeps-bind (Keeps-attempt (query_refund-Keeps F env cm initialized order_no refund_no))
              (λ r. Keeps-pure _)))

  query-Keeps : (order_no : String) → Keeps F.kept (Handler.query env order_no)
  unfolding Handler.query
  query-Keeps order_no =
      Keeps-if (order_no == "") (Keeps-pure _)
        (Keeps-bind (Keeps-attempt (query_order-Keeps F env order_no)) (λ r. Keeps-pure _))

  failed_orders-Keeps : Keeps F.kept (Handler.failed_orders env)
  unfolding Handler.failed_orders
  failed_orders-Keeps =
      Keeps-bind (Keeps-attempt (list_failed_orders-Keeps 100)) (λ r. Keeps-pure _)

  retry-Keeps : (order_no : String) → Keeps F.kept (Handler.retry env order_no)
  unfolding Handler.retry
  retry-Keeps order_no =
      Keeps-if (order_no == "") (Keeps-pure _)
        (Keeps-bind (Keeps-attempt (retry_notify-Keeps F env order_no)) (λ r. Keeps-pure _))

  run_picked-Rel :
      (alerting : Bool) (p : Option (Task × List Task)) (w : World)
      → Rel w.db (run_picked env alerting p w).db
  unfolding run_picked
  run_picked-Rel alerting none w = keep w.db
  run_picked-Rel alerting (some (t, rest)) w =
      run_task-Rel F env alerting t (record w { tasks = rest })

  pub serve-Rel : (s : Setup) (e : Event) (w : World) → Rel w.db (serve env s e w).db
  unfolding serve
  serve-Rel s (Event.checkout v req) w = (checkout-Keeps s.cm s.public_base_url v req).at w
  serve-Rel s (Event.refund_order b n) w =
      (refund_order-Keeps s.cm s.refunds s.refunds_initialized b n).at w
  serve-Rel s (Event.query_refund n r) w =
      (query_refund-answer-Keeps s.cm s.refunds s.refunds_initialized n r).at w
  serve-Rel s (Event.query n) w = (query-Keeps n).at w
  serve-Rel s Event.failed_orders w = failed_orders-Keeps.at w
  serve-Rel s (Event.retry n) w = (retry-Keeps n).at w
  serve-Rel s (Event.wechat r) w = (wechat_webhook-Keeps F env s.handlers s.parsers r).at w
  serve-Rel s (Event.alipay r) w = (alipay_webhook-Keeps F env s.handlers s.parsers r).at w
  serve-Rel s (Event.stripe r) w = (stripe_webhook-Keeps F env s.handlers r).at w
  serve-Rel s (Event.run i) w = run_picked-Rel s.alerting (pick i w.tasks) w
  serve-Rel s Event.scheduler w = (process_pending_notifies-Keeps F env).at w

  pub serve_all-Rel : (es : List (Setup × Event)) (w : World) → Rel w.db (serve_all env es w).db
  unfolding serve_all
  serve_all-Rel [] w = keep w.db
  serve_all-Rel ((s, e) ∷ es) w = chain _ _ _ (serve-Rel s e w) (serve_all-Rel es (serve env s e w))
