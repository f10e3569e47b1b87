-- ===== src/System.antt =====
-- The program as a whole: the calls that reach it, in the order in which they are served. A call
-- is one of the handlers of internal/handler, one of the goroutines that the notify service has
-- started, or one round of its retry scheduler. Goroutines are served at any later time and in
-- any order, each as a whole.
pub mod Orders
pub mod History
pub mod Valid
use go_pay.Prelude.{ℕ, zero, suc, String, Bool, Option, none, some, List, [], ◌∷◌}
use go_pay.Errors.{Result}
use go_pay.World.{World, Task, Env, ChannelManager}
use go_pay.NotifyService.Pool.{process_pending_notifies, run_task}
use go_pay.Webhook.{Handlers, Parsers, Request}
use go_pay.Webhook.Wechat.{wechat_webhook}
use go_pay.Webhook.Alipay.{alipay_webhook}
use go_pay.Webhook.Stripe.{stripe_webhook}
use go_pay.Handler
use go_pay.Handler.{CheckoutRequest, RefundBody}

-- What the services are set up with when a call is served: the channels answer each call anew.
pub record Setup : Type 0 where
  pub cm : ChannelManager
  pub handlers : Handlers
  pub parsers : Parsers
  pub public_base_url : String
  pub refunds : Bool
  pub refunds_initialized : Bool
  pub alerting : Bool

pub data Event : Type 0 where
  checkout : Option String → Result CheckoutRequest → Event
  refund_order : Result RefundBody → String → Event
  query_refund : String → String → Event
  query : String → Event
  failed_orders : Event
  retry : String → Event
  wechat alipay stripe : Request → Event
  run : ℕ → Event
  scheduler : Event

-- The i-th goroutine that waits, and those that are left.
unfoldable pub pick : ℕ → List Task → Option (Task × List Task)
pick i [] = none
pick zero (t ∷ ts) = some (t, ts)
pick (suc i) (t ∷ ts) = elim (pick i ts) [ none ↦ none | some (s, rest) ↦ some (s, t ∷ rest) ]

module _ (env : Env) where
  unfoldable pub run_picked : Bool → Option (Task × List Task) → World → World
  run_picked alerting none w = w
  run_picked alerting (some (t, rest)) w = run_task env alerting t (record w { tasks = rest })

  unfoldable pub serve : Setup → Event → World → World
  serve s (Event.checkout verified req) w =
      (Handler.checkout env s.cm s.public_base_url verified req w).1
  serve s (Event.refund_order body order_no) w =
      (Handler.refund_order env s.cm s.refunds s.refunds_initialized body order_no w).1
  serve s (Event.query_refund order_no refund_no) w =
      (Handler.query_refund env s.cm s.refunds s.refunds_initialized order_no refund_no w).1
  serve s (Event.query order_no) w = (Handler.query env order_no w).1
  serve s Event.failed_orders w = (Handler.failed_orders env w).1
  serve s (Event.retry order_no) w = (Handler.retry env order_no w).1
  serve s (Event.wechat r) w = (wechat_webhook env s.handlers s.parsers r w).1
  serve s (Event.alipay r) w = (alipay_webhook env s.handlers s.parsers r w).1
  serve s (Event.stripe r) w = (stripe_webhook env s.handlers r w).1
  serve s (Event.run i) w = run_picked s.alerting (pick i w.tasks) w
  serve s Event.scheduler w = (process_pending_notifies env w).1

  unfoldable pub serve_all : List (Setup × Event) → World → World
  serve_all [] w = w
  serve_all ((s, e) ∷ es) w = serve_all es (serve s e w)
