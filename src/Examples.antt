-- ===== src/Examples.antt =====
-- Concrete runs of the services: one app, one order of 500 cents, and a channel that takes every
-- refund and answers that it is pending.
pub mod Shop
pub mod Gateway
pub mod Config
pub mod Managed
pub mod Limits
pub mod Registry
pub mod Vendors
pub mod Workers
pub mod Templates
pub mod Admin
use go_pay.Prelude.{
  ℕ, zero, suc, String, true, none, some, List, [], ◌∷◌, ◌≡◌, ◌≤◌, refl, inl, inr, arith, length,
  All,
}
use go_pay.Prelude.Int.{pos}
use go_pay.Errors.{plain, sentinel, Sentinel, as_business, ok, err, BusinessError}
use go_pay.Models.{App, Order}
use go_pay.Models.OrderStatus
use go_pay.Models.NotifyStatus
use go_pay.Channel
use go_pay.Channel.{PaymentChannel, RefundProvider, WebhookResponse}
use go_pay.Channel.ChannelStatus
use go_pay.Channel.RefundStatus
use go_pay.World.{Db, World, HttpOutcome, Env, ChannelManager, running}
use go_pay.Response.{failure, handle_error}
use go_pay.Response.Mapping.{
  made, wraps, status_class, summary, handle_error-made, handle_error_tables_agree,
}
use go_pay.Response.Mapping
use go_pay.OrderService
use go_pay.OrderService.Create.{create_order}
use go_pay.OrderService.Outcome.{Created, create_order-Created}
use go_pay.OrderService.Pending.{IsWaiting, list_pending_notify_orders-IsWaiting}
use go_pay.OrderService.Queries.{query_order, list_pending_notify_orders}
use go_pay.OrderService.Status.{update_order_status}
use go_pay.OrderService.Transition.{Effect, update_order_status-Effect}
use go_pay.OrderService.Settlement.{payable, payments, paid_at_most_once}
use go_pay.OrderService.Settlement
use go_pay.Prelude.Text.{show_06}
use go_pay.RefundService.{
  RefundRequest, generate_refund_no, generate_transaction_no, insert_transaction,
  save_refund_transaction, update_refund_status, refund,
}
use go_pay.RefundService.Outcome.{Refunded, refund-Refunded}
use go_pay.NotifyService.Post.{attempt_of}
use go_pay.NotifyService.Retry.{notify_rounds}
use go_pay.NotifyService.Pool.{scheduler_rounds}
use go_pay.NotifyService.Tokens.{Balanced, scheduler_rounds-Balanced}
use go_pay.NotifyService.Rounds.{Ending, notify_rounds-Ending}
use go_pay.Webhook.Settle.{settle}
use go_pay.Webhook.Payment.{Settled, settle-Settled}
use go_pay.Webhook.Duplicates.{Untouched, settle-duplicate}
use go_pay.System.{Setup, Event, serve_all}
use go_pay.System.History.{Followed, orders_only_advance}
use go_pay.System.Valid.{IsValid, serve_all-IsValid}
use go_pay.Examples.Shop.{
  shop, order, tables, world, answer, env, pending_refund, wallet, channels, setup, whole, calls,
  paid_again,
}

orders_only_advance_example :
    Followed "ORD_1" (order "paid") (serve_all env calls (world "paid")).db
orders_only_advance_example =
    orders_only_advance env calls (world "paid") "ORD_1" (order "paid") refl

serve_all-IsValid_example : IsValid (serve_all env calls (world "paid")).db
serve_all-IsValid_example = serve_all-IsValid env calls (world "paid") (record {
  sound = (record { amount = omega arith; status = inr (inl refl) }, tt);
  unique = (refl, refl, tt);
})

refund-Refunded_example :
    let (r, w') = refund env channels true (some whole) (world "paid") in
    Refunded channels whole (world "paid") r w'
refund-Refunded_example = refund-Refunded env channels true whole (world "paid")

notify_rounds-Ending_example :
    let (r, w') =
      notify_rounds env 5 0 (order "paid") "https://shop.example/pay" "{}" (world "paid") in
    Ending env 5 0 (world "paid") r w'
notify_rounds-Ending_example =
    notify_rounds-Ending env 5 0 (order "paid") "https://shop.example/pay" "{}" (world "paid")

abbrev twice : List Settlement.Call
twice = pay ∷ pay ∷ []
  where
    pay : Settlement.Call
    pay = record {
      order_no = "ORD_1";
      status = OrderStatus.paid;
      paid_at = some 9;
      amount = pos 500;
    }

paid_at_most_once_example :
    (payments env "ORD_1" twice (world "pending") ≤ 1)
    × (payments env "ORD_1" twice (world "pending") ≤ payable "ORD_1" (tables "pending"))
paid_at_most_once_example = paid_at_most_once env "ORD_1" twice (world "pending")

update_order_status-Effect_example :
    let (r, w') = update_order_status env "ORD_1" "refunded" (some 9) (pos 500) (world "paid") in
    Effect "ORD_1" "refunded" (some 9) (tables "paid") r w'.db
update_order_status-Effect_example =
    update_order_status-Effect env "ORD_1" "refunded" (some 9) (pos 500) (world "paid")

settle-duplicate_example :
    Untouched (world "paid") (settle env (order "pending") paid_again (world "paid")).1
settle-duplicate_example =
    settle-duplicate env (order "pending") (order "paid") paid_again (world "paid") refl refl
      (inl refl)

abbrev call : Mapping.Call
call = Mapping.Call.order_not_found "ORD_9"

handle_error-made_example :
    (b : BusinessError) × (as_business (made call) ≡ some b)
    × (handle_error {A = Order} (wraps ("query failed" ∷ []) (made call))
        ≡ failure (status_class call) b.code b.message b.details)
handle_error-made_example = handle_error-made Order ("query failed" ∷ []) call

handle_error_tables_agree_example :
    summary (handle_error {A = Order} (wraps ("a" ∷ []) (sentinel Sentinel.order_not_found)))
    ≡ summary (handle_error {A = Order} (wraps [] (made call)))
handle_error_tables_agree_example = handle_error_tables_agree Order ("a" ∷ []) [] call refl

-- A refund that the channel answers as pending leaves the order paid, and so a second refund of
-- the whole amount reaches the channel too.
pending_refund_again :
    let w1 = (refund env channels true (some whole) (world "paid")).1 in
    let w2 = (refund env channels true (some whole) w1).1 in length w2.channel_calls ≡ 2
unfolding refund running query_order generate_refund_no save_refund_transaction
    generate_transaction_no insert_transaction update_refund_status show_06
pending_refund_again = refl

abbrev purchase : OrderService.CreateOrderRequest
purchase = record {
  app_id = "shop";
  out_trade_no = "T2";
  amount = pos 300;
  subject = "tea";
  body = "";
  channel = "wechat_native";
  notify_url = "";
  extra_data = [];
}

create_order-Created_example :
    let (r, w') = create_order env channels "" (some purchase) (world "paid") in
    Created env channels "" purchase (world "paid") r w'
create_order-Created_example = create_order-Created env channels "" purchase (world "paid")

abbrev asked_once : World
asked_once = record (world "paid") { statements = 1 }

list_pending_notify_orders-IsWaiting_example :
    All IsWaiting (order "paid" ∷ [])
    × (length (order "paid" ∷ []) ≤ 100)
    × (asked_once.db ≡ tables "paid")
unfolding list_pending_notify_orders running
list_pending_notify_orders-IsWaiting_example =
    list_pending_notify_orders-IsWaiting env 100 (world "paid") asked_once (order "paid" ∷ []) refl

settle-Settled_example :
    Settled
      (order "pending")
      (world "pending")
      (settle env (order "pending") paid_again (world "pending")).1
settle-Settled_example =
    settle-Settled env (λ n. refl) (order "pending") (order "pending") paid_again (world "pending")
      refl refl refl

scheduler_rounds-Balanced_example : Balanced (scheduler_rounds env 2 (world "paid")).1
scheduler_rounds-Balanced_example =
    scheduler_rounds-Balanced env 2 (world "paid") (record { held = refl; bounded = omega arith })
