-- ===== src/OrderService/Create.antt =====
-- `CreateOrder` of internal/service/order_service.go, with `saveOrder`,
-- `isUniqueOrderViolation`, `generateOrderNo`, `buildWebhookURL` and `SetPublicBaseURL`.
use go_pay.Prelude.{
  ℕ, ◌+◌, ◌*◌, ◌%◌, String, ⊤, Bool, false, ◌&&◌, ◌||◌, Option, none, some, List, [], ◌∷◌, ◌++◌,
  ◌==◌, if◌then◌else◌, find, length, concat, contains, is_some,
}
use go_pay.Prelude.Int.{pos, leb_ℤ}
use go_pay.Prelude.Text.{hex, trim_slashes}
use go_pay.Errors.{GoError, wrap, is_no_rows, as_driver, Result, ok, err}
use go_pay.Sql.{duplicate_key, missing_key}
use go_pay.Errors.Make.{
  new_invalid_request, new_invalid_amount, new_app_not_found, new_order_exists, new_payment_failed,
}
use go_pay.Models.{App, Order}
use go_pay.Models.OrderStatus
use go_pay.Models.NotifyStatus
use go_pay.Channel
use go_pay.Channel.{PaymentChannel}
use go_pay.World.{
  Db, ChannelCall, Env, ChannelManager, M, pure, raise, lift, map_error, attempt, ◌>>=◌, ◌>>◌,
  call_channel, statement, time_now, draw,
}
use go_pay.OrderService.{CreateOrderRequest, CreateOrderResponse}
use go_pay.OrderService.Queries.{has_order_no, has_trade_no, get_app, get_order_by_out_trade_no}

unfoldable pub is_unique_order_violation : GoError → Bool
is_unique_order_violation e = elim (as_driver e) [
  | none ↦ false
  | some (state, constraint, message) ↦
      (state == "23505")
      && ((constraint == "uk_orders_app_out_trade_no")
          || (constraint == "idx_orders_app_out_trade_no")
          || (contains message "app_id" && contains message "out_trade_no"))
]

-- The row of an order, with the columns that the database fills in.
abbrev pub stored_order : Order → ℕ → Db → Order
stored_order o now db = record o { id = length db.orders + 1; created_at = now; updated_at = now }

-- `INSERT INTO orders`, under the constraints of migrations/001_init_schema.up.sql: `order_no` is
-- unique, and so is the pair of `app_id` and `out_trade_no`; `created_at` and `updated_at` are
-- `NOW()`. The foreign key on `app_id` is checked too.
unfoldable pub insert_order : Order → ℕ → Db → Result ⊤ × Db
insert_order o now db =
    if is_some (find (has_order_no o.order_no) db.orders)
    then (err (duplicate_key "orders_order_no_key"), db)
    else if is_some (find (has_trade_no o.app_id o.out_trade_no) db.orders)
    then (err (duplicate_key "idx_orders_app_out_trade_no"), db)
    else if is_some (find (λ (a : App). a.app_id == o.app_id) db.apps)
    then (ok tt, record db { orders = db.orders ++ stored_order o now db ∷ [] })
    else (err (missing_key "orders" "fk_orders_app_id"), db)

abbrev pub set_public_base_url : String → String → String
set_public_base_url old base_url = if base_url == "" then old else base_url

unfoldable pub build_webhook_url : String → String → String
unfolding trim_slashes
build_webhook_url public_base_url channel =
    let base = if public_base_url == "" then "http://localhost:8080" else public_base_url in
    concat (trim_slashes base ∷ "/api/v1/webhook/" ∷ channel ∷ [])

module _ (env : Env) where
  draw_bytes : ℕ → M (List ℕ)
  draw_bytes ℕ.zero = pure []
  draw_bytes (ℕ.suc n) = do b ← draw env; bs ← draw_bytes n; pure (b % 256 ∷ bs)

  unfoldable pub generate_order_no : M String
  unfolding draw_bytes
  generate_order_no = do
    bytes ← draw_bytes 4
    now ← time_now env
    pure (concat ("ORD_" ∷ env.format "20060102150405" now ∷ "_" ∷ hex bytes ∷ []))

  unfoldable pub save_order : Order → M ⊤
  unfolding insert_order
  save_order o = statement env (insert_order o)

  -- The order that a request makes, before it is saved.
  abbrev pub new_order : CreateOrderRequest → String → Channel.CreateOrderResponse → ℕ → Order
  new_order req order_no resp now = record {
    id = 0;
    order_no = order_no;
    app_id = req.app_id;
    out_trade_no = req.out_trade_no;
    channel = req.channel;
    amount = req.amount;
    currency = "CNY";
    subject = req.subject;
    body = req.body;
    status = OrderStatus.pending;
    notify_status = NotifyStatus.pending;
    retry_count = 0;
    channel_order_no = resp.platform_trade_no;
    pay_url = resp.pay_url;
    paid_at = none;
    notified_at = none;
    expires_at = now + 2 * 3600;
    created_at = 0;
    updated_at = 0;
  }

  abbrev pub app_error : String → GoError → GoError
  app_error app_id e = if is_no_rows e then new_app_not_found app_id else wrap "failed to get app" e

  -- Steps 1 to 3: the amount, the app, and no earlier order of this number.
  unfoldable pub check_request : CreateOrderRequest → M ⊤
  check_request req = if leb_ℤ req.amount (pos 0) then raise (new_invalid_amount req.amount) else do
    app ← map_error (app_error req.app_id) (get_app env req.app_id)
    existing ← attempt (get_order_by_out_trade_no env app.id req.out_trade_no)
    elim existing [
      | ok o ↦ raise (new_order_exists req.out_trade_no)
      | err e ↦ if is_no_rows e then pure tt else raise (wrap "failed to check existing order" e)
    ]

  abbrev pub save_error : String → GoError → GoError
  save_error out_trade_no e =
      if is_unique_order_violation e
      then new_order_exists out_trade_no
      else wrap "failed to save order" e

  module _ (cm : ChannelManager) (public_base_url : String) where
    abbrev pub channel_request : CreateOrderRequest → String → Channel.CreateOrderRequest
    channel_request req order_no = record {
      order_id = order_no;
      biz_order_no = req.out_trade_no;
      amount = req.amount;
      subject = req.subject;
      description = req.body;
      notify_url = build_webhook_url public_base_url req.channel;
      extra_data = req.extra_data;
    }

    -- Steps 4 to 8: the number, the provider, the channel's order, and the row.
    unfoldable pub place_order : CreateOrderRequest → M CreateOrderResponse
    place_order req = do
      order_no ← generate_order_no
      provider ← lift (cm.get_provider req.app_id req.channel)
      call_channel (ChannelCall.create_order (channel_request req order_no))
      resp ←
          map_error (new_payment_failed "支付渠道创建订单失败")
            (lift (provider.create_order (channel_request req order_no)))
      now ← time_now env
      map_error (save_error req.out_trade_no) (save_order (new_order req order_no resp now))
      pure (record {
        order_no = order_no;
        pay_url = resp.pay_url;
        qr_code = resp.qr_code;
        prepay_id = resp.prepay_id;
        extra_data = resp.extra_data;
      })

    unfoldable pub create_order : Option CreateOrderRequest → M CreateOrderResponse
    unfolding check_request place_order
    create_order none = raise (new_invalid_request "请求参数不能为空" [])
    create_order (some req) = do check_request req; place_order req
