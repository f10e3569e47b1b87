-- ===== src/Webhook/Wechat.antt =====
-- `WechatWebhook` and `resolveWechatWebhook` of internal/handler/webhook.go.
use go_pay.Prelude.{not, Option, none, some, List, [], ◌∷◌, ◌==◌, if◌then◌else◌, contains}
use go_pay.Errors.{GoError, plain, wrap, Result, ok, err, error_text}
use go_pay.Models.{Order}
use go_pay.Channel.{PaymentChannel, WebhookRequest, WebhookResponse}
use go_pay.World.{Env, M, pure, raise, lift, map_error, attempt, ◌>>=◌, ◌>>◌}
use go_pay.Webhook.{WebhookReply, fail, raw, panicked, Handlers, Parsers, Request}
use go_pay.Webhook.Parse.{
  parse_out_trade_no_from_wechat, find_order_by_out_trade_no, find_order_by_app_and_out_trade_no,
}
use go_pay.Webhook.Settle.{settle}

-- The `switch` on the text of the error.
unfoldable pub resolve_failure : GoError → WebhookReply
resolve_failure e =
    if contains (error_text e) "order not found"
    then fail 400 "order not found"
    else if contains (error_text e) "provider lookup failed"
    then fail 500 "系统错误"
    else if contains (error_text e) "handle webhook failed"
    then fail 500 "处理失败"
    else fail 400 "invalid webhook data"

-- The error with which the search over providers ends.
abbrev pub or_last : Option GoError → GoError → GoError
or_last none e = e
or_last (some last) e = last

module _ (env : Env) where
  -- The rest of the handler, by what was resolved.
  unfoldable pub answer_wechat : Result (Order × Option WebhookResponse) → M WebhookReply
  unfolding resolve_failure
  answer_wechat (err e) = pure (resolve_failure e)
  answer_wechat (ok (o, none)) = pure panicked
  answer_wechat (ok (o, some resp)) =
      if not resp.success
      then pure (raw 200 "application/json" resp.response_body)
      else (do settle env o resp; pure (raw 200 "application/json" resp.response_body))

module _ (env : Env) (h : Handlers) where
  -- The order that a response of this provider names.
  unfoldable pub find_scoped : PaymentChannel → WebhookResponse → M Order
  find_scoped provider resp = elim provider.scoped_app_id [
    | none ↦ find_order_by_out_trade_no env h resp.platform_trade_no
    | some app_id ↦
        if app_id == ""
        then find_order_by_out_trade_no env h resp.platform_trade_no
        else find_order_by_app_and_out_trade_no env h app_id resp.platform_trade_no
  ]

  -- The loop over the providers: `last` is `lastErr`, `e` the error to return if it is nil.
  unfoldable pub try_providers :
      List PaymentChannel
      → WebhookRequest
      → Option GoError
      → GoError
      → M (Order × Option WebhookResponse)
  unfolding find_scoped
  try_providers [] req last e = raise (or_last last e)
  try_providers (p ∷ ps) req last e = elim (p.handle_webhook req) [
    | err x ↦ try_providers ps req (some x) e
    | ok none ↦ try_providers ps req last e
    | ok (some resp) ↦
        let skip = try_providers ps req last e in
        let nameless =
          try_providers ps req
            (some (plain "platform trade no is empty in wechat webhook response")) e in
        let search : M (Order × Option WebhookResponse) = (do
          found ← attempt (find_scoped p resp)
          elim found [ ok o ↦ pure (o, some resp) | err x ↦ try_providers ps req (some x) e ]) in
        if not resp.success then skip else if resp.platform_trade_no == "" then nameless else search
  ]

  module _ (parsers : Parsers) where
    unfoldable pub resolve_wechat_webhook : WebhookRequest → M (Order × Option WebhookResponse)
    unfolding try_providers
    resolve_wechat_webhook req = elim (parse_out_trade_no_from_wechat parsers req.raw_body) [
      | ok out_trade_no ↦ do
        o ← find_order_by_out_trade_no env h out_trade_no
        provider ←
            map_error (wrap "provider lookup failed") (lift (h.get_provider o.app_id o.channel))
        resp ← map_error (wrap "handle webhook failed") (lift (provider.handle_webhook req))
        pure (o, resp)
      | err e ↦ elim h.list_providers [
        | none ↦ raise e
        | some list ↦ do providers ← lift (list "wechat_"); try_providers providers req none e
      ]
    ]

    unfoldable pub wechat_webhook : Request → M WebhookReply
    unfolding answer_wechat resolve_wechat_webhook
    wechat_webhook r = elim r.body [
      | err e ↦ pure (fail 400 "invalid request")
      | ok body ↦ do
        resolved ←
            attempt (resolve_wechat_webhook (record { raw_body = body; headers = r.headers }))
        answer_wechat env resolved
    ]
