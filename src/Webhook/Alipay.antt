-- ===== src/Webhook/Alipay.antt =====
-- `AlipayWebhook` of internal/handler/webhook.go.
use go_pay.Prelude.{String, not, Option, none, some, ◌==◌, if◌then◌else◌}
use go_pay.Errors.{Result, ok, err}
use go_pay.Models.{Order}
use go_pay.Channel.{WebhookRequest, WebhookResponse}
use go_pay.World.{Env, M, pure, lift, attempt, ◌>>=◌, ◌>>◌}
use go_pay.Webhook.{WebhookReply, raw, text, panicked, Handlers, Parsers, Request}
use go_pay.Webhook.Parse.{
  parse_out_trade_no_from_alipay, parse_app_id_from_alipay, find_order_by_out_trade_no,
  find_order_by_app_and_out_trade_no,
}
use go_pay.Webhook.Settle.{settle}

module _ (env : Env) where
  unfoldable pub answer_alipay : Result (Order × Option WebhookResponse) → M WebhookReply
  answer_alipay (err e) = pure (text 200 "failure")
  answer_alipay (ok (o, none)) = pure panicked
  answer_alipay (ok (o, some resp)) =
      if not resp.success
      then pure (raw 200 "text/plain" resp.response_body)
      else (do settle env o resp; pure (raw 200 "text/plain" resp.response_body))

module _ (env : Env) (h : Handlers) (parsers : Parsers) where
  -- By `app_id` and number where the body has an `app_id`, and else by the number alone.
  unfoldable pub find_alipay_order : String → String → M Order
  find_alipay_order body out_trade_no = elim (parse_app_id_from_alipay parsers body) [
    | err e ↦ find_order_by_out_trade_no env h out_trade_no
    | ok app_id ↦
        if not (app_id == "")
        then find_order_by_app_and_out_trade_no env h app_id out_trade_no
        else find_order_by_out_trade_no env h out_trade_no
  ]

  -- The steps at whose errors the handler answers "failure".
  unfoldable pub resolve_alipay_webhook : WebhookRequest → M (Order × Option WebhookResponse)
  unfolding find_alipay_order
  resolve_alipay_webhook req = do
    out_trade_no ← lift (parse_out_trade_no_from_alipay parsers req.raw_body)
    o ← find_alipay_order req.raw_body out_trade_no
    provider ← lift (h.get_provider o.app_id o.channel)
    resp ← lift (provider.handle_webhook req)
    pure (o, resp)

  unfoldable pub alipay_webhook : Request → M WebhookReply
  unfolding answer_alipay resolve_alipay_webhook
  alipay_webhook r = elim r.body [
    | err e ↦ pure (text 200 "failure")
    | ok body ↦ do
      resolved ← attempt (resolve_alipay_webhook (record { raw_body = body; headers = r.headers }))
      answer_alipay env resolved
  ]
