-- ===== src/Facts/Webhooks.antt =====
-- internal/handler/webhook*.go: the facts of the orders (`OrderFact`) through the three webhooks.
use go_pay.Prelude.{
  String, Option, none, some, List, [], ◌∷◌, refl, inl, inr, ◌==◌, not, Option-cases,
}
use go_pay.Errors.{GoError, Result, ok, err, Result-cases}
use go_pay.Models.{Order}
use go_pay.Channel.{PaymentChannel, WebhookRequest, WebhookResponse}
use go_pay.World.{Env}
use go_pay.World.Keeps.{
  Keeps, Keeps-if, Keeps-raise, Keeps-lift, Keeps-pure, Keeps-bind, Keeps-attempt, keeps_rules,
}
use go_pay.Webhook.{Handlers, Parsers, Request}
use go_pay.Webhook.Parse.{
  find_order_by_out_trade_no, find_order_by_app_and_out_trade_no, parse_out_trade_no_from_wechat,
  parse_app_id_from_alipay,
}
use go_pay.Webhook.Settle.{time_of, settle_refund, settle}
use go_pay.Webhook.Wechat.{
  find_scoped, try_providers, resolve_wechat_webhook, answer_wechat, wechat_webhook,
}
use go_pay.Webhook.Alipay.{find_alipay_order, resolve_alipay_webhook, answer_alipay, alipay_webhook}
use go_pay.Webhook.Stripe.{first_success, answer_stripe, answer_listed, stripe_webhook}
use go_pay.Facts.{OrderFact}
use go_pay.Facts.Orders.{
  query_order-Keeps, query_order_by_out_trade_no-Keeps, query_order_by_out_trade_no_global-Keeps,
  update_order_status-Keeps,
}
use go_pay.Facts.Notify.{notify_async-Keeps, notify_refund_async-Keeps}

module _ (F : OrderFact) (env : Env) where
  time_of-Keeps : (resp : WebhookResponse) → Keeps F.kept (time_of env resp)
  unfolding time_of
  time_of-Keeps resp = search keeps_rules

  settle_refund-Keeps :
      (o : Order) (resp : WebhookResponse) → Keeps F.kept (settle_refund env o resp)
  unfolding settle_refund
  settle_refund-Keeps o resp =
      Keeps-if (resp.status == "REFUND")
        (Keeps-bind (time_of-Keeps resp) λ t.
          Keeps-bind
            (Keeps-attempt
              (update_order_status-Keeps F env o.order_no "refunded" (some t) _ (inr refl)))
            (elim [ ok a ↦ notify_refund_async-Keeps F env o resp | err e ↦ Keeps-pure tt ]))
        (Keeps-pure tt)

  pub settle-Keeps : (o : Order) (resp : WebhookResponse) → Keeps F.kept (settle env o resp)
  unfolding settle
  settle-Keeps o resp =
      Keeps-if (resp.status == "PAID")
        (Keeps-bind (time_of-Keeps resp) λ t.
          Keeps-bind
            (Keeps-attempt
              (update_order_status-Keeps F env o.order_no "paid" (some t) _ (inl refl)))
            (elim [
              | ok a ↦ Keeps-bind (notify_async-Keeps F env o) (λ _. settle_refund-Keeps o resp)
              | err e ↦ Keeps-pure tt
            ]))
        (settle_refund-Keeps o resp)

  module _ (h : Handlers) where
    find_order_by_out_trade_no-Keeps :
        (n : String) → Keeps F.kept (find_order_by_out_trade_no env h n)
    unfolding find_order_by_out_trade_no
    find_order_by_out_trade_no-Keeps n =
        search (keeps_rules, query_order_by_out_trade_no_global-Keeps)

    find_order_by_app_and_out_trade_no-Keeps :
        (a n : String) → Keeps F.kept (find_order_by_app_and_out_trade_no env h a n)
    unfolding find_order_by_app_and_out_trade_no
    find_order_by_app_and_out_trade_no-Keeps a n =
        search (keeps_rules, query_order_by_out_trade_no-Keeps)

    find_scoped-Keeps :
        (p : PaymentChannel) (resp : WebhookResponse) → Keeps F.kept (find_scoped env h p resp)
    unfolding find_scoped
    find_scoped-Keeps p resp = elim (Option-cases p.scoped_app_id) [
      | inl e ↦ rw (e, find_scoped) (find_order_by_out_trade_no-Keeps resp.platform_trade_no)
      | inr (a, e) ↦
          rw (e, find_scoped)
            (Keeps-if (a == "") (find_order_by_out_trade_no-Keeps resp.platform_trade_no)
              (find_order_by_app_and_out_trade_no-Keeps a resp.platform_trade_no))
    ]

    first_success-answer-Keeps :
        (resp : Option WebhookResponse) → Keeps F.kept (answer_stripe env resp)
    unfolding answer_stripe
    first_success-answer-Keeps none = Keeps-pure _
    first_success-answer-Keeps (some resp) = Keeps-if (resp.order_id == "") (Keeps-pure _) (
        Keeps-bind (Keeps-attempt (query_order-Keeps F env resp.order_id)) (elim [
          | ok o ↦ Keeps-bind (settle-Keeps o resp) (λ _. Keeps-pure _)
          | err e ↦ Keeps-pure _
        ]))

    answer_listed-Keeps :
        (ps : Result (List PaymentChannel)) (req : WebhookRequest)
        → Keeps F.kept (answer_listed env ps req)
    answer_listed-Keeps (err e) req = Keeps-pure _
    answer_listed-Keeps (ok []) req = Keeps-pure _
    answer_listed-Keeps (ok (p ∷ ps)) req = first_success-answer-Keeps (first_success (p ∷ ps) req)

    pub stripe_webhook-Keeps : (r : Request) → Keeps F.kept (stripe_webhook env h r)
    unfolding stripe_webhook
    stripe_webhook-Keeps r = elim (Result-cases r.body) [
      | inl (e, b) ↦ rw (b, stripe_webhook) (Keeps-pure _)
      | inr (body, b) ↦ elim (Option-cases h.list_providers) [
        | inl l ↦ rw (b, l, stripe_webhook) (Keeps-pure _)
        | inr (list, l) ↦ rw (b, l, stripe_webhook) (answer_listed-Keeps (list "stripe") _)
      ]
    ]

    try_providers-Keeps :
        (ps : List PaymentChannel) (req : WebhookRequest) (last : Option GoError) (e : GoError)
        → Keeps F.kept (try_providers env h ps req last e)
    unfolding try_providers
    try_providers-Keeps [] req last e = Keeps-raise _
    try_providers-Keeps (p ∷ ps) req last e = elim (Result-cases (p.handle_webhook req)) [
      | inl (x, a) ↦ rw (a, try_providers) (try_providers-Keeps ps req (some x) e)
      | inr (none, a) ↦ rw (a, try_providers) (try_providers-Keeps ps req last e)
      | inr (some resp, a) ↦
          rw (a, try_providers)
            (Keeps-if (not resp.success) (try_providers-Keeps ps req last e) (
              Keeps-if (resp.platform_trade_no == "") (try_providers-Keeps ps req (some _) e) (
                Keeps-bind (Keeps-attempt (find_scoped-Keeps p resp))
                  (elim [ ok o ↦ Keeps-pure _ | err x ↦ try_providers-Keeps ps req (some x) e ]))))
    ]

    module _ (parsers : Parsers) where
      resolve_wechat_webhook-Keeps :
          (req : WebhookRequest) → Keeps F.kept (resolve_wechat_webhook env h parsers req)
      unfolding resolve_wechat_webhook
      resolve_wechat_webhook-Keeps req =
          elim (Result-cases (parse_out_trade_no_from_wechat parsers req.raw_body)) [
            | inr (n, a) ↦
                rw (a, resolve_wechat_webhook)
                  (search (keeps_rules, find_order_by_out_trade_no-Keeps) depth 10)
            | inl (e, a) ↦ elim (Option-cases h.list_providers) [
              | inl l ↦ rw (a, l, resolve_wechat_webhook) (Keeps-raise e)
              | inr (list, l) ↦
                  rw (a, l, resolve_wechat_webhook)
                    (Keeps-bind (Keeps-lift _) (λ ps. try_providers-Keeps ps req none e))
            ]
          ]

      answer_wechat-Keeps :
          (x : Result (Order × Option WebhookResponse)) → Keeps F.kept (answer_wechat env x)
      unfolding answer_wechat
      answer_wechat-Keeps (err e) = Keeps-pure _
      answer_wechat-Keeps (ok (o, none)) = Keeps-pure _
      answer_wechat-Keeps (ok (o, some resp)) = search (keeps_rules, settle-Keeps)

      pub wechat_webhook-Keeps : (r : Request) → Keeps F.kept (wechat_webhook env h parsers r)
      unfolding wechat_webhook
      wechat_webhook-Keeps r = elim (Result-cases r.body) [
        | inl (e, b) ↦ rw (b, wechat_webhook) (Keeps-pure _)
        | inr (body, b) ↦
            rw (b, wechat_webhook)
              (Keeps-bind (Keeps-attempt (resolve_wechat_webhook-Keeps _)) answer_wechat-Keeps)
      ]

      find_alipay_order-Keeps :
          (body n : String) → Keeps F.kept (find_alipay_order env h parsers body n)
      unfolding find_alipay_order
      find_alipay_order-Keeps body n = elim (Result-cases (parse_app_id_from_alipay parsers body)) [
        | inl (e, a) ↦ rw (a, find_alipay_order) (find_order_by_out_trade_no-Keeps n)
        | inr (id, a) ↦
            rw (a, find_alipay_order)
              (search (
                keeps_rules, find_order_by_out_trade_no-Keeps,
                find_order_by_app_and_out_trade_no-Keeps,
              ))
      ]

      resolve_alipay_webhook-Keeps :
          (req : WebhookRequest) → Keeps F.kept (resolve_alipay_webhook env h parsers req)
      unfolding resolve_alipay_webhook
      resolve_alipay_webhook-Keeps req = search (keeps_rules, find_alipay_order-Keeps) depth 12

      answer_alipay-Keeps :
          (x : Result (Order × Option WebhookResponse)) → Keeps F.kept (answer_alipay env x)
      unfolding answer_alipay
      answer_alipay-Keeps (err e) = Keeps-pure _
      answer_alipay-Keeps (ok (o, none)) = Keeps-pure _
      answer_alipay-Keeps (ok (o, some resp)) = search (keeps_rules, settle-Keeps)

      pub alipay_webhook-Keeps : (r : Request) → Keeps F.kept (alipay_webhook env h parsers r)
      unfolding alipay_webhook
      alipay_webhook-Keeps r = elim (Result-cases r.body) [
        | inl (e, b) ↦ rw (b, alipay_webhook) (Keeps-pure _)
        | inr (body, b) ↦
            rw (b, alipay_webhook)
              (Keeps-bind (Keeps-attempt (resolve_alipay_webhook-Keeps _)) answer_alipay-Keeps)
      ]
