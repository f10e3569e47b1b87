-- ===== src/Webhook/Stripe.antt =====
-- `StripeWebhook` of internal/handler/webhook_stripe.go.
use go_pay.Prelude.{Option, none, some, List, [], ◌∷◌, ◌==◌, if◌then◌else◌}
use go_pay.Errors.{Result, ok, err}
use go_pay.Channel.{PaymentChannel, WebhookRequest, WebhookResponse}
use go_pay.World.{Env, M, pure, attempt, ◌>>=◌, ◌>>◌}
use go_pay.OrderService.Queries.{query_order}
use go_pay.Webhook.{WebhookReply, rejected, received, Handlers, Request}
use go_pay.Webhook.Settle.{settle}

-- The loop over the providers: the first response that succeeds, if any. The source keeps the
-- last pair of results and tests it after the loop; only a successful one passes that test.
unfoldable pub first_success : List PaymentChannel → WebhookRequest → Option WebhookResponse
first_success [] req = none
first_success (p ∷ ps) req = elim (p.handle_webhook req) [
  | err e ↦ first_success ps req
  | ok none ↦ first_success ps req
  | ok (some resp) ↦ let rest = first_success ps req in if resp.success then some resp else rest
]

module _ (env : Env) where
  -- The handler from the response on.
  unfoldable pub answer_stripe : Option WebhookResponse → M WebhookReply
  answer_stripe none = pure (rejected 400 "webhook processing failed")
  answer_stripe (some resp) = if resp.order_id == "" then pure received else (do
    found ← attempt (query_order env resp.order_id)
    elim found [ err e ↦ pure received | ok o ↦ do settle env o resp; pure received ])

  abbrev pub answer_listed : Result (List PaymentChannel) → WebhookRequest → M WebhookReply
  answer_listed (err e) req = pure (rejected 500 "stripe not configured")
  answer_listed (ok []) req = pure (rejected 500 "stripe not configured")
  answer_listed (ok (p ∷ ps)) req = answer_stripe (first_success (p ∷ ps) req)

  unfoldable pub stripe_webhook : Handlers → Request → M WebhookReply
  unfolding answer_stripe
  stripe_webhook h r = elim r.body [
    | err e ↦ pure (rejected 400 "invalid request")
    | ok body ↦ elim h.list_providers [
      | none ↦ pure (rejected 500 "internal error")
      | some list ↦ answer_listed (list "stripe") (record { raw_body = body; headers = r.headers })
    ]
  ]
