-- ===== src/Channel/Stripe.antt =====
-- pkg/channel/stripe/provider.go: `NewProvider` and the methods of `Provider`. What the package
-- stripe-go, encoding/json and HMAC give is in `Sdk`. The requests are never nil where the services
-- make them. An event that can be read has its `data`, as Stripe documents.
pub mod Signature
pub mod Verified
use go_pay.Prelude.{
  ℕ, String, Bool, true, not, ◌||◌, Option, none, some, List, [], ◌∷◌, ◌==◌, if◌then◌else◌, concat,
}
use go_pay.Prelude.Int.{ℤ, pos, negsuc, ltb_ℤ}
use go_pay.Errors.{GoError, wrap, plain, Result, ok, err}
use go_pay.Webhook.Parse.{get}
use go_pay.Channel.{
  CreateOrderRequest, CreateOrderResponse, QueryOrderRequest, QueryOrderResponse, WebhookRequest,
  WebhookResponse, RefundRequest, RefundResponse, PaymentChannel, or_else, nonnil,
}
use go_pay.Channel.ChannelStatus
use go_pay.Channel.RefundStatus
use go_pay.Channel.Stripe.Signature.{verify_webhook_signature}

pub record Config : Type 0 where
  pub secret_key : String
  pub webhook_secret : String
  pub currency : String
  pub success_url : String
  pub cancel_url : String

-- The client is its key.
pub record Provider : Type 0 where
  pub client : String
  pub webhook_secret : String
  pub currency : String
  pub success_url : String
  pub cancel_url : String

-- The parts of `stripe.CheckoutSession` that the code reads; `payment_intent` may be nil.
pub record Session : Type 0 where
  pub id : String
  pub url : String
  pub payment_status : String
  pub amount_total : ℤ
  pub metadata : List (String × String)
  pub payment_intent : Option String

-- `CheckoutSessionCreateParams`: one line item of quantity 1.
pub record SessionParams : Type 0 where
  pub mode : String
  pub currency : String
  pub name : String
  pub description : String
  pub unit_amount : ℤ
  pub quantity : ℕ
  pub success_url : String
  pub cancel_url : String
  pub metadata : List (String × String)

pub record RefundParams : Type 0 where
  pub payment_intent : String
  pub amount : ℤ
  pub reason : Option String

pub record StripeRefund : Type 0 where
  pub id : String
  pub status : String
  pub amount : ℤ

-- `stripe.Event`, with the text of its `data`.
pub record Event : Type 0 where
  pub kind : String
  pub raw : String

-- The data of a charge as a map: its `id`, where that is a text, and the `order_id` in its
-- `metadata`, where these are an object and a text.
pub record Charge : Type 0 where
  pub id : Option String
  pub order_id : Option String

-- `hmac key text` is HMAC-SHA256 in hexadecimal digits. The other fields are `json.Unmarshal` and
-- the client's requests, each by the client's key.
pub record Sdk : Type 0 where
  pub hmac : String → String → String
  pub unmarshal_event : String → Result Event
  pub unmarshal_session : String → Result Session
  pub unmarshal_charge : String → Result Charge
  pub create_session : String → SessionParams → Result Session
  pub retrieve_session : String → String → Result Session
  pub create_refund : String → RefundParams → Result StripeRefund
  pub retrieve_refund : String → String → Result StripeRefund

unfoldable pub new_provider : Config → Result Provider
new_provider cfg =
    if cfg.secret_key == ""
    then err (plain "stripe secret_key is required")
    else if cfg.webhook_secret == ""
    then err (plain "stripe webhook_secret is required")
    else ok (record {
      client = cfg.secret_key;
      webhook_secret = cfg.webhook_secret;
      currency = or_else cfg.currency "usd";
      success_url =
          or_else cfg.success_url "https://example.com/success?session_id={CHECKOUT_SESSION_ID}";
      cancel_url = or_else cfg.cancel_url "https://example.com/cancel";
    })

unfoldable pub map_checkout_status : String → String
map_checkout_status status =
    if status == "paid"
    then ChannelStatus.paid
    else if status == "unpaid"
    then ChannelStatus.pending
    else if status == "no_payment_required"
    then ChannelStatus.paid
    else ChannelStatus.pending

unfoldable pub map_refund_status : String → String
map_refund_status status =
    if status == "succeeded"
    then RefundStatus.success
    else if status == "pending"
    then RefundStatus.processing
    else if status == "failed"
    then RefundStatus.failed
    else RefundStatus.pending

abbrev acknowledged : WebhookResponse
acknowledged = record {
  success = true;
  order_id = "";
  platform_trade_no = "";
  refund_no = "";
  platform_refund_no = "";
  status = "";
  paid_amount = pos 0;
  paid_at = 0;
  response_body = "{\"received\": true}";
}

abbrev text_or_empty : Option String → String
text_or_empty none = ""
text_or_empty (some s) = s

abbrev session_params : Provider → CreateOrderRequest → SessionParams
session_params p req = record {
  mode = "payment";
  currency = p.currency;
  name = req.subject;
  description = req.description;
  unit_amount = req.amount;
  quantity = 1;
  success_url = p.success_url;
  cancel_url = p.cancel_url;
  metadata = ("order_id", req.order_id) ∷ ("biz_order_no", req.biz_order_no) ∷ [];
}

abbrev refund_params : RefundRequest → String → RefundParams
refund_params req intent = record {
  payment_intent = intent;
  amount = req.amount;
  reason = if req.reason == "" then none else some "requested_by_customer";
}

module _ (sdk : Sdk) where
  unfoldable pub create_order : Provider → CreateOrderRequest → Result CreateOrderResponse
  create_order p req = elim (sdk.create_session p.client (session_params p req)) [
    | err e ↦ err (wrap "stripe create checkout session failed" e)
    | ok session ↦ ok (record {
      platform_trade_no = session.id;
      pay_url = session.url;
      qr_code = "";
      prepay_id = "";
      extra_data = [];
    })
  ]

  unfoldable pub query_order : Provider → QueryOrderRequest → Result QueryOrderResponse
  unfolding map_checkout_status
  query_order p req =
      if req.platform_trade_no == ""
      then err (plain "platform_trade_no is required")
      else elim (sdk.retrieve_session p.client req.platform_trade_no) [
        | err e ↦ err (wrap "stripe retrieve session failed" e)
        | ok session ↦ ok (record {
          status = map_checkout_status session.payment_status;
          platform_trade_no = session.id;
          paid_amount = if ltb_ℤ (pos 0) session.amount_total then session.amount_total else pos 0;
          paid_at = none;
          extra_data = [];
        })
      ]

  unfoldable pub handle_checkout_completed : ℕ → Event → Result WebhookResponse
  handle_checkout_completed now event = elim (sdk.unmarshal_session event.raw) [
    | err e ↦ err (wrap "failed to parse checkout session" e)
    | ok session ↦ ok (record acknowledged {
      order_id = get "order_id" session.metadata;
      platform_trade_no = session.id;
      status = ChannelStatus.paid;
      paid_amount = session.amount_total;
      paid_at = now;
    })
  ]

  unfoldable pub handle_charge_refunded : Event → Result WebhookResponse
  handle_charge_refunded event = elim (sdk.unmarshal_charge event.raw) [
    | err e ↦ err (wrap "failed to parse charge data" e)
    | ok charge ↦ ok (record acknowledged {
      order_id = text_or_empty charge.order_id;
      platform_trade_no = text_or_empty charge.id;
      status = ChannelStatus.refund;
    })
  ]

  unfoldable pub handle_event : ℕ → Event → Result WebhookResponse
  unfolding handle_checkout_completed handle_charge_refunded
  handle_event now event =
      if event.kind == "checkout.session.completed"
      then handle_checkout_completed now event
      else if event.kind == "charge.refunded"
      then handle_charge_refunded event
      else ok acknowledged

  -- `now` is the clock when the signature is checked, `now'` when the response is made.
  unfoldable pub handle_webhook : ℕ → ℕ → Provider → WebhookRequest → Result WebhookResponse
  unfolding handle_event
  handle_webhook now now' p req =
      let header = get "Stripe-Signature" req.headers in
      if req.raw_body == ""
      then err (plain "webhook request body is required")
      else if header == ""
      then err (plain "missing Stripe-Signature header")
      else elim (verify_webhook_signature sdk.hmac now req.raw_body header p.webhook_secret) [
        | err e ↦ err (wrap "webhook signature verification failed" e)
        | ok _ ↦ elim (sdk.unmarshal_event req.raw_body) [
          | err e ↦ err (wrap "failed to parse webhook event" e)
          | ok event ↦ handle_event now' event
        ]
      ]

  abbrev refund_intent : Provider → RefundRequest → String → Result RefundResponse
  refund_intent p req intent = elim (sdk.create_refund p.client (refund_params req intent)) [
    | err e ↦ err (wrap "stripe create refund failed" e)
    | ok r ↦ ok (record {
      refund_no = req.refund_no;
      platform_trade_no = intent;
      platform_refund_no = r.id;
      status = map_refund_status r.status;
      amount = r.amount;
      refunded_at = none;
      extra_data = [];
    })
  ]

  unfoldable pub refund : Provider → RefundRequest → Result RefundResponse
  unfolding map_refund_status
  refund p req = elim (sdk.retrieve_session p.client req.platform_no) [
    | err e ↦ err (wrap "stripe retrieve session for refund failed" e)
    | ok session ↦ elim session.payment_intent [
      | none ↦ err (plain (concat ("no payment intent found for session " ∷ req.platform_no ∷ [])))
      | some intent ↦ refund_intent p req intent
    ]
  ]

  unfoldable pub query_refund : Provider → RefundRequest → Result RefundResponse
  unfolding map_refund_status
  query_refund p req =
      if req.refund_no == ""
      then err (plain "refund_no is required")
      else elim (sdk.retrieve_refund p.client req.refund_no) [
        | err e ↦ err (wrap "stripe retrieve refund failed" e)
        | ok r ↦ ok (record {
          refund_no = req.refund_no;
          platform_trade_no = "";
          platform_refund_no = r.id;
          status = map_refund_status r.status;
          amount = r.amount;
          refunded_at = none;
          extra_data = [];
        })
      ]

  -- The provider as a `PaymentChannel`, by the two readings of the clock.
  abbrev pub channel_of : ℕ → ℕ → Provider → PaymentChannel
  channel_of now now' p = record {
    create_order = create_order p;
    handle_webhook = λ req. nonnil (handle_webhook now now' p req);
    refund_provider =
        some (record { refund = λ req. nonnil (refund p req); query_refund = query_refund p });
    scoped_app_id = none;
  }
