-- ===== src/Examples/Vendors.antt =====
-- Concrete webhooks and refunds with the providers of WeChat and Stripe.
use go_pay.Prelude.{◌≡◌, refl, String, none, some, List, [], ◌∷◌, arith}
use go_pay.Prelude.Int.{pos}
use go_pay.Errors.{ok, err, plain}
use go_pay.Channel.{CreateOrderResponse, PaymentChannel}
use go_pay.OrderService.{CreateOrderRequest}
use go_pay.OrderService.Create.{new_order, channel_request}
use go_pay.RefundService.{channel_refund}
use go_pay.Webhook.{Handlers, Parsers, Request}
use go_pay.Webhook.Parse.{parse_out_trade_no_from_wechat}
use go_pay.Webhook.Stripe.{stripe_webhook}
use go_pay.Webhook.Wechat.{wechat_webhook}
use go_pay.Channel.Stripe as Stripe
use go_pay.Channel.Stripe.{Session, StripeRefund}
use go_pay.Channel.Stripe.Verified as Verified
use go_pay.Channel.Stripe.Verified.{stripe_webhook-Accepted}
use go_pay.Channel.Wechat as Wechat
use go_pay.Channel.Wechat.Types as Types
use go_pay.Channel.Wechat.Types.{Prepaid, Transaction, WechatRefund, RefundNotice}
use go_pay.Channel.Wechat.Prepay.{Service, native, create_order, prepay_request}
use go_pay.Channel.Wechat.Requests.{refund-names_prepay}
use go_pay.Channel.Wechat.Scoped as Scoped
use go_pay.Channel.Wechat.Scoped.{channels, wechat_webhook-Scoped}
use go_pay.Examples.Shop.{env, world, setup}
use go_pay.Examples.Shop as Shop

abbrev session : Session
session = record {
  id = "cs_1";
  url = "https://checkout.example/cs_1";
  payment_status = "paid";
  amount_total = pos 500;
  metadata = ("order_id", "ORD_1") ∷ [];
  payment_intent = some "pi_1";
}

abbrev stripe_refund : StripeRefund
stripe_refund = record { id = "re_1"; status = "succeeded"; amount = pos 500 }

abbrev stripe_sdk : Stripe.Sdk
stripe_sdk = record {
  hmac = λ key text. key;
  unmarshal_event = λ text. ok (record { kind = "checkout.session.completed"; raw = text });
  unmarshal_session = λ text. ok session;
  unmarshal_charge = λ text. ok (record { id = some "ch_1"; order_id = some "ORD_1" });
  create_session = λ client params. ok session;
  retrieve_session = λ client id. ok session;
  create_refund = λ client params. ok stripe_refund;
  retrieve_refund = λ client id. ok stripe_refund;
}

abbrev stripe_provider : String → Stripe.Provider
stripe_provider secret = record {
  client = "sk";
  webhook_secret = secret;
  currency = "usd";
  success_url = "";
  cancel_url = "";
}

abbrev stripe_providers : List Stripe.Provider
stripe_providers = stripe_provider "whsec_1" ∷ stripe_provider "whsec_2" ∷ []

abbrev stripe_request : Request
stripe_request = record { body = ok "{}"; headers = ("Stripe-Signature", "t=1000,v1=whsec_2") ∷ [] }

abbrev handlers_of : List PaymentChannel → Handlers
handlers_of ps = record setup.handlers { list_providers = some (λ prefix. ok ps) }

abbrev stripe_handlers : Handlers
stripe_handlers = handlers_of (
    Stripe.channel_of stripe_sdk 1100 1100 (stripe_provider "whsec_1")
    ∷ Stripe.channel_of stripe_sdk 1100 1100 (stripe_provider "whsec_2")
    ∷ [])

stripe_webhook-Accepted_example :
    Verified.Outcome stripe_sdk 1100 1100 env stripe_providers
      (record { raw_body = "{}"; headers = stripe_request.headers })
      (world "pending")
      (stripe_webhook env stripe_handlers stripe_request (world "pending"))
stripe_webhook-Accepted_example =
    stripe_webhook-Accepted stripe_sdk 1100 1100 env stripe_providers stripe_handlers stripe_request
      (λ prefix. ok (
        Stripe.channel_of stripe_sdk 1100 1100 (stripe_provider "whsec_1")
        ∷ Stripe.channel_of stripe_sdk 1100 1100 (stripe_provider "whsec_2")
        ∷ []))
      "{}" (world "pending") (omega arith) refl refl refl

abbrev prepaid : Prepaid
prepaid = record {
  code_url = "weixin://1";
  h5_url = "";
  prepay_id = "";
  partner_id = "";
  package_text = "";
  timestamp = "";
  nonce_str = "";
  sign = "";
  sign_type = "";
  pay_sign = "";
}

abbrev transaction : Transaction
transaction = record {
  out_trade_no = "T1";
  trade_state = "SUCCESS";
  success_time = none;
  payer_total = none;
  total = pos 500;
}

abbrev refund_notice : RefundNotice
refund_notice = record {
  out_trade_no = some "T1";
  success_time = none;
  create_time = none;
  refund = none;
}

abbrev wechat_sdk : Types.Sdk
wechat_sdk = record {
  pem_decode = λ text. some text;
  parse_pkcs8 = λ block. ok (some block);
  parse_pkcs1 = λ block. ok block;
  load_private_key = λ path. ok path;
  new_client = λ mch_id serial key api_v3_key. ok mch_id;
  prepay_native = λ client req. ok (200, prepaid);
  prepay_app = λ client req. ok (200, prepaid);
  prepay_h5 = λ client req. ok (200, prepaid);
  prepay_jsapi = λ client req. ok (200, prepaid);
  query_by_out_trade_no = λ client mch_id no. ok (200, transaction);
  create_refund = λ client req. ok (some 200, none);
  query_refund = λ client no. ok (some 200, none);
  new_notify_handler = λ mch_id key. ok key;
  new_request = λ body. ok tt;
  unmarshal_event_type = λ body. ok "TRANSACTION.SUCCESS";
  parse_refund = λ handler req. ok refund_notice;
  parse_transaction = λ handler req. ok transaction;
  parse_time = λ time. 0;
  upper = λ text. text;
}

abbrev wechat_provider : Wechat.Provider
wechat_provider = record {
  app_id = "shop";
  mch_id = "mch";
  serial_no = "1";
  api_v3_key = "key";
  private_key = "pk";
  client = "mch";
}

abbrev listed : List (Service × Wechat.Provider)
listed = (native, wechat_provider) ∷ []

abbrev wechat_request : Request
wechat_request = record { body = ok "{}"; headers = [] }

abbrev sealed_parsers : Parsers
sealed_parsers = record setup.parsers { unmarshal_any = λ body. err (plain "sealed") }

wechat_webhook-Scoped_example :
    Scoped.Outcome wechat_sdk env
      (handlers_of (channels wechat_sdk listed))
      sealed_parsers
      (record { raw_body = "{}"; headers = [] })
      listed
      (world "pending")
      (wechat_webhook env
        (handlers_of (channels wechat_sdk listed))
        sealed_parsers
        wechat_request
        (world "pending"))
unfolding parse_out_trade_no_from_wechat
wechat_webhook-Scoped_example =
    wechat_webhook-Scoped wechat_sdk env (handlers_of (channels wechat_sdk listed)) sealed_parsers
      wechat_request (λ prefix. ok (channels wechat_sdk listed)) "{}" (plain "sealed") listed
      (world "pending") refl refl refl refl (refl, tt)

abbrev tea : CreateOrderRequest
tea = record {
  app_id = "shop";
  out_trade_no = "T1";
  amount = pos 500;
  subject = "tea";
  body = "";
  channel = "wechat_native";
  notify_url = "";
  extra_data = [];
}

abbrev paid_by : CreateOrderResponse
paid_by = record {
  platform_trade_no = "T1";
  pay_url = "weixin://1";
  qr_code = "weixin://1";
  prepay_id = "";
  extra_data = [];
}

refund-names_prepay_example :
    let o = new_order env tea "ORD_1" paid_by 9 in
    let q = Wechat.refund_create (channel_refund o "REF_1" (pos 200) "") in
    let asked = prepay_request wechat_provider (channel_request env Shop.channels "" tea "ORD_1") in
    (q.out_trade_no ≡ asked.out_trade_no) × (q.total ≡ asked.total) × (q.refund ≡ pos 200)
unfolding create_order
refund-names_prepay_example =
    refund-names_prepay env Shop.channels "" wechat_sdk native wechat_provider tea "ORD_1" paid_by 9
      500 refl (omega arith) (omega arith) refl "REF_1" "" (pos 200)
