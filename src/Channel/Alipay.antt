-- ===== src/Channel/Alipay.antt =====
-- pkg/channel/alipay: `NewProvider` and the methods of `Provider` (provider.go). `Trade` creates
-- orders (qr.go, wap.go, app.go, face.go). What the package alipay/v3, net/url, time and the
-- floating-point amounts give is in `Sdk`. The requests are never nil where the services make them.
pub mod Types
pub mod Trade
use go_pay.Prelude.{
  ℕ, String, Bool, true, false, not, Option, none, some, List, [], ◌∷◌, ◌++◌, ◌==◌, if◌then◌else◌,
  contains, concat,
}
use go_pay.Prelude.Int.{ℤ, pos}
use go_pay.Errors.{wrap, plain, Result, ok, err}
use go_pay.Webhook.Parse.{get}
use go_pay.Channel.{
  QueryOrderRequest, QueryOrderResponse, WebhookRequest, WebhookResponse, RefundRequest,
  RefundResponse, or_else,
}
use go_pay.Channel.ChannelStatus
use go_pay.Channel.RefundStatus
use go_pay.Channel.Alipay.Types.{Sdk, TradeResponse, TradeRefund, Notification}

pub record Config : Type 0 where
  pub app_id : String
  pub private_key : String
  pub alipay_public_key : String
  pub gateway : String
  pub is_production : Bool

pub record Provider : Type 0 where
  pub app_id : String
  pub private_key : String
  pub alipay_public_key : String
  pub is_production : Bool
  pub client : String

unfoldable pub convert_trade_status : String → String
convert_trade_status status =
    if status == "TRADE_SUCCESS"
    then ChannelStatus.paid
    else if status == "TRADE_FINISHED"
    then ChannelStatus.paid
    else if status == "WAIT_BUYER_PAY"
    then ChannelStatus.pending
    else if status == "TRADE_CLOSED"
    then ChannelStatus.closed
    else ChannelStatus.pending

-- `%s - %s` of the code and the message.
abbrev pub refused : {A : Type 0} → String → TradeResponse → Result A
refused prefix resp = err (plain (concat (prefix ∷ ": " ∷ resp.code ∷ " - " ∷ resp.msg ∷ [])))

-- The error of a request and its check, which all requests with a response share.
abbrev pub answered : {A : Type 0} → String → Result TradeResponse → (TradeResponse → A) → Result A
answered prefix (err e) f = err (wrap prefix e)
answered prefix (ok resp) f = if not resp.is_success then refused prefix resp else ok (f resp)

abbrev blank : WebhookResponse
blank = record {
  success = true;
  order_id = "";
  platform_trade_no = "";
  refund_no = "";
  platform_refund_no = "";
  status = "";
  paid_amount = pos 0;
  paid_at = 0;
  response_body = "success";
}

abbrev pub failure : WebhookResponse
failure = record blank { success = false; response_body = "failure" }

abbrev time_or_zero : Option ℕ → ℕ
time_or_zero none = 0
time_or_zero (some t) = t

unfoldable pub refund_query_status : String → String
refund_query_status status =
    if status == "REFUND_SUCCESS"
    then RefundStatus.success
    else if status == "REFUND_PROCESSING"
    then RefundStatus.processing
    else RefundStatus.pending

abbrev entry : String → String → List (String × String)
entry key value = if value == "" then [] else (key, value) ∷ []

-- `strings.Contains(cfg.Gateway, "openapi.alipay.com")`, where a gateway is set.
abbrev production : Config → Bool
production cfg =
    if cfg.gateway == "" then cfg.is_production else contains cfg.gateway "openapi.alipay.com"

abbrev gateway_of : Config → Option String
gateway_of cfg = if cfg.gateway == "" then none else some cfg.gateway

module _ (sdk : Sdk) where
  abbrev amount_or : ℤ → String → ℤ
  amount_or default text = if text == "" then default else sdk.parse_amount text

  abbrev time_of : String → Option ℕ
  time_of text = if text == "" then none else sdk.parse_time text

  unfoldable pub new_provider : Config → Result Provider
  new_provider cfg = elim (sdk.new cfg.app_id cfg.private_key (production cfg) (gateway_of cfg)) [
    | err e ↦ err (wrap "failed to create alipay client" e)
    | ok client ↦ elim (sdk.load_public_key client cfg.alipay_public_key) [
      | err e ↦ err (wrap "failed to load alipay public key" e)
      | ok _ ↦ ok (record {
        app_id = cfg.app_id;
        private_key = cfg.private_key;
        alipay_public_key = cfg.alipay_public_key;
        is_production = production cfg;
        client = client;
      })
    ]
  ]

  abbrev query_response : TradeResponse → QueryOrderResponse
  query_response resp =
      let paid = (convert_trade_status resp.trade_status == ChannelStatus.paid) in
      record {
        status = convert_trade_status resp.trade_status;
        platform_trade_no = resp.out_trade_no;
        paid_amount = if paid then amount_or (pos 0) resp.total_amount else pos 0;
        paid_at = if paid then time_of resp.send_pay_date else none;
        extra_data = [];
      }

  unfoldable pub query_order : Provider → QueryOrderRequest → Result QueryOrderResponse
  unfolding convert_trade_status
  query_order p req =
      answered "alipay query order failed" (sdk.trade_query p.client req.platform_trade_no)
        query_response

  -- A notice with a `refund_status`.
  abbrev refund_notice : List (String × String) → WebhookResponse
  refund_notice values = record blank {
    platform_trade_no = get "out_trade_no" values;
    status = ChannelStatus.refund;
    paid_amount = amount_or (pos 0) (get "refund_fee" values);
    paid_at = time_or_zero (time_of (get "gmt_refund_pay" values));
    platform_refund_no = get "out_request_no" values;
  }

  abbrev payment_notice : Notification → WebhookResponse
  payment_notice n =
      let paid = (convert_trade_status n.trade_status == ChannelStatus.paid) in
      record blank {
        platform_trade_no = n.out_trade_no;
        status = convert_trade_status n.trade_status;
        paid_amount = if paid then amount_or (pos 0) n.total_amount else pos 0;
        paid_at = if paid then time_or_zero (time_of n.gmt_payment) else 0;
      }

  -- `HandleWebhook`, which never returns an error.
  unfoldable pub handle_webhook : Provider → WebhookRequest → WebhookResponse
  unfolding convert_trade_status
  handle_webhook p req = elim (sdk.parse_query req.raw_body) [
    | err e ↦ failure
    | ok values ↦ elim (sdk.verify_sign p.client values) [
      | err e ↦ failure
      | ok _ ↦
          if not (get "refund_status" values == "")
          then refund_notice values
          else elim (sdk.decode_notification p.client values) [
            | err e ↦ failure
            | ok n ↦ payment_notice n
          ]
    ]
  ]

  unfoldable pub refund_request : RefundRequest → TradeRefund
  refund_request req = record {
    out_trade_no = req.platform_no;
    refund_amount = sdk.format_amount req.amount;
    refund_reason = req.reason;
    out_request_no = req.refund_no;
  }

  abbrev read_refund : RefundRequest → TradeResponse → RefundResponse
  read_refund req resp = record {
    refund_no = req.refund_no;
    platform_trade_no = or_else resp.out_trade_no req.platform_no;
    platform_refund_no = resp.trade_no;
    status = RefundStatus.processing;
    amount = amount_or req.amount resp.refund_fee;
    refunded_at = none;
    extra_data = [];
  }

  unfoldable pub refund : Provider → RefundRequest → Result RefundResponse
  unfolding refund_request
  refund p req =
      answered "alipay refund failed" (sdk.trade_refund p.client (refund_request req))
        (read_refund req)

  abbrev read_refund_query : RefundRequest → TradeResponse → RefundResponse
  read_refund_query req resp = record {
    refund_no = or_else resp.out_request_no req.refund_no;
    platform_trade_no = or_else resp.out_trade_no req.platform_no;
    platform_refund_no = resp.trade_no;
    status = refund_query_status resp.refund_status;
    amount = amount_or (pos 0) resp.refund_amount;
    refunded_at = none;
    extra_data = entry "send_back_fee" resp.send_back_fee ++ entry "total_amount" resp.total_amount;
  }

  unfoldable pub query_refund : Provider → RefundRequest → Result RefundResponse
  unfolding refund_query_status
  query_refund p req =
      answered "alipay refund query failed"
        (sdk.refund_query p.client req.platform_no req.refund_no) (read_refund_query req)
