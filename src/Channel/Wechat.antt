-- ===== src/Channel/Wechat.antt =====
-- pkg/channel/wechat: `NewProvider` and the methods of `Provider` (provider.go). `Prepay` creates
-- orders, for `Provider` and the three providers that hold one (app.go, h5.go, jsapi.go), and
-- `Notices` reads webhooks (webhook_handler.go). What WeChat's SDK, crypto/x509, encoding/json and
-- time give is in `Sdk`; a field that WeChat documents as always there is no pointer. The requests
-- are never nil where the services make them.
pub mod Types
pub mod Prepay
pub mod Notices
pub mod Requests
pub mod Scoped
use go_pay.Prelude.{
  ℕ, String, Bool, true, not, ◌&&◌, ◌||◌, Option, none, some, List, [], ◌∷◌, ◌==◌, if◌then◌else◌,
  concat, eqb, leb,
}
use go_pay.Prelude.Int.{ℤ, pos, ltb_ℤ}
use go_pay.Prelude.Text.{show_ℤ}
use go_pay.Errors.{GoError, wrap, plain, Result, ok, err}
use go_pay.Middleware.Signature.{parse_int}
use go_pay.Webhook.Parse.{get}
use go_pay.Channel.{
  CreateOrderRequest, CreateOrderResponse, QueryOrderRequest, QueryOrderResponse, WebhookRequest,
  WebhookResponse, RefundRequest, RefundResponse, PaymentChannel,
}
use go_pay.Channel.ChannelStatus
use go_pay.Channel.RefundStatus
use go_pay.Channel.Wechat.Types.{Sdk, RefundCreate, WechatRefund, Transaction}

pub record Config : Type 0 where
  pub app_id : String
  pub mch_id : String
  pub serial_no : String
  pub api_v3_key : String
  pub private_key : String
  pub private_key_path : String

-- The services hold nothing but the client.
pub record Provider : Type 0 where
  pub app_id : String
  pub mch_id : String
  pub serial_no : String
  pub api_v3_key : String
  pub private_key : String
  pub client : String

-- `if p != nil { x = *p }`
abbrev pub given : {A : Type 0} → Option A → A → A
given none x = x
given (some v) x = v

unfoldable pub convert_trade_state : String → String
convert_trade_state state =
    if state == "SUCCESS"
    then ChannelStatus.paid
    else if state == "NOTPAY"
    then ChannelStatus.pending
    else if state == "CLOSED"
    then ChannelStatus.closed
    else if state == "REVOKED"
    then ChannelStatus.closed
    else if state == "USERPAYING"
    then ChannelStatus.pending
    else if state == "PAYERROR"
    then ChannelStatus.closed
    else if state == "REFUND"
    then ChannelStatus.refund
    else ChannelStatus.pending

unfoldable pub convert_refund_status : String → String
convert_refund_status status =
    if status == "SUCCESS"
    then RefundStatus.success
    else if status == "PROCESSING"
    then RefundStatus.processing
    else if status == "CLOSED"
    then RefundStatus.failed
    else if status == "ABNORMAL"
    then RefundStatus.failed
    else RefundStatus.pending

-- `status=%d`
abbrev pub status_error : {A : Type 0} → String → ℕ → Result A
status_error prefix code = err (plain (concat (prefix ∷ ": status=" ∷ show_ℤ (pos code) ∷ [])))

-- The total of the order, where the request names one that is positive, and else the refund.
unfoldable pub refund_total : RefundRequest → ℤ
refund_total req = elim (parse_int (get "total_amount" req.extra_data)) [
  | none ↦ req.amount
  | some parsed ↦ if ltb_ℤ (pos 0) parsed then parsed else req.amount
]

unfoldable pub refund_create : RefundRequest → RefundCreate
unfolding refund_total
refund_create req = record {
  out_trade_no = req.platform_no;
  out_refund_no = req.refund_no;
  reason = req.reason;
  refund = req.amount;
  total = refund_total req;
  currency = "CNY";
  notify_url = if req.notify_url == "" then none else some req.notify_url;
}

abbrev status_of : Option String → String
status_of none = ""
status_of (some s) = convert_refund_status s

-- The response of a refund from `resp`, whose amount is `amount` where WeChat names none.
abbrev read_refund : RefundRequest → ℤ → WechatRefund → RefundResponse
read_refund req amount r = record {
  refund_no = given r.out_refund_no req.refund_no;
  platform_trade_no = given r.out_trade_no req.platform_no;
  platform_refund_no = given r.refund_id "";
  status = status_of r.status;
  amount = given r.refund amount;
  refunded_at = r.success_time;
  extra_data = [];
}

abbrev total_entry : Option ℤ → List (String × String)
total_entry none = []
total_entry (some t) = ("total", show_ℤ t) ∷ []

-- What is filled in before `resp` is read.
abbrev blank_refund : WechatRefund
blank_refund = record {
  refund_id = none;
  out_refund_no = none;
  out_trade_no = none;
  status = none;
  success_time = none;
  refund = none;
  total = none;
}

-- `result != nil && result.Response != nil && result.Response.StatusCode >= 400`
abbrev checked : {A : Type 0} → String → Option ℕ → Result A → Result A
checked prefix none next = next
checked prefix (some code) next = if leb 400 code then status_error prefix code else next

module _ (sdk : Sdk) where
  unfoldable pub load_private_key_from_config : Config → Result String
  load_private_key_from_config cfg =
      if not (cfg.private_key == "")
      then elim (sdk.pem_decode cfg.private_key) [
        | none ↦ err (plain "failed to decode private key PEM")
        | some block ↦ elim (sdk.parse_pkcs8 block) [
          | ok none ↦ err (plain "private key is not RSA")
          | ok (some key) ↦ ok key
          | err _ ↦ elim (sdk.parse_pkcs1 block) [
            | err e ↦ err (wrap "failed to parse private key" e)
            | ok key ↦ ok key
          ]
        ]
      ]
      else if not (cfg.private_key_path == "")
      then sdk.load_private_key cfg.private_key_path
      else err (plain "private_key or private_key_path is required")

  unfoldable pub new_provider : Config → Result Provider
  unfolding load_private_key_from_config
  new_provider cfg = elim (load_private_key_from_config cfg) [
    | err e ↦ err (wrap "failed to load private key" e)
    | ok key ↦ elim (sdk.new_client cfg.mch_id cfg.serial_no key cfg.api_v3_key) [
      | err e ↦ err (wrap "failed to create wechat pay client" e)
      | ok client ↦ ok (record {
        app_id = cfg.app_id;
        mch_id = cfg.mch_id;
        serial_no = cfg.serial_no;
        api_v3_key = cfg.api_v3_key;
        private_key = key;
        client = client;
      })
    ]
  ]

  abbrev query_response : Transaction → QueryOrderResponse
  query_response t = elim t.success_time [
    | none ↦ record {
      status = convert_trade_state t.trade_state;
      platform_trade_no = t.out_trade_no;
      paid_amount = pos 0;
      paid_at = none;
      extra_data = [];
    }
    | some time ↦
        let paid = (convert_trade_state t.trade_state == ChannelStatus.paid) in
        record {
          status = convert_trade_state t.trade_state;
          platform_trade_no = t.out_trade_no;
          paid_amount = if paid then given t.payer_total (pos 0) else pos 0;
          paid_at = if paid then some (sdk.parse_time time) else none;
          extra_data = [];
        }
  ]

  unfoldable pub query_order : Provider → QueryOrderRequest → Result QueryOrderResponse
  unfolding convert_trade_state
  query_order p req = elim (sdk.query_by_out_trade_no p.client p.mch_id req.platform_trade_no) [
    | err e ↦ err (wrap "wechat query order failed" e)
    | ok (code, t) ↦
        if not (eqb code 200)
        then status_error "wechat query order failed" code
        else ok (query_response t)
  ]

  unfoldable pub refund : Provider → RefundRequest → Result RefundResponse
  unfolding refund_create convert_refund_status
  refund p req = elim (sdk.create_refund p.client (refund_create req)) [
    | err e ↦ err (wrap "wechat refund failed" e)
    | ok (code, resp) ↦
        let r = given resp blank_refund in
        checked "wechat refund failed" code
          (ok (record (read_refund req req.amount r) { extra_data = total_entry r.total }))
  ]

  unfoldable pub query_refund : Provider → RefundRequest → Result RefundResponse
  unfolding convert_refund_status
  query_refund p req = elim (sdk.query_refund p.client req.refund_no) [
    | err e ↦ err (wrap "wechat refund query failed" e)
    | ok (code, resp) ↦
        checked "wechat refund query failed" code
          (ok (read_refund req (pos 0) (given resp blank_refund)))
  ]
