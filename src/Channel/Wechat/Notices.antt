-- ===== src/Channel/Wechat/Notices.antt =====
-- `HandleWebhook` of WeChat's providers: provider.go and webhook_handler.go of pkg/channel/wechat.
use go_pay.Prelude.{String, true, false, none, some, ◌==◌, if◌then◌else◌, contains}
use go_pay.Prelude.Int.{pos}
use go_pay.Errors.{Result, ok, err}
use go_pay.Webhook.Parse.{get}
use go_pay.Channel.{WebhookRequest, WebhookResponse, PaymentChannel, nonnil}
use go_pay.Channel.ChannelStatus
use go_pay.Channel.Wechat.{Provider, given, refund, query_refund}
use go_pay.Channel.Wechat.Prepay.{Service, create_order}
use go_pay.Channel.Wechat.Types.{Sdk, Transaction, RefundNotice, NotifyRequest}

unfoldable pub map_trade_state : String → String
map_trade_state state =
    if state == "SUCCESS"
    then ChannelStatus.paid
    else if state == "REFUND"
    then ChannelStatus.refund
    else if state == "NOTPAY"
    then ChannelStatus.pending
    else if state == "CLOSED"
    then ChannelStatus.closed
    else if state == "REVOKED"
    then ChannelStatus.closed
    else if state == "USERPAYING"
    then ChannelStatus.pending
    else if state == "PAYERROR"
    then ChannelStatus.closed
    else ChannelStatus.pending

abbrev blank : WebhookResponse
blank = record {
  success = true;
  order_id = "";
  platform_trade_no = "";
  refund_no = "";
  platform_refund_no = "";
  status = "";
  paid_amount = pos 0;
  paid_at = 0;
  response_body = "{\"code\":\"SUCCESS\",\"message\":\"成功\"}";
}

abbrev rejected : String → WebhookResponse
rejected response_body = record blank { success = false; response_body = response_body }

abbrev pub unverified : WebhookResponse
unverified = rejected "{\"code\":\"FAIL\",\"message\":\"签名验证失败\"}"

abbrev notify_request : WebhookRequest → NotifyRequest
notify_request req = record {
  body = req.raw_body;
  timestamp = get "Wechatpay-Timestamp" req.headers;
  nonce = get "Wechatpay-Nonce" req.headers;
  signature = get "Wechatpay-Signature" req.headers;
  serial = get "Wechatpay-Serial" req.headers;
}

abbrev refund_notice : RefundNotice → WebhookResponse
refund_notice n = record blank {
  platform_trade_no = given n.out_trade_no "";
  status = ChannelStatus.refund;
  paid_at = given n.success_time (given n.create_time 0);
  paid_amount = given n.refund (pos 0);
}

module _ (sdk : Sdk) where
  abbrev payment_notice : Transaction → WebhookResponse
  payment_notice t = record blank {
    platform_trade_no = t.out_trade_no;
    status = map_trade_state t.trade_state;
    paid_amount = t.total;
    paid_at = elim t.success_time [ none ↦ 0 | some time ↦ sdk.parse_time time ];
  }

  -- `HandleWebhook` of `WebhookHandler`, which never returns an error.
  unfoldable pub handle_notice : String → WebhookRequest → WebhookResponse
  unfolding map_trade_state
  handle_notice handler req = elim (sdk.new_request req.raw_body) [
    | err e ↦ rejected "{\"code\":\"FAIL\",\"message\":\"请求构建失败\"}"
    | ok _ ↦ elim (sdk.unmarshal_event_type req.raw_body) [
      | err e ↦ unverified
      | ok event_type ↦
          if contains (sdk.upper event_type) "REFUND"
          then elim (sdk.parse_refund handler (notify_request req)) [
            | err e ↦ unverified
            | ok n ↦ refund_notice n
          ]
          else elim (sdk.parse_transaction handler (notify_request req)) [
            | err e ↦ unverified
            | ok t ↦ payment_notice t
          ]
    ]
  ]

  unfoldable pub handle_webhook : Provider → WebhookRequest → Result WebhookResponse
  unfolding handle_notice
  handle_webhook p req = elim (sdk.new_notify_handler p.mch_id p.api_v3_key) [
    | err e ↦ err e
    | ok handler ↦ ok (handle_notice handler req)
  ]

  -- A WeChat provider as a `PaymentChannel`.
  abbrev pub channel_of : Service → Provider → PaymentChannel
  channel_of service p = record {
    create_order = create_order sdk service p;
    handle_webhook = λ req. nonnil (handle_webhook p req);
    refund_provider =
        some
          (record { refund = λ req. nonnil (refund sdk p req); query_refund = query_refund sdk p });
    scoped_app_id = some p.app_id;
  }
