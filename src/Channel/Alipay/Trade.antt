-- ===== src/Channel/Alipay/Trade.antt =====
-- `CreateOrder` of the four Alipay providers (qr.go, wap.go, app.go and face.go of
-- pkg/channel/alipay).
use go_pay.Prelude.{String, some, [], ◌∷◌, ◌==◌, if◌then◌else◌}
use go_pay.Errors.{wrap, plain, Result, ok, err}
use go_pay.Webhook.Parse.{get}
use go_pay.Channel.{CreateOrderRequest, CreateOrderResponse, PaymentChannel, nonnil}
use go_pay.Channel.Alipay.{Provider, answered, handle_webhook, refund, query_refund}
use go_pay.Channel.Alipay.Types.{Sdk, Trade}

pub data Service : Type 0 where
  qr wap app face : Service

module _ (sdk : Sdk) where
  -- What the four requests share. The body is empty where the request describes nothing.
  abbrev trade : CreateOrderRequest → String → Trade
  trade req product_code = record {
    subject = req.subject;
    out_trade_no = req.biz_order_no;
    total_amount = sdk.format_amount req.amount;
    product_code = product_code;
    notify_url = req.notify_url;
    body = req.description;
    quit_url = "";
    return_url = "";
    auth_code = "";
    scene = "";
  }

  abbrev response : CreateOrderRequest → CreateOrderResponse
  response req = record {
    platform_trade_no = req.biz_order_no;
    pay_url = "";
    qr_code = "";
    prepay_id = "";
    extra_data = [];
  }

  unfoldable pub create_qr : Provider → CreateOrderRequest → Result CreateOrderResponse
  create_qr p req =
      answered "alipay QR precreate failed"
        (sdk.trade_precreate p.client (trade req "FACE_TO_FACE_PAYMENT"))
        λ resp. record (response req) {
          pay_url = resp.qr_code;
          qr_code = resp.qr_code;
          extra_data = ("qr_code", resp.qr_code) ∷ [];
        }

  unfoldable pub create_wap : Provider → CreateOrderRequest → Result CreateOrderResponse
  create_wap p req =
      let asked : Trade = record (trade req "QUICK_WAP_WAY") {
        quit_url = get "quit_url" req.extra_data;
        return_url = get "return_url" req.extra_data;
      } in
      elim (sdk.trade_wap_pay p.client asked) [
        | err e ↦ err (wrap "alipay Wap pay failed" e)
        | ok pay_url ↦
            ok (record (response req) { pay_url = pay_url; extra_data = ("pay_url", pay_url) ∷ [] })
      ]

  unfoldable pub create_app : Provider → CreateOrderRequest → Result CreateOrderResponse
  create_app p req = elim (sdk.trade_app_pay p.client (trade req "QUICK_MSECURITY_PAY")) [
    | err e ↦ err (wrap "alipay APP pay failed" e)
    | ok pay_param ↦ ok (record (response req) {
      prepay_id = req.biz_order_no;
      extra_data = ("order_string", pay_param) ∷ [];
    })
  ]

  unfoldable pub create_face : Provider → CreateOrderRequest → Result CreateOrderResponse
  create_face p req =
      let asked : Trade = record (trade req "FACE_TO_FACE_PAYMENT") {
        auth_code = get "auth_code" req.extra_data;
        scene = "bar_code";
      } in
      if get "auth_code" req.extra_data == ""
      then err (plain "auth_code is required for Face payment")
      else answered "alipay Face pay failed" (sdk.trade_pay p.client asked) λ resp.
        record (response req) {
          platform_trade_no = resp.trade_no;
          extra_data =
              ("trade_no", resp.trade_no)
              ∷ ("out_trade_no", resp.out_trade_no)
              ∷ ("total_amount", resp.total_amount)
              ∷ [];
        }

  unfoldable pub create_order : Service → Provider → CreateOrderRequest → Result CreateOrderResponse
  unfolding create_qr create_wap create_app create_face
  create_order Service.qr = create_qr
  create_order Service.wap = create_wap
  create_order Service.app = create_app
  create_order Service.face = create_face

  -- An Alipay provider as a `PaymentChannel`.
  abbrev pub channel_of : Service → Provider → PaymentChannel
  channel_of service p = record {
    create_order = create_order service p;
    handle_webhook = λ req. ok (some (handle_webhook sdk p req));
    refund_provider =
        some
          (record { refund = λ req. nonnil (refund sdk p req); query_refund = query_refund sdk p });
    scoped_app_id = some p.app_id;
  }
