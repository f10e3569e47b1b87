-- ===== src/Channel/Wechat/Prepay.antt =====
-- `CreateOrder` of the four WeChat providers (provider.go, app.go, h5.go and jsapi.go of
-- pkg/channel/wechat).
use go_pay.Prelude.{ℕ, String, not, Option, none, some, [], ◌∷◌, ◌==◌, if◌then◌else◌, eqb}
use go_pay.Errors.{wrap, plain, Result, ok, err}
use go_pay.Webhook.Parse.{get}
use go_pay.Channel.{CreateOrderRequest, CreateOrderResponse, or_else}
use go_pay.Channel.Wechat.{Provider, status_error}
use go_pay.Channel.Wechat.Types.{Sdk, PrepayRequest, Prepaid}

-- `firstNonEmpty(req.ExtraData["app_id"], p.appID)`
abbrev pub app_id_of : Provider → CreateOrderRequest → String
app_id_of p req = let own = get "app_id" req.extra_data in if own == "" then p.app_id else own

-- What the four requests share.
abbrev pub prepay_request : Provider → CreateOrderRequest → PrepayRequest
prepay_request p req = record {
  app_id = app_id_of p req;
  mch_id = p.mch_id;
  description = req.subject;
  out_trade_no = req.biz_order_no;
  notify_url = req.notify_url;
  total = req.amount;
  currency = "CNY";
  openid = none;
  client_ip = none;
  h5_type = none;
  device_id = none;
}

abbrev nonempty : String → Option String
nonempty s = if s == "" then none else some s

abbrev prepaid_response : CreateOrderRequest → CreateOrderResponse
prepaid_response req = record {
  platform_trade_no = req.biz_order_no;
  pay_url = "";
  qr_code = "";
  prepay_id = "";
  extra_data = [];
}

-- The error and the status of a request, which all four check in the same way.
abbrev pub answered :
    String → Result (ℕ × Prepaid) → (Prepaid → CreateOrderResponse) → Result CreateOrderResponse
answered prefix (err e) f = err (wrap prefix e)
answered prefix (ok (code, resp)) f =
    if not (eqb code 200) then status_error prefix code else ok (f resp)

abbrev pub native_response : CreateOrderRequest → Prepaid → CreateOrderResponse
native_response req resp = record (prepaid_response req) {
  pay_url = resp.code_url;
  qr_code = resp.code_url;
}

abbrev pub app_request : Provider → CreateOrderRequest → PrepayRequest
app_request p req = record (prepay_request p req) {
  device_id = nonempty (get "device_id" req.extra_data);
}

abbrev pub app_response : CreateOrderRequest → Prepaid → CreateOrderResponse
app_response req resp = record (prepaid_response req) {
  prepay_id = resp.prepay_id;
  extra_data =
      ("prepay_id", resp.prepay_id)
      ∷ ("partner_id", resp.partner_id)
      ∷ ("package", resp.package_text)
      ∷ ("timestamp", resp.timestamp)
      ∷ ("nonce_str", resp.nonce_str)
      ∷ ("sign", resp.sign)
      ∷ [];
}

abbrev pub h5_request : Provider → CreateOrderRequest → PrepayRequest
h5_request p req = record (prepay_request p req) {
  client_ip = some (or_else (get "client_ip" req.extra_data) "127.0.0.1");
  h5_type = some (or_else (get "h5_type" req.extra_data) "Wap");
}

abbrev pub h5_response : CreateOrderRequest → Prepaid → CreateOrderResponse
h5_response req resp = record (prepaid_response req) {
  pay_url = resp.h5_url;
  extra_data = ("h5_url", resp.h5_url) ∷ [];
}

abbrev pub jsapi_request : Provider → CreateOrderRequest → PrepayRequest
jsapi_request p req = record (prepay_request p req) { openid = some (get "openid" req.extra_data) }

abbrev pub jsapi_response : CreateOrderRequest → Prepaid → CreateOrderResponse
jsapi_response req resp = record (prepaid_response req) {
  prepay_id = resp.prepay_id;
  extra_data =
      ("prepay_id", resp.prepay_id)
      ∷ ("timestamp", resp.timestamp)
      ∷ ("nonce_str", resp.nonce_str)
      ∷ ("package", resp.package_text)
      ∷ ("sign_type", resp.sign_type)
      ∷ ("pay_sign", resp.pay_sign)
      ∷ [];
}

module _ (sdk : Sdk) where
  unfoldable pub create_native : Provider → CreateOrderRequest → Result CreateOrderResponse
  create_native p req =
      answered "wechat prepay failed" (sdk.prepay_native p.client (prepay_request p req))
        (native_response req)

  unfoldable pub create_app : Provider → CreateOrderRequest → Result CreateOrderResponse
  create_app p req =
      if app_id_of p req == ""
      then err (plain "app_id is required for APP payment")
      else answered "wechat APP prepay failed" (sdk.prepay_app p.client (app_request p req))
          (app_response req)

  unfoldable pub create_h5 : Provider → CreateOrderRequest → Result CreateOrderResponse
  create_h5 p req =
      if app_id_of p req == ""
      then err (plain "app_id is required for H5 payment")
      else answered "wechat H5 prepay failed" (sdk.prepay_h5 p.client (h5_request p req))
          (h5_response req)

  unfoldable pub create_jsapi : Provider → CreateOrderRequest → Result CreateOrderResponse
  create_jsapi p req =
      if get "openid" req.extra_data == ""
      then err (plain "openid is required for JSAPI payment")
      else if app_id_of p req == ""
      then err (plain "app_id is required for JSAPI payment")
      else answered "wechat JSAPI prepay failed" (sdk.prepay_jsapi p.client (jsapi_request p req))
          (jsapi_response req)

-- Which of the four types of provider it is.
pub data Service : Type 0 where
  native app h5 jsapi : Service

unfoldable pub create_order :
    Sdk → Service → Provider → CreateOrderRequest → Result CreateOrderResponse
unfolding create_native create_app create_h5 create_jsapi
create_order sdk Service.native = create_native sdk
create_order sdk Service.app = create_app sdk
create_order sdk Service.h5 = create_h5 sdk
create_order sdk Service.jsapi = create_jsapi sdk
