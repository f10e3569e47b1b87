-- ===== src/Errors/Make.antt =====
-- The constructors of business errors in pkg/errors/errors.go.
use go_pay.Prelude.{String, [], ◌∷◌}
use go_pay.Prelude.Int.{ℤ}
use go_pay.Prelude.Text.{show_ℤ}
use go_pay.Errors.{Sentinel, Details, GoError, nil_error, sentinel, business, error_text}
use go_pay.Errors.{
  type_app_not_found, type_app_inactive, type_channel_not_found, type_channel_inactive,
  type_order_not_found, type_order_exists, type_order_paid, type_order_closed, type_invalid_amount,
  type_payment_failed, type_notify_failed, type_signature_invalid, type_invalid_request,
  type_invalid_channel,
}

abbrev pub new_app_not_found : String → GoError
new_app_not_found app_id =
    business type_app_not_found "APP_NOT_FOUND" "应用不存在" (("app_id", app_id) ∷ [])
      (sentinel Sentinel.app_not_found)

abbrev pub new_app_inactive : String → GoError
new_app_inactive app_id =
    business type_app_inactive "APP_INACTIVE" "应用未激活" (("app_id", app_id) ∷ [])
      (sentinel Sentinel.app_inactive)

abbrev pub new_channel_not_found : String → String → GoError
new_channel_not_found app_id channel =
    business type_channel_not_found "CHANNEL_NOT_FOUND" "支付渠道不存在"
      (("app_id", app_id) ∷ ("channel", channel) ∷ []) (sentinel Sentinel.channel_not_found)

abbrev pub new_channel_inactive : String → String → GoError
new_channel_inactive app_id channel =
    business type_channel_inactive "CHANNEL_INACTIVE" "支付渠道未激活"
      (("app_id", app_id) ∷ ("channel", channel) ∷ []) (sentinel Sentinel.channel_inactive)

abbrev pub new_order_not_found : String → GoError
new_order_not_found order_no =
    business type_order_not_found "ORDER_NOT_FOUND" "订单不存在" (("order_no", order_no) ∷ [])
      (sentinel Sentinel.order_not_found)

abbrev pub new_order_exists : String → GoError
new_order_exists out_trade_no =
    business type_order_exists "ORDER_EXISTS" "订单已存在" (("out_trade_no", out_trade_no) ∷ [])
      (sentinel Sentinel.order_exists)

abbrev pub new_order_paid : String → GoError
new_order_paid order_no =
    business type_order_paid "ORDER_PAID" "订单已支付" (("order_no", order_no) ∷ [])
      (sentinel Sentinel.order_paid)

abbrev pub new_order_closed : String → GoError
new_order_closed order_no =
    business type_order_closed "ORDER_CLOSED" "订单已关闭" (("order_no", order_no) ∷ [])
      (sentinel Sentinel.order_closed)

abbrev pub new_invalid_amount : ℤ → GoError
new_invalid_amount amount =
    business type_invalid_amount "INVALID_AMOUNT" "金额无效"
      (("amount", show_ℤ amount) ∷ ("requirement", "必须大于 0") ∷ [])
      (sentinel Sentinel.invalid_amount)

abbrev pub new_signature_invalid : GoError
new_signature_invalid =
    business type_signature_invalid "SIGNATURE_INVALID" "签名验证失败" (("hint", "请检查签名算法和密钥") ∷ [])
      (sentinel Sentinel.signature_invalid)

abbrev pub new_invalid_channel : String → GoError
new_invalid_channel channel =
    business type_invalid_channel "INVALID_CHANNEL" "支付渠道无效" (("channel", channel) ∷ [])
      (sentinel Sentinel.invalid_channel)

-- `details["error"] = err.Error()` where there is an error.
abbrev error_detail : GoError → Details
error_detail nil_error = []
error_detail e = ("error", error_text e) ∷ []

abbrev pub new_payment_failed : String → GoError → GoError
new_payment_failed message e =
    business type_payment_failed "PAYMENT_FAILED" message (error_detail e) e

abbrev pub new_notify_failed : String → GoError → GoError
new_notify_failed order_no e =
    business type_notify_failed "NOTIFY_FAILED" "通知失败" (("order_no", order_no) ∷ error_detail e) e

abbrev pub new_invalid_request : String → Details → GoError
new_invalid_request message details =
    business type_invalid_request "INVALID_REQUEST" message details
      (sentinel Sentinel.invalid_request)
