-- ===== src/Response.antt =====
-- pkg/response/response.go: the reply to a request, and `HandleError`, which turns an error of
-- the services into a status and an error code. `Reply A` is what a handler writes to the
-- `gin.Context`, with `A` the data of a success.
pub mod Mapping
use go_pay.Prelude.{ℕ, String, List, [], ◌∷◌, Option, none, some, if◌then◌else◌, ◌==◌}
use go_pay.Errors.{
  Sentinel, ErrorType, BusinessError, Details, GoError, error_text, as_business, is_sentinel,
}

pub data Reply (A : Type 0) : Type 0 where
  failure : ℕ → String → String → Details → Reply A
  success : String → A → Reply A

-- `Error`: the variadic details become one entry, unless the first is empty.
abbrev pub error_reply : {A : Type 0} → ℕ → String → String → List String → Reply A
error_reply status code message [] = failure status code message []
error_reply status code message (d ∷ ds) =
    failure status code message (if d == "" then [] else ("detail", d) ∷ [])

-- The `switch` of `handleBusinessError`.
business_status : ErrorType → ℕ × String
business_status ErrorType.type_app_not_found = (404, "APP_NOT_FOUND")
business_status ErrorType.type_app_inactive = (403, "APP_INACTIVE")
business_status ErrorType.type_channel_not_found = (404, "CHANNEL_NOT_FOUND")
business_status ErrorType.type_channel_inactive = (403, "CHANNEL_INACTIVE")
business_status ErrorType.type_order_not_found = (404, "ORDER_NOT_FOUND")
business_status ErrorType.type_order_exists = (409, "ORDER_EXISTS")
business_status ErrorType.type_order_paid = (409, "ORDER_PAID")
business_status ErrorType.type_order_closed = (409, "ORDER_CLOSED")
business_status ErrorType.type_invalid_amount = (400, "INVALID_AMOUNT")
business_status ErrorType.type_invalid_channel = (400, "INVALID_CHANNEL")
business_status ErrorType.type_payment_failed = (500, "PAYMENT_FAILED")
business_status ErrorType.type_notify_failed = (500, "NOTIFY_FAILED")
business_status ErrorType.type_signature_invalid = (401, "SIGNATURE_INVALID")
business_status ErrorType.type_invalid_request = (400, "INVALID_REQUEST")
business_status _ = (500, "INTERNAL_ERROR")

pub handle_business_error : {A : Type 0} → BusinessError → Reply A
unfolding business_status
handle_business_error e =
    let (status, code) = business_status e.kind in failure status code e.message e.details

-- The `switch` of `HandleError` on `errors.Is`, in its order.
abbrev sentinel_case : {A : Type 0} → GoError → Sentinel → ℕ → String → String → Reply A → Reply A
sentinel_case e s status code message later =
    if is_sentinel e s then error_reply status code message (error_text e ∷ []) else later

handle_sentinel : {A : Type 0} → GoError → Reply A
handle_sentinel e = sentinel_case e Sentinel.app_not_found 404 "APP_NOT_FOUND" "应用不存在" (
    sentinel_case e Sentinel.app_inactive 403 "APP_INACTIVE" "应用未激活" (
      sentinel_case e Sentinel.channel_not_found 404 "CHANNEL_NOT_FOUND" "支付渠道不存在" (
        sentinel_case e Sentinel.channel_inactive 403 "CHANNEL_INACTIVE" "支付渠道未激活" (
          sentinel_case e Sentinel.order_not_found 404 "ORDER_NOT_FOUND" "订单不存在" (
            sentinel_case e Sentinel.order_exists 409 "ORDER_EXISTS" "订单已存在" (
              sentinel_case e Sentinel.order_paid 409 "ORDER_PAID" "订单已支付" (
                sentinel_case e Sentinel.order_closed 409 "ORDER_CLOSED" "订单已关闭" (
                  sentinel_case e Sentinel.invalid_amount 400 "INVALID_AMOUNT" "金额无效" (
                    sentinel_case e Sentinel.invalid_channel 400 "INVALID_CHANNEL" "支付渠道无效" (
                      sentinel_case e Sentinel.payment_failed 500 "PAYMENT_FAILED" "支付失败" (
                        sentinel_case e Sentinel.notify_failed 500 "NOTIFY_FAILED" "通知失败" (
                          sentinel_case e Sentinel.signature_invalid 401 "SIGNATURE_INVALID"
                            "签名验证失败"
                            (sentinel_case e Sentinel.invalid_request 400 "INVALID_REQUEST" "请求参数错误"
                              (error_reply 500 "INTERNAL_ERROR" "服务器内部错误"
                                (error_text e ∷ [])))))))))))))))

unfoldable pub handle_error : {A : Type 0} → GoError → Reply A
unfolding handle_business_error handle_sentinel
handle_error e = elim (as_business e) [
  | none ↦ handle_sentinel e
  | some b ↦ handle_business_error b
]

module _ {A : Type 0} where
  abbrev pub bad_request : String → List String → Reply A
  bad_request = error_reply 400 "INVALID_REQUEST"

  abbrev pub unauthorized : String → List String → Reply A
  unauthorized = error_reply 401 "UNAUTHORIZED"

  abbrev pub forbidden : String → List String → Reply A
  forbidden = error_reply 403 "FORBIDDEN"

  abbrev pub internal_error : String → List String → Reply A
  internal_error = error_reply 500 "INTERNAL_ERROR"

  abbrev pub too_many_requests : String → List String → Reply A
  too_many_requests = error_reply 429 "TOO_MANY_REQUESTS"
