-- ===== src/Handler.antt =====
-- internal/handler/checkout.go, refund.go and internal.go: the API handlers. What gin does before
-- them is an argument: the result of `ShouldBindJSON`, a path parameter, and the
-- `verified_app_id` that the signature check leaves behind.
use go_pay.Prelude.{
  ℕ, String, Bool, not, ◌||◌, Option, none, some, List, [], ◌∷◌, ◌==◌, if◌then◌else◌, length,
}
use go_pay.Prelude.Int.{ℤ}
use go_pay.Errors.{Result, ok, err, error_text}
use go_pay.Models.{Order}
use go_pay.Channel.{ExtraData}
use go_pay.World.{Env, ChannelManager, M, pure, attempt, ◌>>=◌}
use go_pay.Response.{Reply, success, handle_error, bad_request, internal_error}
use go_pay.OrderService.{CreateOrderRequest, CreateOrderResponse}
use go_pay.OrderService.Queries.{query_order, list_failed_orders}
use go_pay.OrderService.Create.{create_order}
use go_pay.RefundService
use go_pay.NotifyService.Pool

-- `CheckoutRequest` has the fields of the service's request, and is copied into it.
abbrev pub CheckoutRequest : Type 0
CheckoutRequest = CreateOrderRequest

pub record CheckoutResponse : Type 0 where
  pub order_no : String
  pub pay_url : String
  pub qr_code : String
  pub prepay_id : String
  pub pay_info : ExtraData

-- The body of `RefundOrder`.
pub record RefundBody : Type 0 where
  pub amount : ℤ
  pub reason : String

pub record OrderList : Type 0 where
  pub total : ℕ
  pub orders : List Order

abbrev checkout_response : CreateOrderResponse → CheckoutResponse
checkout_response r = record {
  order_no = r.order_no;
  pay_url = r.pay_url;
  qr_code = r.qr_code;
  prepay_id = r.prepay_id;
  pay_info = r.extra_data;
}

-- The reply by the result of the service, which `HandleError` turns into a reply if it failed.
abbrev pub reply_of : {A B : Type 0} → String → (A → B) → Result A → Reply B
reply_of message f (ok a) = success message (f a)
reply_of message f (err e) = handle_error e

-- Whether the request names another app than the one that signed it.
abbrev pub is_mismatch : Option String → String → Bool
is_mismatch none app_id = Bool.false
is_mismatch (some verified) app_id = not (app_id == verified)

module _ (env : Env) (cm : ChannelManager) where
  unfoldable pub checkout :
      String → Option String → Result CheckoutRequest → M (Reply CheckoutResponse)
  checkout public_base_url verified_app_id (err e) = pure (bad_request "请求参数错误" (error_text e ∷ []))
  checkout public_base_url verified_app_id (ok req) =
      if is_mismatch verified_app_id req.app_id then pure (bad_request "app_id 与签名不匹配" []) else (do
        created ← attempt (create_order env cm public_base_url (some req))
        pure (reply_of "订单创建成功" checkout_response created))

  -- `service` is false where `refundService` is nil.
  unfoldable pub refund_order :
      Bool → Bool → Result RefundBody → String → M (Reply RefundService.RefundResponse)
  refund_order service initialized body order_no =
      if not service then pure (internal_error "退款服务未初始化" ("" ∷ [])) else elim body [
        | err e ↦ pure (bad_request "请求参数错误" (error_text e ∷ []))
        | ok b ↦ if order_no == "" then pure (bad_request "订单号不能为空" []) else (do
          refunded ← attempt (
              RefundService.refund env cm initialized
                (some (record { order_no = order_no; amount = b.amount; reason = b.reason })))
          pure (reply_of "退款已提交" (λ r. r) refunded))
      ]

  unfoldable pub query_refund :
      Bool → Bool → String → String → M (Reply RefundService.RefundResponse)
  query_refund service initialized order_no refund_no =
      if not service
      then pure (internal_error "退款服务未初始化" ("" ∷ []))
      else if (order_no == "") || (refund_no == "")
      then pure (bad_request "参数错误" [])
      else (do
        found ← attempt (RefundService.query_refund env cm initialized order_no refund_no)
        pure (reply_of "查询成功" (λ r. r) found))

module _ (env : Env) where
  unfoldable pub query : String → M (Reply Order)
  query order_no =
      if order_no == ""
      then pure (bad_request "订单号不能为空" [])
      else (do found ← attempt (query_order env order_no); pure (reply_of "查询成功" (λ o. o) found))

  abbrev listed : Result (List Order) → Reply OrderList
  listed (ok orders) = success "查询成功" (record { total = length orders; orders = orders })
  listed (err e) = internal_error "查询失败订单失败" (error_text e ∷ [])

  unfoldable pub failed_orders : M (Reply OrderList)
  failed_orders = do found ← attempt (list_failed_orders env 100); pure (listed found)

  unfoldable pub retry : String → M (Reply String)
  retry order_no = if order_no == "" then pure (bad_request "订单号不能为空" []) else (do
    started ← attempt (Pool.retry_notify env order_no)
    pure (reply_of "重试已启动" (λ _. order_no) started))
