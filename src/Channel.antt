-- ===== src/Channel.antt =====
-- pkg/channel/interface.go: what a payment channel is asked and what it answers. A provider is a
-- value of `PaymentChannel`; the modules below model those of the repository, with the vendors' SDKs
-- as parameters.
pub mod ChannelStatus
pub mod RefundStatus
pub mod Alipay
pub mod Stripe
pub mod Wechat
use go_pay.Prelude.{ℕ, String, Bool, Option, some, List, ◌==◌, if◌then◌else◌}
use go_pay.Prelude.Int.{ℤ}
use go_pay.Errors.{Result, ok, err}

abbrev pub ExtraData : Type 0
ExtraData = List (String × String)

pub record CreateOrderRequest : Type 0 where
  pub order_id : String
  pub biz_order_no : String
  pub amount : ℤ
  pub subject : String
  pub description : String
  pub notify_url : String
  pub extra_data : ExtraData

pub record CreateOrderResponse : Type 0 where
  pub platform_trade_no : String
  pub pay_url : String
  pub qr_code : String
  pub prepay_id : String
  pub extra_data : ExtraData

pub record QueryOrderRequest : Type 0 where
  pub order_id : String
  pub platform_trade_no : String

pub record QueryOrderResponse : Type 0 where
  pub status : String
  pub platform_trade_no : String
  pub paid_amount : ℤ
  pub paid_at : Option ℕ
  pub extra_data : ExtraData

pub record WebhookRequest : Type 0 where
  pub raw_body : String
  pub headers : ExtraData

-- `paid_at` is 0 for the zero time.
pub record WebhookResponse : Type 0 where
  pub success : Bool
  pub order_id : String
  pub platform_trade_no : String
  pub refund_no : String
  pub platform_refund_no : String
  pub status : String
  pub paid_amount : ℤ
  pub paid_at : ℕ
  pub response_body : String

pub record RefundRequest : Type 0 where
  pub order_id : String
  pub biz_order_no : String
  pub platform_no : String
  pub refund_no : String
  pub amount : ℤ
  pub reason : String
  pub notify_url : String
  pub extra_data : ExtraData

pub record RefundResponse : Type 0 where
  pub refund_no : String
  pub platform_trade_no : String
  pub platform_refund_no : String
  pub status : String
  pub amount : ℤ
  pub refunded_at : Option ℕ
  pub extra_data : ExtraData

-- The interface `refundProvider`, which a provider may implement.
pub record RefundProvider : Type 0 where
  pub refund : RefundRequest → Result (Option RefundResponse)
  pub query_refund : RefundRequest → Result RefundResponse

-- The interface `PaymentChannel`, with the interfaces that the callers look for by a type
-- assertion. A pointer in a result may be nil. `scoped_app_id` is `AppID()` of a provider that
-- belongs to one app.
pub record PaymentChannel : Type 0 where
  pub create_order : CreateOrderRequest → Result CreateOrderResponse
  pub handle_webhook : WebhookRequest → Result (Option WebhookResponse)
  pub refund_provider : Option RefundProvider
  pub scoped_app_id : Option String

-- `if s == "" { s = default }`
abbrev pub or_else : String → String → String
or_else s default = if s == "" then default else s

-- A result whose pointer is not nil.
abbrev pub nonnil : {A : Type 0} → Result A → Result (Option A)
nonnil (ok a) = ok (some a)
nonnil (err e) = err e
