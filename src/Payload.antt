-- ===== src/Payload.antt =====
-- The bodies that internal/service/notify_service.go posts to a business system.
use go_pay.Prelude.{String}
use go_pay.Prelude.Int.{ℤ}

pub record NotifyRequest : Type 0 where
  pub order_no : String
  pub out_trade_no : String
  pub amount : ℤ
  pub status : String
  pub paid_at : String
  pub channel : String
  pub channel_order_no : String

pub record RefundNotifyRequest : Type 0 where
  pub order_no : String
  pub out_trade_no : String
  pub refund_no : String
  pub platform_refund_no : String
  pub amount : ℤ
  pub refund_amount : ℤ
  pub status : String
  pub channel : String
  pub refunded_at : String

-- What `json.Marshal` is given.
pub data Payload : Type 0 where
  payment : NotifyRequest → Payload
  refund : RefundNotifyRequest → Payload
