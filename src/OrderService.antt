-- ===== src/OrderService.antt =====
-- internal/service/order_service.go: the requests and responses of the service, and its modules.
-- `Queries` has the statements that read, `Create` the making of an order, and `Status` the
-- statements that change one.
pub mod Queries
pub mod Create
pub mod Status
pub mod Storing
pub mod Outcome
pub mod Pending
pub mod Transition
pub mod Settlement
use go_pay.Prelude.{String}
use go_pay.Prelude.Int.{ℤ}
use go_pay.Channel.{ExtraData}

pub record CreateOrderRequest : Type 0 where
  pub app_id : String
  pub out_trade_no : String
  pub amount : ℤ
  pub subject : String
  pub body : String
  pub channel : String
  pub notify_url : String
  pub extra_data : ExtraData

pub record CreateOrderResponse : Type 0 where
  pub order_no : String
  pub pay_url : String
  pub qr_code : String
  pub prepay_id : String
  pub extra_data : ExtraData
