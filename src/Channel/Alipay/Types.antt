-- ===== src/Channel/Alipay/Types.antt =====
-- What pkg/channel/alipay takes from the package alipay/v3 and the standard library.
use go_pay.Prelude.{ℕ, String, ⊤, Bool, Option, List}
use go_pay.Prelude.Int.{ℤ}
use go_pay.Errors.{Result}

-- `Trade`, with the fields that the four kinds of payment add to it.
pub record Trade : Type 0 where
  pub subject : String
  pub out_trade_no : String
  pub total_amount : String
  pub product_code : String
  pub notify_url : String
  pub body : String
  pub quit_url : String
  pub return_url : String
  pub auth_code : String
  pub scene : String

-- A response: whether it is a success, its code and message, and the fields that the code reads,
-- which are empty where Alipay leaves them out.
pub record TradeResponse : Type 0 where
  pub is_success : Bool
  pub code : String
  pub msg : String
  pub qr_code : String
  pub trade_no : String
  pub out_trade_no : String
  pub out_request_no : String
  pub total_amount : String
  pub trade_status : String
  pub send_pay_date : String
  pub refund_fee : String
  pub refund_amount : String
  pub refund_status : String
  pub send_back_fee : String

pub record TradeRefund : Type 0 where
  pub out_trade_no : String
  pub refund_amount : String
  pub refund_reason : String
  pub out_request_no : String

pub record Notification : Type 0 where
  pub out_trade_no : String
  pub trade_status : String
  pub gmt_payment : String
  pub total_amount : String

-- A client is a text. `new` takes the gateway, if one is set. `parse_amount` and `format_amount`
-- are the functions of provider.go, which compute with `float64`. `parse_time` is `time.Parse` of
-- `2006-01-02 15:04:05`, where that succeeds.
pub record Sdk : Type 0 where
  pub new : String → String → Bool → Option String → Result String
  pub load_public_key : String → String → Result ⊤
  pub trade_precreate : String → Trade → Result TradeResponse
  pub trade_wap_pay : String → Trade → Result String
  pub trade_app_pay : String → Trade → Result String
  pub trade_pay : String → Trade → Result TradeResponse
  pub trade_query : String → String → Result TradeResponse
  pub trade_refund : String → TradeRefund → Result TradeResponse
  pub refund_query : String → String → String → Result TradeResponse
  pub parse_query : String → Result (List (String × String))
  pub verify_sign : String → List (String × String) → Result ⊤
  pub decode_notification : String → List (String × String) → Result Notification
  pub parse_amount : String → ℤ
  pub format_amount : ℤ → String
  pub parse_time : String → Option ℕ
