-- ===== src/Channel/Wechat/Types.antt =====
-- What pkg/channel/wechat takes from WeChat's SDK and the standard library.
use go_pay.Prelude.{ℕ, String, ⊤, Option}
use go_pay.Prelude.Int.{ℤ}
use go_pay.Errors.{Result}

-- The `PrepayRequest` of the four payment services; the last fields belong to one of them each.
pub record PrepayRequest : Type 0 where
  pub app_id : String
  pub mch_id : String
  pub description : String
  pub out_trade_no : String
  pub notify_url : String
  pub total : ℤ
  pub currency : String
  pub openid : Option String
  pub client_ip : Option String
  pub h5_type : Option String
  pub device_id : Option String

-- The parts of their responses that the code reads.
pub record Prepaid : Type 0 where
  pub code_url : String
  pub h5_url : String
  pub prepay_id : String
  pub partner_id : String
  pub package_text : String
  pub timestamp : String
  pub nonce_str : String
  pub sign : String
  pub sign_type : String
  pub pay_sign : String

-- `payer_total` is none where the amount or the field is nil.
pub record Transaction : Type 0 where
  pub out_trade_no : String
  pub trade_state : String
  pub success_time : Option String
  pub payer_total : Option ℤ
  pub total : ℤ

pub record RefundCreate : Type 0 where
  pub out_trade_no : String
  pub out_refund_no : String
  pub reason : String
  pub refund : ℤ
  pub total : ℤ
  pub currency : String
  pub notify_url : Option String

-- `refunddomestic.Refund` as a response, whose fields may be nil.
pub record WechatRefund : Type 0 where
  pub refund_id : Option String
  pub out_refund_no : Option String
  pub out_trade_no : Option String
  pub status : Option String
  pub success_time : Option ℕ
  pub refund : Option ℤ
  pub total : Option ℤ

-- The same in a notice.
pub record RefundNotice : Type 0 where
  pub out_trade_no : Option String
  pub success_time : Option ℕ
  pub create_time : Option ℕ
  pub refund : Option ℤ

-- The HTTP request that `ParseNotifyRequest` reads.
pub record NotifyRequest : Type 0 where
  pub body : String
  pub timestamp : String
  pub nonce : String
  pub signature : String
  pub serial : String

-- A client, a key and a handler of notices are texts. A response comes with its status code, which
-- is none where the result is nil. `parse_pkcs8` gives none for a key that is not RSA, and
-- `parse_time` is `time.Parse(time.RFC3339, …)`, 0 where that fails. `upper` is `strings.ToUpper`.
pub record Sdk : Type 0 where
  pub pem_decode : String → Option String
  pub parse_pkcs8 : String → Result (Option String)
  pub parse_pkcs1 : String → Result String
  pub load_private_key : String → Result String
  pub new_client : String → String → String → String → Result String
  pub prepay_native : String → PrepayRequest → Result (ℕ × Prepaid)
  pub prepay_app : String → PrepayRequest → Result (ℕ × Prepaid)
  pub prepay_h5 : String → PrepayRequest → Result (ℕ × Prepaid)
  pub prepay_jsapi : String → PrepayRequest → Result (ℕ × Prepaid)
  pub query_by_out_trade_no : String → String → String → Result (ℕ × Transaction)
  pub create_refund : String → RefundCreate → Result (Option ℕ × Option WechatRefund)
  pub query_refund : String → String → Result (Option ℕ × Option WechatRefund)
  pub new_notify_handler : String → String → Result String
  pub new_request : String → Result ⊤
  pub unmarshal_event_type : String → Result String
  pub parse_refund : String → NotifyRequest → Result RefundNotice
  pub parse_transaction : String → NotifyRequest → Result Transaction
  pub parse_time : String → ℕ
  pub upper : String → String
