-- ===== src/Models.antt =====
-- internal/models/models.go: the rows of the tables and the constants of their columns. An
-- `int64` is an integer, a `time.Time` the number of seconds since its zero, and a `*time.Time`
-- is an option of that.
pub mod OrderStatus
pub mod NotifyStatus
pub mod TransactionType
use go_pay.Prelude.{ℕ, String, Bool, ⊤, ◌&&◌, Option, is_some, if◌then◌else◌, ◌==◌}
use go_pay.Prelude.Int.{ℤ, pos, leb_ℤ}
use go_pay.Errors.{plain, Result, ok, err}

pub record App : Type 0 where
  pub id : ℕ
  pub app_id : String
  pub app_name : String
  pub app_secret : String
  pub callback_url : String
  pub status : String
  pub created_at : ℕ
  pub updated_at : ℕ

pub record Order : Type 0 where
  pub id : ℕ
  pub order_no : String
  pub app_id : String
  pub out_trade_no : String
  pub channel : String
  pub amount : ℤ
  pub currency : String
  pub subject : String
  pub body : String
  pub status : String
  pub notify_status : String
  pub retry_count : ℕ
  pub channel_order_no : String
  pub pay_url : String
  pub paid_at : Option ℕ
  pub notified_at : Option ℕ
  pub expires_at : ℕ
  pub created_at : ℕ
  pub updated_at : ℕ

pub record Transaction : Type 0 where
  pub id : ℕ
  pub transaction_no : String
  pub order_no : String
  pub channel : String
  pub channel_order_no : String
  pub kind : String  -- the column `type`
  pub amount : ℤ
  pub status : String
  pub raw_request : String
  pub raw_response : String
  pub created_at : ℕ

pub record NotifyLog : Type 0 where
  pub id : ℕ
  pub order_no : String
  pub callback_url : String
  pub request_body : String
  pub response_status : ℕ
  pub response_body : String
  pub success : Bool
  pub error_msg : String
  pub duration_ms : ℕ
  pub created_at : ℕ

pub record ChannelConfig : Type 0 where
  pub id : ℕ
  pub app_id : String
  pub channel : String
  pub config : String
  pub status : String
  pub created_at : ℕ
  pub updated_at : ℕ

-- `Order.IsPaid`
abbrev is_paid : Order → Bool
is_paid o = (o.status == OrderStatus.paid) && is_some o.paid_at

abbrev require : Bool → String → Result ⊤ → Result ⊤
require failed message rest = if failed then err (plain message) else rest

-- `Order.Validate`
abbrev validate_order : Order → Result ⊤
validate_order o = require (leb_ℤ o.amount (pos 0)) "amount must be greater than 0" (
    require (o.subject == "") "subject is required" (
      require (o.app_id == "") "app_id is required" (
        require (o.out_trade_no == "") "out_trade_no is required"
          (require (o.channel == "") "channel is required" (ok tt)))))

-- `App.Validate`
abbrev pub validate_app : App → Result ⊤
validate_app a = require (a.app_id == "") "app_id is required" (
    require (a.app_name == "") "app_name is required" (
      require (a.app_secret == "") "app_secret is required"
        (require (a.callback_url == "") "callback_url is required" (ok tt))))

-- `ChannelConfig.Validate`
abbrev pub validate_channel_config : ChannelConfig → Result ⊤
validate_channel_config c = require (c.app_id == "") "app_id is required" (
    require (c.channel == "") "channel is required"
      (require (c.config == "") "config is required" (ok tt)))
