-- ===== src/Examples/Shop.antt =====
-- A shop, its order and its channel, which the runs in Examples start from.
use go_pay.Prelude.{ℕ, zero, suc, String, true, none, some, List, [], ◌∷◌}
use go_pay.Prelude.Int.{pos}
use go_pay.Errors.{plain, ok, err}
use go_pay.Models.{App, Order}
use go_pay.Models.NotifyStatus
use go_pay.Channel
use go_pay.Channel.{PaymentChannel, RefundProvider, WebhookResponse}
use go_pay.Channel.ChannelStatus
use go_pay.Channel.RefundStatus
use go_pay.World.{Db, World, HttpOutcome, Env, ChannelManager}
use go_pay.RefundService.{RefundRequest}
use go_pay.System.{Setup, Event}

abbrev pub shop : App
shop = record {
  id = 1;
  app_id = "shop";
  app_name = "Shop";
  app_secret = "secret";
  callback_url = "https://shop.example/pay";
  status = "active";
  created_at = 1;
  updated_at = 1;
}

abbrev pub order : String → Order
order status = record {
  id = 1;
  order_no = "ORD_1";
  app_id = "shop";
  out_trade_no = "T1";
  channel = "wechat_native";
  amount = pos 500;
  currency = "CNY";
  subject = "tea";
  body = "";
  status = status;
  notify_status = NotifyStatus.pending;
  retry_count = 0;
  channel_order_no = "P1";
  pay_url = "weixin://1";
  paid_at = none;
  notified_at = none;
  expires_at = 7200;
  created_at = 1;
  updated_at = 1;
}

abbrev pub tables : String → Db
tables status = record {
  apps = shop ∷ [];
  orders = order status ∷ [];
  transactions = [];
  notify_logs = [];
}

abbrev pub world : String → World
world status = record {
  db = tables status;
  channel_calls = [];
  tasks = [];
  pool = 0;
  sent = [];
  slept = [];
  alerts = [];
  statements = 0;
  readings = 0;
  draws = 0;
  posts = 0;
}

-- The first two POSTs are answered with 500, every later one with 200.
abbrev pub answer : ℕ → HttpOutcome × ℕ
answer zero = (HttpOutcome.responded 500 "busy", 3)
answer (suc zero) = (HttpOutcome.responded 500 "busy", 3)
answer (suc (suc n)) = (HttpOutcome.responded 200 "ok", 3)

abbrev pub env : Env
env = record {
  fault = λ n. none;
  sql_now = λ n. n;
  now = λ n. n;
  random = λ n. n;
  format = λ layout t. "20260101000000";
  marshal = λ p. ok "{}";
  http = answer;
}

abbrev pub pending_refund : Channel.RefundRequest → Channel.RefundResponse
pending_refund req = record {
  refund_no = req.refund_no;
  platform_trade_no = req.platform_no;
  platform_refund_no = "R1";
  status = RefundStatus.pending;
  amount = req.amount;
  refunded_at = none;
  extra_data = [];
}

abbrev pub wallet : PaymentChannel
wallet = record {
  create_order = λ req. err (plain "closed");
  handle_webhook = λ req. ok none;
  refund_provider = some (record {
    refund = λ req. ok (some (pending_refund req));
    query_refund = λ req. ok (pending_refund req);
  });
  scoped_app_id = none;
}

abbrev pub channels : ChannelManager
channels = record { get_provider = λ app_id channel. ok wallet }

abbrev pub setup : Setup
setup = record {
  cm = channels;
  handlers = record {
    initialized = true;
    get_provider = λ app_id channel. ok wallet;
    list_providers = none;
  };
  parsers = record {
    unmarshal_any = λ body. ok [];
    unmarshal_strings = λ body. ok [];
    parse_query = λ body. ok [];
  };
  public_base_url = "";
  refunds = true;
  refunds_initialized = true;
  alerting = true;
}

abbrev pub whole : RefundRequest
whole = record { order_no = "ORD_1"; amount = pos 500; reason = "returned" }

abbrev pub calls : List (Setup × Event)
calls =
    (setup, Event.refund_order (ok (record { amount = pos 500; reason = "returned" })) "ORD_1")
    ∷ (setup, Event.scheduler)
    ∷ (setup, Event.run 0)
    ∷ []

abbrev pub paid_again : WebhookResponse
paid_again = record {
  success = true;
  order_id = "ORD_1";
  platform_trade_no = "T1";
  refund_no = "";
  platform_refund_no = "";
  status = ChannelStatus.paid;
  paid_amount = pos 500;
  paid_at = 9;
  response_body = "";
}
