-- ===== src/Webhook.antt =====
-- internal/handler/webhook.go and webhook_stripe.go: what the three webhooks share. `Parse` reads
-- their bodies, and `Wechat`, `Alipay` and `Stripe` are the handlers.
pub mod Parse
pub mod Settle
pub mod Duplicates
pub mod Payment
pub mod Wechat
pub mod Alipay
pub mod Stripe
use go_pay.Prelude.{ℕ, String, Bool, Option, List}
use go_pay.Errors.{Result}
use go_pay.Channel.{PaymentChannel, ExtraData}

-- What a webhook writes to the `gin.Context`: `fail` is the `code` and `message` of WeChat,
-- `raw` a content type and a body, `text` a plain answer, `rejected` Stripe's `error`, `received`
-- Stripe's `received: true`. `panicked` is a nil pointer that is read, which gin turns into 500.
pub data WebhookReply : Type 0 where
  fail : ℕ → String → WebhookReply
  raw : ℕ → String → String → WebhookReply
  text : ℕ → String → WebhookReply
  rejected : ℕ → String → WebhookReply
  received : WebhookReply
  panicked : WebhookReply

-- The package variables of the handlers: whether `orderService` is set, and the channel manager,
-- which may also list providers by a prefix.
pub record Handlers : Type 0 where
  pub initialized : Bool
  pub get_provider : String → String → Result PaymentChannel
  pub list_providers : Option (String → Result (List PaymentChannel))

-- `json.Unmarshal` into a `map[string]interface{}`, whose values are texts or something else, and
-- into a `map[string]string`; and `url.ParseQuery`, as its pairs in order.
pub record Parsers : Type 0 where
  pub unmarshal_any : String → Result (List (String × Option String))
  pub unmarshal_strings : String → Result (List (String × String))
  pub parse_query : String → Result (List (String × String))

-- A request as gin hands it over: the body, or the error of reading it, and the headers.
pub record Request : Type 0 where
  pub body : Result String
  pub headers : ExtraData
