-- ===== src/Channel/Wechat/Requests.antt =====
-- What the refunds of internal/service send to WeChat.
use go_pay.Prelude.{some, ℕ, ◌^◌, ◌<◌, String, ◌≡◌, refl, inl, inr, arith, Bool-cases, ◌==◌}
use go_pay.Prelude.Int.{ℤ, pos}
use go_pay.Prelude.Text.{show_ℤ}
use go_pay.World.{Env, ChannelManager}
use go_pay.Errors.{Result, ok, err}
use go_pay.Middleware.Signature.{parse_int}
use go_pay.Middleware.Numerals.{parse_int-show_ℤ}
use go_pay.Webhook.Parse.{get}
use go_pay.Channel
use go_pay.Channel.{CreateOrderResponse}
use go_pay.OrderService.{CreateOrderRequest}
use go_pay.OrderService.Create.{channel_request, new_order}
use go_pay.RefundService.{channel_refund}
use go_pay.Channel.Wechat.{Provider, refund_create}
use go_pay.Channel.Wechat.Types.{Sdk, Prepaid}
use go_pay.Channel.Wechat.Prepay.{
  Service, prepay_request, app_id_of, answered, create_order, native_response, app_request,
  app_response, h5_request, h5_response, jsapi_request, jsapi_response,
}

answered-ok :
    (prefix : String) (r : Result (ℕ × Prepaid)) (f : Prepaid → CreateOrderResponse)
    (resp : CreateOrderResponse) (trade_no : String)
    → ((x : Prepaid) → (f x).platform_trade_no ≡ trade_no)
    → answered prefix r f ≡ ok resp
    → resp.platform_trade_no ≡ trade_no
answered-ok prefix (err e) f resp trade_no same h = absurd (ground (arith, h))
answered-ok prefix (ok (code, x)) f resp trade_no same h = ground (arith, h, same x)

-- Each type of provider keeps the trade number that it was asked for.
create_order-trade_no :
    (sdk : Sdk) (s : Service) (p : Provider) (req : Channel.CreateOrderRequest)
    (resp : CreateOrderResponse)
    → create_order sdk s p req ≡ ok resp
    → resp.platform_trade_no ≡ (prepay_request p req).out_trade_no
unfolding create_order
create_order-trade_no sdk Service.native p req resp h =
    (answered-ok "wechat prepay failed" (sdk.prepay_native p.client (prepay_request p req))
      (native_response req) resp req.biz_order_no (λ x. refl) h)
create_order-trade_no sdk Service.app p req resp h = elim (Bool-cases (app_id_of p req == "")) [
  | inl e ↦ absurd (ground (arith, h, e))
  | inr e ↦
      (answered-ok "wechat APP prepay failed" (sdk.prepay_app p.client (app_request p req))
        (app_response req) resp req.biz_order_no (λ x. refl) (ground (arith, h, e)))
]
create_order-trade_no sdk Service.h5 p req resp h = elim (Bool-cases (app_id_of p req == "")) [
  | inl e ↦ absurd (ground (arith, h, e))
  | inr e ↦
      (answered-ok "wechat H5 prepay failed" (sdk.prepay_h5 p.client (h5_request p req))
        (h5_response req) resp req.biz_order_no (λ x. refl) (ground (arith, h, e)))
]
create_order-trade_no sdk Service.jsapi p req resp h =
    elim (Bool-cases (get "openid" req.extra_data == "")) [
      | inl o ↦ absurd (ground (arith, h, o))
      | inr o ↦ elim (Bool-cases (app_id_of p req == "")) [
        | inl e ↦ absurd (ground (arith, h, o, e))
        | inr e ↦
            (answered-ok "wechat JSAPI prepay failed"
              (sdk.prepay_jsapi p.client (jsapi_request p req)) (jsapi_response req) resp
              req.biz_order_no (λ x. refl) (ground (arith, h, o, e)))
      ]
    ]

-- For an order that a WeChat provider has made, of a positive amount, a refund that the service
-- asks for names to WeChat the trade number and the total that the order was made with, and the
-- amount that is asked for.
pub refund-names_prepay :
    (env : Env) (cm : ChannelManager) (base : String) (sdk : Sdk) (s : Service) (p : Provider)
    (req : CreateOrderRequest) (order_no : String) (resp : CreateOrderResponse) (now n : ℕ)
    → req.amount ≡ pos n
    → 0 < n
    → n < 2 ^ 63
    → create_order sdk s p (channel_request env cm base req order_no) ≡ ok resp
    → (refund_no reason : String) (amount : ℤ)
    → let q =
        refund_create
          (channel_refund (new_order env req order_no resp now) refund_no amount reason) in
      let asked = prepay_request p (channel_request env cm base req order_no) in
      (q.out_trade_no ≡ asked.out_trade_no) × (q.total ≡ asked.total) × (q.refund ≡ amount)
unfolding refund_create
refund-names_prepay env cm base sdk s p req order_no resp now n e pn bn made refund_no reason
      amount =
    let read : parse_int (show_ℤ req.amount) ≡ some (pos n) = rw e (parse_int-show_ℤ n pn bn) in
    (
      create_order-trade_no sdk s p (channel_request env cm base req order_no) resp made,
      ground (arith, read, e, pn),
      refl,
    )
