-- ===== src/OrderService/Storing.antt =====
-- The checks of `CreateOrder`, and what it stores once the channel has answered.
use go_pay.Prelude.{
  ℕ, ◌+◌, String, true, false, ⊤, Bool, none, some, [], ◌∷◌, ◌++◌, ◌==◌, ◌≡◌, refl, sym, ◌∙◌, inl,
  inr, arith, find, Bool-cases, Option-cases,
}
use mathlib.Core.Path.{subst}
use go_pay.Prelude.Int.{pos, leb_ℤ, ◌≤ℤ◌}
use go_pay.Errors.{GoError, Result, ok, err}
use go_pay.Errors.Make.{new_payment_failed}
use go_pay.Models.{App, Order}
use go_pay.Channel
use go_pay.Channel.{PaymentChannel}
use go_pay.World.{Db, World, Env, M, pure, lift, map_error, ◌>>=◌, ◌>>◌, time_now, running}
use go_pay.World.Laws.{bind_rule, bind-ok, bind-err}
use go_pay.OrderService.{CreateOrderRequest, CreateOrderResponse}
use go_pay.OrderService.Queries.{
  has_order_no, has_trade_no, is_active_app, get_app, get_order_by_out_trade_no,
}
use go_pay.OrderService.Create.{
  stored_order, insert_order, save_order, new_order, check_request, generate_order_no, save_error,
}

-- The tables and the channel are as they were.
pub record Quiet (w w' : World) : Type 0 where
  pub db : w'.db ≡ w.db
  pub calls : w'.channel_calls ≡ w.channel_calls

abbrev pub is_ok : {A : Type 0} → Result A → Bool
is_ok (ok a) = true
is_ok (err e) = false

-- What a request that passes the checks is known to be.
pub record Checked (req : CreateOrderRequest) (db : Db) : Type 0 where
  pub amount : pos 1 ≤ℤ req.amount
  pub app : App
  pub active : find (is_active_app req.app_id) db.apps ≡ some app

pub data CheckEnd (req : CreateOrderRequest) (w : World) (x : Result ⊤ × World) : Type 0 where
  failed : is_ok x.0 ≡ false → Quiet w x.1 → CheckEnd req w x
  passed : x.0 ≡ ok tt → Checked req w.db → Quiet w x.1 → CheckEnd req w x

-- How the row ends that was to be saved.
data Saved (o : Order) (w : World) (x : Result ⊤ × World) : Type 0 where
  lost : is_ok x.0 ≡ false → Quiet w x.1 → Saved o w x
  inserted :
      (now : ℕ)
      → x.0 ≡ ok tt
      → find (has_order_no o.order_no) w.db.orders ≡ none
      → find (has_trade_no o.app_id o.out_trade_no) w.db.orders ≡ none
      → x.1.db ≡ record w.db { orders = w.db.orders ++ stored_order o now w.db ∷ [] }
      → x.1.channel_calls ≡ w.channel_calls
      → Saved o w x

-- The response of an order that the channel has made.
abbrev pub created : String → Channel.CreateOrderResponse → CreateOrderResponse
created order_no resp = record {
  order_no = order_no;
  pay_url = resp.pay_url;
  qr_code = resp.qr_code;
  prepay_id = resp.prepay_id;
  extra_data = resp.extra_data;
}

module _ (env : Env) where
  -- What the channel's answer leads to: an error and no row, or the new row and the response.
  pub data Placed (req : CreateOrderRequest) (order_no : String)
      (answer : Result Channel.CreateOrderResponse) (db : Db) (r : Result CreateOrderResponse)
      (db' : Db) : Type 0 where
    not_stored : is_ok r ≡ false → db' ≡ db → Placed req order_no answer db r db'
    stored :
        (resp : Channel.CreateOrderResponse) (t now : ℕ)
        → answer ≡ ok resp
        → r ≡ ok (created order_no resp)
        → find (has_order_no order_no) db.orders ≡ none
        → find (has_trade_no req.app_id req.out_trade_no) db.orders ≡ none
        → db' ≡ record db {
          orders = db.orders ++ stored_order (new_order env req order_no resp t) now db ∷ [];
        }
        → Placed req order_no answer db r db'

  pub check_request-CheckEnd :
      (req : CreateOrderRequest) (w : World) → CheckEnd req w (check_request env req w)
  unfolding check_request get_app get_order_by_out_trade_no running
  check_request-CheckEnd req w = elim (Bool-cases (leb_ℤ req.amount (pos 0))) [
    | inl h ↦ failed (ground arith) (record { db = ground arith; calls = ground arith })
    | inr h ↦ elim (Option-cases (env.fault w.statements)) [
      | inr (e, f) ↦ failed (ground arith) (record { db = ground arith; calls = ground arith })
      | inl f ↦ elim (Option-cases (find (is_active_app req.app_id) w.db.apps)) [
        | inl g ↦ failed (ground arith) (record { db = ground arith; calls = ground arith })
        | inr (a, g) ↦ elim (Bool-cases (is_ok (check_request env req w).0)) [
          | inr bad ↦ failed bad (record { db = ground arith; calls = ground arith })
          | inl good ↦
              passed (ground arith) (record { amount = ground arith; app = a; active = g })
                (record { db = ground arith; calls = ground arith })
        ]
      ]
    ]
  ]

  save_order-Saved :
      (g : GoError → GoError) (o : Order) (w : World) → Saved o w (map_error g (save_order env o) w)
  unfolding save_order insert_order running
  save_order-Saved g o w = elim (Option-cases (env.fault w.statements)) [
    | inr (e, f) ↦ lost (ground arith) (record { db = ground arith; calls = ground arith })
    | inl f ↦ elim (Option-cases (find (has_order_no o.order_no) w.db.orders)) [
      | inr (x, h) ↦ lost (ground arith) (record { db = ground arith; calls = ground arith })
      | inl h ↦ elim (Option-cases (find (has_trade_no o.app_id o.out_trade_no) w.db.orders)) [
        | inr (x, k) ↦ lost (ground arith) (record { db = ground arith; calls = ground arith })
        | inl k ↦ elim (Option-cases (find (λ (a : App). a.app_id == o.app_id) w.db.apps)) [
          | inl l ↦ lost (ground arith) (record { db = ground arith; calls = ground arith })
          | inr (a, l) ↦
              inserted (env.sql_now w.statements) (ground arith) h k (ground arith) (ground arith)
        ]
      ]
    ]
  ]

  pub generate_order_no-Quiet :
      (w : World) {x : Result String × World}
      → generate_order_no env w ≡ x
      → Quiet w x.1 × (is_ok x.0 ≡ true)
  unfolding generate_order_no running
  generate_order_no-Quiet w h =
      subst (λ x. Quiet w x.1 × (is_ok x.0 ≡ true)) h (record { db = refl; calls = refl }, refl)

  -- The code after the channel's answer.
  abbrev pub store :
      CreateOrderRequest → String → Result Channel.CreateOrderResponse → M CreateOrderResponse
  store req order_no answer = do
    resp ← map_error (new_payment_failed "支付渠道创建订单失败") (lift answer)
    now ← time_now env
    map_error (save_error env req.out_trade_no)
        (save_order env (new_order env req order_no resp now))
    pure (created order_no resp)

  abbrev pub PlacedFrom :
      CreateOrderRequest
      → String
      → Result Channel.CreateOrderResponse
      → World
      → Result CreateOrderResponse × World
      → Type 0
  PlacedFrom req order_no answer w x =
      Placed req order_no answer w.db x.0 x.1.db × (x.1.channel_calls ≡ w.channel_calls)

  Saved-Placed :
      (req : CreateOrderRequest) (n : String) (resp : Channel.CreateOrderResponse) (t : ℕ)
      (w : World) (u : ⊤) (w2 : World)
      → Saved (new_order env req n resp t) w (ok u, w2)
      → PlacedFrom req n (ok resp) w (ok (created n resp), w2)
  Saved-Placed req n resp t w u w2 (lost bad s) = absurd cc
  Saved-Placed req n resp t w u w2 (inserted now r a b d c) = (stored resp t now refl refl a b d, c)

  lost-Placed :
      (req : CreateOrderRequest) (n : String) (resp : Channel.CreateOrderResponse) (t : ℕ)
      (w : World) (e : GoError) (w2 : World)
      → Saved (new_order env req n resp t) w (err e, w2)
      → PlacedFrom req n (ok resp) w (err e, w2)
  lost-Placed req n resp t w e w2 (lost bad s) = (not_stored refl s.db, s.calls)
  lost-Placed req n resp t w e w2 (inserted now r a b d c) = absurd cc

  pub store-Placed :
      (req : CreateOrderRequest) (n : String) (answer : Result Channel.CreateOrderResponse)
      (w : World)
      → PlacedFrom req n answer w (store req n answer w)
  unfolding time_now map_error
  store-Placed req n (err e) w =
      subst (PlacedFrom req n (err e) w)
        (sym (
          bind-err (map_error (new_payment_failed "支付渠道创建订单失败") (lift (err e)))
            (λ resp. time_now env >>= λ now.
              map_error (save_error env req.out_trade_no)
                (save_order env (new_order env req n resp now))
              >> pure (created n resp))
            w refl))
        (not_stored refl refl, refl)
  store-Placed req n (ok resp) w =
      subst (PlacedFrom req n (ok resp) w)
        (sym (
          bind-ok (map_error (new_payment_failed "支付渠道创建订单失败") (lift (ok resp)))
            (λ resp. time_now env >>= λ now.
              map_error (save_error env req.out_trade_no)
                (save_order env (new_order env req n resp now))
              >> pure (created n resp))
            w refl
          ∙ bind-ok (time_now env)
              (λ now.
                map_error (save_error env req.out_trade_no)
                  (save_order env (new_order env req n resp now))
                >> pure (created n resp))
              w refl))
        (bind_rule (PlacedFrom req n (ok resp) w)
          (map_error (save_error env req.out_trade_no)
            (save_order env (new_order env req n resp t)))
          (λ u. pure (created n resp)) w1
          (λ u w2 e.
            Saved-Placed req n resp t w1 u w2
              (subst (Saved (new_order env req n resp t) w1) e saved))
          (λ x w2 e.
            lost-Placed req n resp t w1 x w2
              (subst (Saved (new_order env req n resp t) w1) e saved)))
    where
      t : ℕ
      t = env.now w.readings

      w1 : World
      w1 = record w { readings = w.readings + 1 }

      saved : Saved (new_order env req n resp t) w1 (
          map_error
            (save_error env req.out_trade_no)
            (save_order env (new_order env req n resp t))
            w1)
      saved = save_order-Saved (save_error env req.out_trade_no) (new_order env req n resp t) w1
