-- ===== src/OrderService/Outcome.antt =====
-- What `CreateOrder` does on every path: what reaches the channel, and what is stored.
use go_pay.Prelude.{String, false, ⊤, some, [], ◌∷◌, ◌++◌, ◌≡◌, refl, sym, ◌∙◌, ap, inl, inr}
use mathlib.Core.Path.{subst}
use go_pay.Errors.{GoError, Result, ok, err, Result-cases}
use go_pay.Channel.{PaymentChannel}
use go_pay.World.{World, ChannelCall, Env, ChannelManager, M, lift, ◌>>=◌, ◌>>◌, call_channel}
use go_pay.World.Laws.{bind_rule, bind-ok, bind-err}
use go_pay.OrderService.{CreateOrderRequest, CreateOrderResponse}
use go_pay.OrderService.Create.{
  check_request, channel_request, place_order, create_order, generate_order_no,
}
use go_pay.OrderService.Storing.{
  Quiet, Checked, CheckEnd, failed, passed, is_ok, Placed, store, check_request-CheckEnd,
  generate_order_no-Quiet, store-Placed,
}

module _ (env : Env) where
  -- The ways in which `CreateOrder` may end.
  pub data Created (cm : ChannelManager) (base : String) (req : CreateOrderRequest) (w : World)
      (r : Result CreateOrderResponse) (w' : World) : Type 0 where
    refused :
        is_ok r ≡ false
        → w'.db ≡ w.db
        → w'.channel_calls ≡ w.channel_calls
        → Created cm base req w r w'
    asked :
        (p : PaymentChannel) (order_no : String)
        → Checked req w.db
        → cm.get_provider req.app_id req.channel ≡ ok p
        → w'.channel_calls
          ≡ w.channel_calls
            ++ ChannelCall.create_order (channel_request env cm base req order_no) ∷ []
        → Placed env req order_no
            (p.create_order (channel_request env cm base req order_no))
            w.db
            r
            w'.db
        → Created cm base req w r w'

  module _ (cm : ChannelManager) (base : String) where
    place_order-Created :
        (req : CreateOrderRequest) (w w1 : World)
        → Checked req w.db
        → Quiet w w1
        → let (r, w') = place_order env cm base req w1 in Created cm base req w r w'
    unfolding place_order
    place_order-Created req w w1 c q =
        bind_rule P (generate_order_no env) _ w1
          (λ n w2 e. numbered n w2 (generate_order_no-Quiet env w1 e).0)
          (λ x w2 e.
            refused refl ((generate_order_no-Quiet env w1 e).0.db ∙ q.db)
              ((generate_order_no-Quiet env w1 e).0.calls ∙ q.calls))
      where
        P : Result CreateOrderResponse × World → Type 0
        P x = Created cm base req w x.0 x.1

        call : String → ChannelCall
        call n = ChannelCall.create_order (channel_request env cm base req n)

        ask : String → PaymentChannel → M CreateOrderResponse
        ask n p =
            call_channel (call n)
            >> store env req n (p.create_order (channel_request env cm base req n))

        answered :
            (n : String) (p : PaymentChannel) (w2 : World)
            → Quiet w1 w2
            → cm.get_provider req.app_id req.channel ≡ ok p
            → P (ask n p w2)
        answered n p w2 s g =
            let answer = p.create_order (channel_request env cm base req n) in
            let w3 = record w2 { channel_calls = w2.channel_calls ++ call n ∷ [] } in
            let x = store-Placed env req n answer w3 in
            subst P (sym (bind-ok (call_channel (call n)) (λ u. store env req n answer) w2 refl)) (
              asked p n c g (x.1 ∙ ap (λ cs. cs ++ call n ∷ []) (s.calls ∙ q.calls)) (
                subst
                  (λ db.
                    Placed env req n answer db (store env req n answer w3).0
                      (store env req n answer w3).1.db)
                  (s.db ∙ q.db) x.0))

        numbered :
            (n : String) (w2 : World)
            → Quiet w1 w2
            → P ((lift (cm.get_provider req.app_id req.channel) >>= ask n) w2)
        numbered n w2 s = elim (Result-cases (cm.get_provider req.app_id req.channel)) [
          | inl (e, g) ↦
              subst P
                (sym (
                  bind-err (lift (cm.get_provider req.app_id req.channel)) (ask n) w2
                    (ap (λ r. (r, w2)) g)))
                (refused refl (s.db ∙ q.db) (s.calls ∙ q.calls))
          | inr (p, g) ↦
              subst P
                (sym (
                  bind-ok (lift (cm.get_provider req.app_id req.channel)) (ask n) w2
                    (ap (λ r. (r, w2)) g)))
                (answered n p w2 s g)
        ]

    -- An order is made or refused. A refusal before the channel is asked leaves the tables alone.
    -- Otherwise the request was checked: the amount is at least 1 and the app is active; and
    -- exactly one request, with the amount asked for and a new number, has reached the channel of
    -- the app. Then either the call fails and no table has changed, or the channel has made the
    -- order, its answer is returned, and the one new row is the pending order under a number, and
    -- a pair of app and trade number, that no row had.
    pub create_order-Created :
        (req : CreateOrderRequest) (w : World)
        → let (r, w') = create_order env cm base (some req) w in Created cm base req w r w'
    unfolding create_order
    create_order-Created req w =
        bind_rule (λ x. Created cm base req w x.0 x.1) (check_request env req)
          (λ u. place_order env cm base req) w
          (λ u w1 e. after_check (subst (CheckEnd req w) e (check_request-CheckEnd env req w)))
          (λ x w1 e. stopped (subst (CheckEnd req w) e (check_request-CheckEnd env req w)))
      where
        after_check :
            {u : ⊤} {w1 : World}
            → CheckEnd req w (ok u, w1)
            → let (r, w') = place_order env cm base req w1 in Created cm base req w r w'
        after_check (failed bad s) = absurd cc
        after_check {w1 = w1} (passed good c s) = place_order-Created req w w1 c s

        stopped :
            {x : GoError} {w1 : World}
            → CheckEnd req w (err x, w1)
            → Created cm base req w (err x) w1
        stopped (failed bad s) = refused refl s.db s.calls
        stopped (passed good c s) = absurd cc
