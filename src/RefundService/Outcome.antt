-- ===== src/RefundService/Outcome.antt =====
-- What a refund may do: which requests reach the channel, and which rows it writes.
use go_pay.Prelude.{
  String, true, false, Bool, some, [], ◌∷◌, ◌++◌, ◌==◌, ◌≡◌, ◌≢◌, refl, sym, inl, inr, ◌∙◌, ap,
  arith, find, eq_iff, Bool-cases, Option-cases,
}
use mathlib.Core.Path.{subst}
use go_pay.Prelude.Int.{ℤ, ltb_ℤ, ◌≤ℤ◌}
use go_pay.Errors.{GoError, plain, Result, ok, err, Result-cases}
use go_pay.Sql.{scan}
use go_pay.Models.{Order}
use go_pay.Models.OrderStatus
use go_pay.Channel.{RefundProvider, PaymentChannel}
use go_pay.World.{
  World, ChannelCall, Env, ChannelManager, running, tick, lift, ◌>>=◌, ◌>>◌, call_channel,
}
use go_pay.World.Laws.{bind_rule, bind-ok, bind-err, map_error-eq, query-eq, query-err}
use go_pay.OrderService.Queries.{has_order_no, query_order, get_order_by_order_no}
use go_pay.RefundService.{
  RefundRequest, RefundResponse, refund_amount, channel_refund, generate_refund_no,
  refund_provider_of, refund_capable, submit_refund, refund_order, refund, not_paid_error,
}
use go_pay.Errors.Make.{new_invalid_amount, new_invalid_request}
use go_pay.RefundService.Booking.{Booked, Same, Booked-from, book, book-Booked}

-- What a submission to the channel of a paid order may leave behind.
pub data Submitted (cm : ChannelManager) (o : Order) (amount : ℤ) (reason : String) (w : World)
    (r : Result RefundResponse) (w' : World) : Type 0 where
  no_channel :
      (e : GoError)
      → r ≡ err e
      → w'.db ≡ w.db
      → w'.channel_calls ≡ w.channel_calls
      → Submitted cm o amount reason w r w'
  asked :
      (p : PaymentChannel) (rp : RefundProvider) (refund_no : String)
      → cm.get_provider o.app_id o.channel ≡ ok p
      → p.refund_provider ≡ some rp
      → w'.channel_calls
        ≡ w.channel_calls ++ ChannelCall.refund (channel_refund o refund_no amount reason) ∷ []
      → Booked o (rp.refund (channel_refund o refund_no amount reason)) w.db w'.db
      → Submitted cm o amount reason w r w'

-- The ways in which `Refund` may end.
pub data Refunded (cm : ChannelManager) (req : RefundRequest) (w : World)
    (r : Result RefundResponse) (w' : World) : Type 0 where
  refused :
      (e : GoError)
      → r ≡ err e
      → w'.db ≡ w.db
      → w'.channel_calls ≡ w.channel_calls
      → Refunded cm req w r w'
  submitted :
      (o : Order)
      → find (has_order_no req.order_no) w.db.orders ≡ some o
      → o.status ≡ OrderStatus.paid
      → refund_amount req.amount o.amount ≤ℤ o.amount
      → Submitted cm o (refund_amount req.amount o.amount) req.reason w r w'
      → Refunded cm req w r w'

Submitted-from :
    {cm : ChannelManager} {o : Order} {amount : ℤ} {reason : String} {r : Result RefundResponse}
    (w w' : World)
    → Submitted cm o amount reason (tick w) r w'
    → Submitted cm o amount reason w r w'
Submitted-from w w' (no_channel e p q c) = no_channel e p q c
Submitted-from w w' (asked p rp n g h c b) = asked p rp n g h c b

le_of_not_ltb : (a b : ℤ) → ltb_ℤ a b ≡ false → b ≤ℤ a
le_of_not_ltb a b h = ground arith

module _ (env : Env) where
  module _ (cm : ChannelManager) where
    Provided : (o : Order) (w : World) (x : Result RefundProvider × World) → Type 0
    Provided o w x =
        (x.1 ≡ w)
        × ((rp : RefundProvider)
            → x.0 ≡ ok rp
            → (p : PaymentChannel) × (cm.get_provider o.app_id o.channel ≡ ok p)
              × (p.refund_provider ≡ some rp))

    refund_provider_of-Provided :
        (o : Order) (w : World) → Provided o w (refund_provider_of env cm o w)
    unfolding running Provided
    refund_provider_of-Provided o w = elim (Result-cases (cm.get_provider o.app_id o.channel)) [
      | inl (e, g) ↦ rw g (refl, λ rp h. absurd cc)
      | inr (p, g) ↦ elim (Option-cases p.refund_provider) [
        | inl h ↦ rw (g, h) (refl, λ rp h. absurd cc)
        | inr (rp, h) ↦
            subst (Provided o w)
              (sym (
                bind-ok (lift (cm.get_provider o.app_id o.channel)) (λ q. lift (refund_capable o q))
                  w (ap (λ r. (r, w)) g)
                ∙ rw (h, refund_capable) refl))
              (refl, λ rp' e. (p, g, h ∙ ap some (ok_same e)))
      ]
    ]
      where
        ok_same : {a b : RefundProvider} → ok a ≡ ok b → a ≡ b
        ok_same h = cc

    generate_refund_no-ok :
        (w : World) {x : Result String × World}
        → generate_refund_no env w ≡ x
        → Same w x.1 × (x.1.db ≡ w.db) × ((e : GoError) → x.0 ≢ err e)
    unfolding generate_refund_no running
    generate_refund_no-ok w h =
        subst (λ x. Same w x.1 × (x.1.db ≡ w.db) × ((e : GoError) → x.0 ≢ err e)) h
          (record { orders = refl; calls = refl }, refl, λ e p. absurd cc)

    -- The call itself, and what follows it.
    submit-sent :
        (o : Order) (amount : ℤ) (reason : String) (w : World) (rp : RefundProvider) (n : String)
        (p : PaymentChannel)
        → cm.get_provider o.app_id o.channel ≡ ok p
        → p.refund_provider ≡ some rp
        → (w2 : World) → w2.db ≡ w.db
        → w2.channel_calls ≡ w.channel_calls
        → let (r, w') =
            (call_channel (ChannelCall.refund (channel_refund o n amount reason))
                >> book env o (rp.refund (channel_refund o n amount reason)))
              w2 in
          Submitted cm o amount reason w r w'
    submit-sent o amount reason w rp n p g h w2 d c =
        let call = ChannelCall.refund (channel_refund o n amount reason) in
        let b =
          book-Booked env o (rp.refund (channel_refund o n amount reason))
            (record w2 { channel_calls = w2.channel_calls ++ call ∷ [] }) in
        subst (λ x. Submitted cm o amount reason w x.0 x.1)
          (sym (
            bind-ok (call_channel call)
              (λ _. book env o (rp.refund (channel_refund o n amount reason))) w2 refl))
          (asked p rp n g h (b.1 ∙ ap (λ cs. cs ++ call ∷ []) c)
            (Booked-from env w.db w2.db _ (ap (λ v. v.orders) d) b.0))

    submit_refund-Submitted :
        (o : Order) (amount : ℤ) (reason : String) (w : World)
        → let (r, w') = submit_refund env cm o amount reason w in
          Submitted cm o amount reason w r w'
    unfolding submit_refund Provided
    submit_refund-Submitted o amount reason w =
        bind_rule P (refund_provider_of env cm o) _ w
          (λ rp w1 e.
            let f = subst (Provided o w) e (refund_provider_of-Provided o w) in
            let (p, g, h) = f.1 rp refl in
            bind_rule P (generate_refund_no env) _ w1
              (λ n w2 e2.
                let (s, d, _) = generate_refund_no-ok w1 e2 in
                submit-sent o amount reason w rp n p g h w2 (d ∙ ap (λ v. v.db) f.0)
                  (s.calls ∙ ap (λ v. v.channel_calls) f.0))
              (λ x w2 e2. absurd ((generate_refund_no-ok w1 e2).2 x refl)))
          (λ x w1 e.
            let f = subst (Provided o w) e (refund_provider_of-Provided o w) in
            no_channel x refl (ap (λ v. v.db) f.0) (ap (λ v. v.channel_calls) f.0))
      where
        P : Result RefundResponse × World → Type 0
        P x = Submitted cm o amount reason w x.0 x.1

    refund_order-Refunded :
        (o : Order) (req : RefundRequest) (w : World)
        → find (has_order_no req.order_no) w.db.orders ≡ some o
        → let (r, w') = refund_order env cm o req (tick w) in Refunded cm req w r w'
    unfolding refund_order
    refund_order-Refunded o req w found = elim (Bool-cases (o.status == OrderStatus.paid)) [
      | inr s ↦ refused (not_paid_error req.order_no o) (rw s refl) (rw s refl) (rw s refl)
      | inl s ↦ elim (Bool-cases (ltb_ℤ o.amount (refund_amount req.amount o.amount))) [
        | inl l ↦
            refused (new_invalid_amount (refund_amount req.amount o.amount)) (rw (s, l) refl)
              (rw (s, l) refl) (rw (s, l) refl)
        | inr l ↦
            rw (s, l)
              (submitted o found ((eq_iff _ _).0 s)
                (le_of_not_ltb o.amount (refund_amount req.amount o.amount) l)
                (Submitted-from w _ (submit_refund-Submitted o _ req.reason (tick w))))
      ]
    ]

    queried :
        (req : RefundRequest) (w : World)
        → let (r, w') = (query_order env req.order_no >>= λ o. refund_order env cm o req) w in
          Refunded cm req w r w'
    unfolding query_order get_order_by_order_no
    queried req w = elim (Option-cases (env.fault w.statements)) [
      | inr (e, f) ↦ stopped _ (map_error-eq _ _ w (query-err env _ w f))
      | inl f ↦ elim (Option-cases (find (has_order_no req.order_no) w.db.orders)) [
        | inl h ↦ stopped _ (map_error-eq _ _ w (query-eq env _ w f (ap scan h)))
        | inr (o, h) ↦
            subst (λ x. Refunded cm req w x.0 x.1)
              (sym (
                bind-ok (query_order env req.order_no) (λ o. refund_order env cm o req) w
                  (map_error-eq _ _ w (query-eq env _ w f (ap scan h)))))
              (refund_order-Refunded o req w h)
      ]
    ]
      where
        stopped :
            (e : GoError)
            → query_order env req.order_no w ≡ (err e, tick w)
            → let (r, w') = (query_order env req.order_no >>= λ o. refund_order env cm o req) w in
              Refunded cm req w r w'
        stopped e h =
            subst (λ x. Refunded cm req w x.0 x.1)
              (sym (bind-err (query_order env req.order_no) (λ o. refund_order env cm o req) w h))
              (refused e refl refl refl)

    -- A refund is refused, without a word to the channel or a write to a table, unless the order
    -- that it names is paid and the amount, the whole order where none is asked for, is at most the
    -- order's. Then at most one request reaches the channel of the order, for just that amount,
    -- and the orders stay as they were, except that this order may become refunded where the
    -- channel answered with a success.
    pub refund-Refunded :
        (initialized : Bool) (req : RefundRequest) (w : World)
        → let (r, w') = refund env cm initialized (some req) w in Refunded cm req w r w'
    unfolding refund
    refund-Refunded false req w = refused (plain _) refl refl refl
    refund-Refunded true req w = elim (Bool-cases (req.order_no == "")) [
      | inl s ↦ refused (new_invalid_request "订单号不能为空" []) (rw s refl) (rw s refl) (rw s refl)
      | inr s ↦ rw s (queried req w)
    ]
