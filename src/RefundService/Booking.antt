-- ===== src/RefundService/Booking.antt =====
-- What `refundOrder` leaves in the tables once the channel has answered.
use go_pay.Prelude.{
  ℕ, String, ⊤, Option, none, some, ◌==◌, ◌≡◌, refl, sym, inl, inr, ◌∙◌, ap, arith, update, eq_iff,
  Bool-cases, Option-cases,
}
use mathlib.Core.Path.{subst}
use go_pay.Errors.{GoError, wrap, Result, ok, err}
use go_pay.Models.{Order, Transaction}
use go_pay.Channel
use go_pay.Channel.{RefundProvider, PaymentChannel}
use go_pay.Channel.RefundStatus
use go_pay.World.{Db, World, Env, M, running, map_error, statement, lift, pure, ◌>>=◌, ◌>>◌}
use go_pay.World.Laws.{bind_rule}
use go_pay.OrderService.Queries.{has_order_no}
use go_pay.RefundService.{
  RefundResponse, insert_transaction, mark_refunded, generate_transaction_no, refund_transaction,
  refund_response, save_refund_transaction, update_refund_status,
}

-- What is left in the table of orders after the channel has answered: the rows as they were, or
-- the refunded status where the answer was a success.
pub data Booked (o : Order) (answer : Result (Option Channel.RefundResponse)) (db db' : Db)
    : Type 0 where
  unchanged : db'.orders ≡ db.orders → Booked o answer db db'
  marked :
      (resp : Channel.RefundResponse) (now : ℕ)
      → answer ≡ ok (some resp)
      → resp.status ≡ RefundStatus.success
      → db'.orders ≡ update (has_order_no o.order_no) (mark_refunded now) db.orders
      → Booked o answer db db'

insert_transaction-orders :
    (t : Transaction) (now : ℕ) (db : Db) → (insert_transaction t now db).1.orders ≡ db.orders
unfolding insert_transaction
insert_transaction-orders t now db = ground arith

pub record Same (w w' : World) : Type 0 where
  pub orders : w'.db.orders ≡ w.db.orders
  pub calls : w'.channel_calls ≡ w.channel_calls

pub Same-trans : {a b c : World} → Same a b → Same b c → Same a c
Same-trans h k = record { orders = k.orders ∙ h.orders; calls = k.calls ∙ h.calls }

module _ (env : Env) where
  pub number-Same : (w : World) → Same w (generate_transaction_no env w).1
  unfolding generate_transaction_no running
  number-Same w = record { orders = refl; calls = refl }

  insert-Same :
      (t : Transaction) (g : GoError → GoError) (w : World)
      → Same w (map_error g (statement env (insert_transaction t)) w).1
  unfolding running
  insert-Same t g w = elim (Option-cases (env.fault w.statements)) [
    | inr (e, f) ↦ record { orders = ground arith; calls = ground arith }
    | inl f ↦ record {
      orders = ground (arith, insert_transaction-orders t (env.sql_now w.statements) w.db);
      calls = ground arith;
    }
  ]

  save_rule :
      (P : Result Channel.RefundResponse × World → Type 0) (o : Order)
      (resp : Channel.RefundResponse) (w : World)
      → ((w' : World) → Same w w' → P (ok resp, w'))
      → ((e : GoError) (w' : World) → Same w w' → P (err e, w'))
      → P (save_refund_transaction env o (some resp) w)
  unfolding save_refund_transaction
  save_rule P o resp w h k =
      bind_rule P (generate_transaction_no env) _ w
        (λ n w1 e.
          bind_rule P
            (map_error _ (statement env (insert_transaction (refund_transaction env o resp n)))) _
            w1 (λ a w2 p. h w2 (Same-trans (moved w n e) (inserted n w1 p)))
            (λ x w2 p. k x w2 (Same-trans (moved w n e) (inserted n w1 p))))
        (λ x w1 e. k x w1 (subst (λ y. Same w y.1) e (number-Same w)))
    where
      moved :
          (w : World) (n : String) {w1 : World}
          → generate_transaction_no env w ≡ (ok n, w1)
          → Same w w1
      moved w n e = subst (λ y. Same w y.1) e (number-Same w)

      inserted :
          (n : String) (w1 : World) {r : Result ⊤} {w2 : World}
          → map_error
              (wrap "save refund transaction failed")
              (statement env (insert_transaction (refund_transaction env o resp n)))
              w1
            ≡ (r, w2)
          → Same w1 w2
      inserted n w1 p = subst (λ y. Same w1 y.1) p (insert-Same _ _ w1)

  update-Booked :
      (o : Order) (answer : Result (Option Channel.RefundResponse)) (resp : Channel.RefundResponse)
      (w : World)
      → answer ≡ ok (some resp)
      → let w' = (update_refund_status env o.order_no resp.status w).1 in
        Booked o answer w.db w'.db × (w'.channel_calls ≡ w.channel_calls)
  unfolding update_refund_status running
  update-Booked o answer resp w a = elim (Bool-cases (resp.status == RefundStatus.success)) [
    | inr s ↦ (unchanged (ground arith), ground arith)
    | inl s ↦ elim (Option-cases (env.fault w.statements)) [
      | inr (e, f) ↦ (unchanged (ground arith), ground arith)
      | inl f ↦
          (marked resp (env.sql_now w.statements) a ((eq_iff _ _).0 s) (ground arith), ground arith)
    ]
  ]

  pub Booked-from :
      {o : Order} {answer : Result (Option Channel.RefundResponse)} (a b c : Db)
      → b.orders ≡ a.orders
      → Booked o answer b c
      → Booked o answer a c
  Booked-from a b c h (unchanged e) = unchanged (e ∙ h)
  Booked-from {o} a b c h (marked resp now s t e) =
      marked resp now s t (e ∙ ap (update (has_order_no o.order_no) (mark_refunded now)) h)

  -- The code after the channel's answer.
  abbrev pub book : Order → Result (Option Channel.RefundResponse) → M RefundResponse
  book o answer = lift answer >>= λ a. save_refund_transaction env o a >>= λ resp.
      update_refund_status env o.order_no resp.status >> pure (refund_response o resp)

  pub book-Booked :
      (o : Order) (answer : Result (Option Channel.RefundResponse)) (w : World)
      → let w' = (book o answer w).1 in
        Booked o answer w.db w'.db × (w'.channel_calls ≡ w.channel_calls)
  unfolding running save_refund_transaction
  book-Booked o (err e) w = (unchanged refl, refl)
  book-Booked o (ok none) w = (unchanged refl, refl)
  book-Booked o (ok (some resp)) w =
      bind_rule P (save_refund_transaction env o (some resp))
        (λ r. update_refund_status env o.order_no r.status >> pure (refund_response o r)) w
        (λ r w1 e.
          let s : Saved (ok r, w1) = subst Saved e saved in marked_after r w1 s.0 (s.1 r refl))
        (λ x w1 e.
          let s : Saved (err x, w1) = subst Saved e saved in (unchanged s.0.orders, s.0.calls))
    where
      P : Result RefundResponse × World → Type 0
      P x = Booked o (ok (some resp)) w.db x.1.db × (x.1.channel_calls ≡ w.channel_calls)

      Saved : Result Channel.RefundResponse × World → Type 0
      Saved x = Same w x.1 × ((r : Channel.RefundResponse) → x.0 ≡ ok r → r ≡ resp)

      saved : Saved (save_refund_transaction env o (some resp) w)
      saved = save_rule Saved o resp w (λ w' s. (s, λ r p. cc)) (λ x w' s. (s, λ r p. cc))

      marked_after :
          (r : Channel.RefundResponse) (w1 : World)
          → Same w w1
          → r ≡ resp
          → P ((update_refund_status env o.order_no r.status >> pure (refund_response o r)) w1)
      marked_after r w1 s e =
          let b = update-Booked o (ok (some resp)) r w1 (ap (λ x. ok (some x)) (sym e)) in
          bind_rule P (update_refund_status env o.order_no r.status)
            (λ _. pure (refund_response o r)) w1 (λ a w2 p. kept_by w1 w2 s (subst (Q w1) p b))
            (λ x w2 p. kept_by w1 w2 s (subst (Q w1) p b))
        where
          Q : World → Result ⊤ × World → Type 0
          Q w1 x = Booked o (ok (some resp)) w1.db x.1.db × (x.1.channel_calls ≡ w1.channel_calls)

          kept_by :
              (w1 w2 : World)
              → Same w w1
              → Booked o (ok (some resp)) w1.db w2.db × (w2.channel_calls ≡ w1.channel_calls)
              → Booked o (ok (some resp)) w.db w2.db × (w2.channel_calls ≡ w.channel_calls)
          kept_by w1 w2 s (b, c) = (Booked-from w.db w1.db w2.db s.orders b, c ∙ s.calls)
