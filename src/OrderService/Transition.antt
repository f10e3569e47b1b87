-- ===== src/OrderService/Transition.antt =====
-- What `UpdateOrderStatus` does to a row, on every path, whatever statements fail.
use go_pay.Prelude.{
  ◌∙◌, ap, ℕ, String, ⊤, ◌==◌, ◌&&◌, not, Bool-cases, false, Option, some, ◌≡◌, ◌≢◌, arith, find,
  Option-cases, inl, inr, ◌+◌, eq_iff, none,
}
use go_pay.Prelude.Int.{ℤ}
use go_pay.Errors.{GoError, wrap, Result, ok, err}
use go_pay.Sql.{scan}
use go_pay.Errors.Make.{new_order_paid, new_order_closed, new_order_not_found}
use go_pay.Models.{Order}
use go_pay.Models.OrderStatus
use go_pay.World.Laws.{bind-ok, map_error-eq, begin-eq, query-eq}
use go_pay.World.{running, tick, Db, World, Env}
use go_pay.OrderService.Queries.{has_order_no, not_found_or}
use go_pay.OrderService.Status.{
  write_status, update_order, set_status, update_locked, update_order_status,
}

-- The statuses between which a row may be moved: out of every status but `refunded` and `closed`,
-- and out of `paid` only to `refunded`.
pub record Allowed (current status : String) : Type 0 where
  pub paid_only_refunds : current ≡ OrderStatus.paid → status ≡ OrderStatus.refunded
  pub not_refunded : current ≢ OrderStatus.refunded
  pub not_closed : current ≢ OrderStatus.closed

-- The ways in which a call may end.
pub data Effect (order_no status : String) (paid_at : Option ℕ) (db : Db) (r : Result ⊤) (db' : Db)
    : Type 0 where
  refused : (e : GoError) → r ≡ err e → db' ≡ db → Effect order_no status paid_at db r db'
  kept :
      (o : Order)
      → find (has_order_no order_no) db.orders ≡ some o
      → o.status ≡ OrderStatus.refunded
      → status ≡ OrderStatus.refunded
      → r ≡ ok tt
      → db' ≡ db
      → Effect order_no status paid_at db r db'
  written :
      (o : Order) (now : ℕ)
      → find (has_order_no order_no) db.orders ≡ some o
      → Allowed o.status status
      → r ≡ ok tt
      → db' ≡ update_order order_no (set_status status paid_at now) db
      → Effect order_no status paid_at db r db'

Allowed-of-tests :
    (current status : String)
    → ((current == OrderStatus.paid) && not (status == OrderStatus.refunded)) ≡ false
    → (current == OrderStatus.refunded) ≡ false
    → (current == OrderStatus.closed) ≡ false
    → Allowed current status
Allowed-of-tests current status t c d = record {
  paid_only_refunds =
      λ p. ground (arith, eq_iff current OrderStatus.paid, eq_iff status OrderStatus.refunded);
  not_refunded = λ p. ground (arith, eq_iff current OrderStatus.refunded);
  not_closed = λ p. ground (arith, eq_iff current OrderStatus.closed);
}

module _ (env : Env) where
  write_status-Effect :
      (order_no status : String) (paid_at : Option ℕ) (o : Order) (w : World)
      → find (has_order_no order_no) w.db.orders ≡ some o
      → Allowed o.status status
      → let (r, w') = write_status env order_no status paid_at w in
        Effect order_no status paid_at w.db r w'.db
  unfolding write_status running
  write_status-Effect order_no status paid_at o w h a =
      elim (Option-cases (env.fault w.statements)) [
        | inr (e, f) ↦
            refused (wrap "failed to update order status" e) (ground arith) (ground arith)
        | inl none_first ↦ elim (Option-cases (env.fault (w.statements + 1))) [
          | inr (e, f) ↦
              refused (wrap "failed to commit transaction" e) (ground arith) (ground arith)
          | inl f ↦ written o (env.sql_now w.statements) h a (ground arith) (ground arith)
        ]
      ]

  update_locked-Effect :
      (order_no status : String) (paid_at : Option ℕ) (o : Order) (w : World)
      → find (has_order_no order_no) w.db.orders ≡ some o
      → let (r, w') = update_locked env order_no status paid_at o.status w in
        Effect order_no status paid_at w.db r w'.db
  unfolding update_locked
  update_locked-Effect order_no status paid_at o w h =
      elim (Bool-cases ((o.status == OrderStatus.paid) && not (status == OrderStatus.refunded))) [
        | inl t ↦ refused (new_order_paid order_no) (ground arith) (ground arith)
        | inr t ↦ elim (Bool-cases (o.status == OrderStatus.refunded)) [
          | inl c ↦ elim (Bool-cases (status == OrderStatus.refunded)) [
            | inl s ↦ kept o h ((eq_iff _ _).0 c) ((eq_iff _ _).0 s) (ground arith) (ground arith)
            | inr s ↦ refused (new_order_paid order_no) (ground arith) (ground arith)
          ]
          | inr c ↦ elim (Bool-cases (o.status == OrderStatus.closed)) [
            | inl d ↦ refused (new_order_closed order_no) (ground arith) (ground arith)
            | inr d ↦
                rw (update_locked, t, c, d)
                  (write_status-Effect order_no status paid_at o w h
                    (Allowed-of-tests o.status status t c d))
          ]
        ]
      ]

  -- With the row locked, the rest of the transaction runs on its status.
  pub update_order_status-locked :
      (order_no status : String) (paid_at : Option ℕ) (paid_amount : ℤ) (w : World) (o : Order)
      → env.fault w.statements ≡ none
      → env.fault (w.statements + 1) ≡ none
      → find (has_order_no order_no) w.db.orders ≡ some o
      → update_order_status env order_no status paid_at paid_amount w
        ≡ update_locked env order_no status paid_at o.status (tick (tick w))
  unfolding update_order_status
  update_order_status-locked order_no status paid_at paid_amount w o f g found =
      bind-ok _ _ w (map_error-eq _ _ w (begin-eq env w f))
      ∙ bind-ok _ _ (tick w) (map_error-eq _ _ (tick w) (query-eq env _ (tick w) g (ap scan found)))

  -- Every call ends in one of three ways: it is refused and writes nothing; the row was refunded
  -- and is left alone; or the row was in a status that may be left for the new one, and exactly
  -- the rows of this order get the new status and time.
  pub update_order_status-Effect :
      (order_no status : String) (paid_at : Option ℕ) (paid_amount : ℤ) (w : World)
      → let (r, w') = update_order_status env order_no status paid_at paid_amount w in
        Effect order_no status paid_at w.db r w'.db
  unfolding update_order_status running
  update_order_status-Effect order_no status paid_at paid_amount w =
      elim (Option-cases (env.fault w.statements)) [
        | inr (e, f) ↦ refused (wrap "failed to begin transaction" e) (ground arith) (ground arith)
        | inl f ↦ elim (Option-cases (env.fault (w.statements + 1))) [
          | inr (e, g) ↦
              refused (not_found_or order_no "failed to lock order" e) (ground arith) (ground arith)
          | inl g ↦ elim (Option-cases (find (has_order_no order_no) w.db.orders)) [
            | inl missing ↦ refused (new_order_not_found order_no) (ground arith) (ground arith)
            | inr (o, found) ↦
                rw (update_order_status-locked order_no status paid_at paid_amount w o f g found)
                  (update_locked-Effect order_no status paid_at o (tick (tick w)) found)
          ]
        ]
      ]
