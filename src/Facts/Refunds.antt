-- ===== src/Facts/Refunds.antt =====
-- internal/service/refund_service.go: the facts of the orders (`OrderFact`) through its methods.
use go_pay.Prelude.{ℕ, String, Bool, Option, none, some, refl, ◌==◌, Option-cases, inl, inr, find}
use go_pay.Prelude.Int.{ℤ}
use go_pay.Models.{Order, Transaction}
use go_pay.Channel
use go_pay.World.{Db, Env, ChannelManager}
use go_pay.World.Keeps.{Keeps, Keeps-raise, Keeps-statement, Keeps-exec, keeps_rules}
use go_pay.OrderService.Queries.{has_order_no}
use go_pay.RefundService.{
  RefundRequest, insert_transaction, generate_refund_no, generate_transaction_no,
  save_refund_transaction, update_refund_status, submit_refund, refund_order, refund, query_refund,
}
use go_pay.Facts.{OrderFact}
use go_pay.Facts.Orders.{query_order-Keeps}

module _ (F : OrderFact) (env : Env) where
  open F use {Rel, keep}

  insert_transaction-Rel :
      (t : Transaction) (now : ℕ) (db : Db) → Rel db (insert_transaction t now db).1
  unfolding insert_transaction
  insert_transaction-Rel t now db =
      elim (Option-cases
        (find (λ (s : Transaction). s.transaction_no == t.transaction_no) db.transactions)) [
          | inr (x, h) ↦ rw h (keep db)
          | inl h ↦ elim (Option-cases (find (has_order_no t.order_no) db.orders)) [
            | inr (o, k) ↦ rw (h, k) (F.same_orders db _ refl refl)
            | inl k ↦ rw (h, k) (keep db)
          ]
        ]

  generate_refund_no-Keeps : Keeps F.kept (generate_refund_no env)
  unfolding generate_refund_no
  generate_refund_no-Keeps = search keeps_rules depth 10

  generate_transaction_no-Keeps : Keeps F.kept (generate_transaction_no env)
  unfolding generate_transaction_no
  generate_transaction_no-Keeps = search keeps_rules depth 10

  save_refund_transaction-Keeps :
      (o : Order) (resp : Option Channel.RefundResponse)
      → Keeps F.kept (save_refund_transaction env o resp)
  unfolding save_refund_transaction
  save_refund_transaction-Keeps o none = Keeps-raise _
  save_refund_transaction-Keeps o (some resp) =
      search (keeps_rules, generate_transaction_no-Keeps, Keeps-statement, insert_transaction-Rel)
        depth 8

  update_refund_status-Keeps : (n s : String) → Keeps F.kept (update_refund_status env n s)
  unfolding update_refund_status
  update_refund_status-Keeps n s = search (keeps_rules, Keeps-exec, F.on_refunded n)

  module _ (cm : ChannelManager) where
    submit_refund-Keeps :
        (o : Order) (amount : ℤ) (reason : String)
        → Keeps F.kept (submit_refund env cm o amount reason)
    unfolding submit_refund
    submit_refund-Keeps o amount reason =
        search
          (
            keeps_rules, generate_refund_no-Keeps, save_refund_transaction-Keeps,
            update_refund_status-Keeps,
          )
          depth 16

    refund_order-Keeps :
        (o : Order) (req : RefundRequest) → Keeps F.kept (refund_order env cm o req)
    unfolding refund_order
    refund_order-Keeps o req = search (keeps_rules, submit_refund-Keeps)

    pub refund-Keeps :
        (ready : Bool) (req : Option RefundRequest) → Keeps F.kept (refund env cm ready req)
    unfolding refund
    refund-Keeps ready none = search keeps_rules
    refund-Keeps ready (some req) =
        search (keeps_rules, query_order-Keeps, refund_order-Keeps) depth 8

    pub query_refund-Keeps :
        (ready : Bool) (n r : String) → Keeps F.kept (query_refund env cm ready n r)
    unfolding query_refund
    query_refund-Keeps ready n r = search (keeps_rules, query_order-Keeps) depth 16
