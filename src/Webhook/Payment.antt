-- ===== src/Webhook/Payment.antt =====
-- What the first report of a payment does.
use go_pay.Prelude.{
  ℕ, ◌+◌, String, true, false, Option, none, some, [], ◌∷◌, ◌++◌, ◌≡◌, refl, sym, ap, ◌∙◌, inl, inr,
  arith, Bool-cases, find, ltb, length,
}
use mathlib.Core.Path.{subst}
use go_pay.Prelude.Int.{ℤ}
use go_pay.Errors.{ok}
use go_pay.Models.{Order, NotifyLog}
use go_pay.Models.OrderStatus
use go_pay.Channel.{WebhookResponse}
use go_pay.Channel.ChannelStatus
use go_pay.World.{World, Task, Env, exec_in, commit, tick, running, attempt}
use go_pay.World.Laws.{bind-ok, attempt-eq, map_error-eq, statement-ok}
use go_pay.OrderService.Queries.{has_order_no}
use go_pay.OrderService.Status.{
  update_order, set_status, write_status, update_locked, update_order_status,
}
use go_pay.OrderService.Transition.{update_order_status-locked}
use go_pay.NotifyService.Post.{save_notify_log, build_notify_request_body}
use go_pay.NotifyService.Pool.{
  pool_size, deferred_log, record_deferred_notify, start_or_defer, notify_async,
}
use go_pay.Webhook.Settle.{time_of, settle_refund, settle}
use go_pay.Webhook.Duplicates.{time_of-same}

-- A goroutine with a token of the pool, or a record that the pool was full.
pub data Notified (o : Order) (w w' : World) : Type 0 where
  started :
      ltb w.pool pool_size ≡ true
      → w'.tasks ≡ w.tasks ++ Task.notify o ∷ []
      → w'.pool ≡ w.pool + 1
      → w'.db.notify_logs ≡ w.db.notify_logs
      → Notified o w w'
  deferred :
      ltb w.pool pool_size ≡ false
      → w'.tasks ≡ w.tasks
      → w'.pool ≡ w.pool
      → (l : NotifyLog) → w'.db.notify_logs ≡ w.db.notify_logs ++ l ∷ []
      → l.order_no ≡ o.order_no
      → Notified o w w'

-- A row that is still pending is written, and the notification starts or is recorded.
abbrev pub Settled : Order → World → World → Type 0
Settled o w w' =
    (t : ℕ) × (now : ℕ) × (w'.db.orders
      ≡ (update_order o.order_no (set_status OrderStatus.paid (some t) now) w.db).orders)
    × Notified o w w'

Notified-from :
    (o : Order) (w v w' : World)
    → v.tasks ≡ w.tasks
    → v.pool ≡ w.pool
    → v.db.notify_logs ≡ w.db.notify_logs
    → Notified o v w'
    → Notified o w w'
Notified-from o w v w' t p l (started h a b c) =
    started (ap (λ n. ltb n pool_size) (sym p) ∙ h) (a ∙ ap (λ ts. ts ++ Task.notify o ∷ []) t)
      (b ∙ ap (λ n. n + 1) p) (c ∙ l)
Notified-from o w v w' t p l (deferred h a b log c e) =
    deferred (ap (λ n. ltb n pool_size) (sym p) ∙ h) (a ∙ t) (b ∙ p) log
      (c ∙ ap (λ ls. ls ++ log ∷ []) l) e

module _ (env : Env) (up : (n : ℕ) → env.fault n ≡ none) where
  write_status-eq :
      (n s : String) (t : Option ℕ) (w : World)
      → write_status env n s t w ≡ (
        ok tt,
        record w {
          db = update_order n (set_status s t (env.sql_now w.statements)) w.db;
          statements = w.statements + 1 + 1;
        },
      )
  unfolding write_status exec_in commit
  write_status-eq n s t w =
      bind-ok _ _ w (map_error-eq _ _ w (statement-ok env _ w (up w.statements)))
      ∙ map_error-eq _ _ (tick w) (statement-ok env _ (tick w) (up (w.statements + 1)))

  notify_async-Notified :
      (o : Order) (w : World)
      → let (r, w') = notify_async env o w in
        (r ≡ ok tt) × Notified o w w' × (w'.db.orders ≡ w.db.orders)
  unfolding notify_async start_or_defer record_deferred_notify save_notify_log running
  notify_async-Notified o w = elim (Bool-cases (ltb w.pool pool_size)) [
    | inl h ↦ (ground arith, started h (ground arith) (ground arith) (ground arith), ground arith)
    | inr h ↦ (
      ground (arith, up w.statements),
      deferred h (ground (arith, up w.statements)) (ground (arith, up w.statements)) log
          (ground (arith, up w.statements)) refl,
      ground (arith, up w.statements),
    )
  ]
    where
      log : NotifyLog
      log =
          record (deferred_log o "worker pool is full, notify deferred"
            (build_notify_request_body env o)) {
              id = length w.db.notify_logs + 1;
              created_at = env.sql_now w.statements;
            }

  update-paid :
      (o row : Order) (t : ℕ) (amount : ℤ) (w : World)
      → find (has_order_no o.order_no) w.db.orders ≡ some row
      → row.status ≡ OrderStatus.pending
      → update_order_status env o.order_no OrderStatus.paid (some t) amount w ≡ (
        ok tt,
        record w {
          db =
              update_order o.order_no
                (set_status OrderStatus.paid (some t) (env.sql_now (w.statements + 1 + 1)))
                w.db;
          statements = w.statements + 1 + 1 + 1 + 1;
        },
      )
  unfolding update_locked
  update-paid o row t amount w found open_row =
      update_order_status-locked env o.order_no OrderStatus.paid (some t) amount w row
        (up w.statements) (up (w.statements + 1)) found
      ∙ rw open_row (write_status-eq o.order_no OrderStatus.paid (some t) (tick (tick w)))

  settle_refund-paid :
      (o : Order) (resp : WebhookResponse) (w : World)
      → resp.status ≡ ChannelStatus.paid
      → settle_refund env o resp w ≡ (ok tt, w)
  unfolding settle_refund
  settle_refund-paid o resp w h = rw h refl

  -- With a database that does not fail, the first report of a payment sets the rows of its order,
  -- still pending, to `paid`, and starts one notification of the order as it was read; where the
  -- pool is full it starts none, and a log entry records that instead.
  pub settle-Settled :
      (o row : Order) (resp : WebhookResponse) (w : World)
      → resp.status ≡ ChannelStatus.paid
      → find (has_order_no o.order_no) w.db.orders ≡ some row
      → row.status ≡ OrderStatus.pending
      → Settled o w (settle env o resp w).1
  unfolding settle
  settle-Settled o row resp w reported found open_row =
      let (t, w1, e, d, u) = time_of-same env resp w in
      let n = o.order_no in
      let now = env.sql_now (w1.statements + 1 + 1) in
      let w3 = record w1 {
        db = update_order n (set_status OrderStatus.paid (some t) now) w1.db;
        statements = w1.statements + 1 + 1 + 1 + 1;
      } in
      let paid =
        update-paid o row t resp.paid_amount w1
          (ap (λ db. find (has_order_no n) db.orders) d ∙ found) open_row in
      let w4 = (notify_async env o w3).1 in
      let (r, notified, orders) = notify_async-Notified o w3 in
      rw reported (
        subst (λ x. Settled o w x.1)
          (sym (bind-ok (time_of env resp) _ w e ∙ bind-ok (attempt _) _ w1 (attempt-eq _ w1 paid)))
          (subst (λ x. Settled o w x.1)
            (sym (
              bind-ok (notify_async env o) _ w3 (ap (λ x. (x, w4)) r)
              ∙ settle_refund-paid o resp w4 reported))
            (
              t,
              now,
              orders
                  ∙ ap (λ db. (update_order n (set_status OrderStatus.paid (some t) now) db).orders)
                      d,
              Notified-from o w w3 w4 u.tasks u.pool (ap (λ db. db.notify_logs) d) notified,
            )))
