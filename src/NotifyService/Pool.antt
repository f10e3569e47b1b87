-- ===== src/NotifyService/Pool.antt =====
-- The goroutines of internal/service/notify_service.go: `NotifyAsync` and `NotifyRefundAsync`
-- start one if a token of the worker pool is free, `RetryNotify` starts one without a token, and
-- `run_task` is the body of one. A goroutine runs as a whole, at any later time.
use go_pay.Prelude.{
  ℕ, zero, suc, ◌+◌, ◌-◌, String, ⊤, Bool, not, false, Option, none, some, List, [], ◌∷◌, ◌++◌, ltb,
  ◌==◌, if◌then◌else◌,
}
use go_pay.Errors.{GoError, wrap, is_no_rows, ok, err}
use go_pay.Errors.Make.{new_app_not_found, new_invalid_request}
use go_pay.Models.{Order, NotifyLog}
use go_pay.Models.OrderStatus
use go_pay.Models.NotifyStatus
use go_pay.Channel.{WebhookResponse}
use go_pay.Payload.{Payload}
use go_pay.World.{World, Task, Env, M, pure, raise, modify, map_error, attempt, ◌>>=◌, ◌>>◌, exec}
use go_pay.OrderService.Queries.{get_app, query_order, list_pending_notify_orders}
use go_pay.OrderService.Status.{update_order}
use go_pay.NotifyService.Post.{save_notify_log, build_notify_request_body, build_refund_request}
use go_pay.NotifyService.Retry.{notify_with_retry_payload, notify_with_retry}

-- The capacity of `workerPool`.
abbrev pub pool_size : ℕ
pool_size = 100

abbrev pub add_task : Task → World → World
add_task t w = record w { tasks = w.tasks ++ t ∷ [] }

-- A token is taken and the goroutine is started.
abbrev pub start_task : Task → World → World
start_task t w = record w { tasks = w.tasks ++ t ∷ []; pool = w.pool + 1 }

abbrev pub deferred_log : Order → String → String → NotifyLog
deferred_log o reason body = record {
  id = 0;
  order_no = o.order_no;
  callback_url = "";
  request_body = body;
  response_status = 0;
  response_body = "";
  success = false;
  error_msg = reason;
  duration_ms = 0;
  created_at = 0;
}

-- `UPDATE orders SET retry_count = 0, notify_status = 'pending'`
abbrev pub reset_notify : ℕ → Order → Order
reset_notify now o = record o {
  retry_count = 0;
  notify_status = NotifyStatus.pending;
  updated_at = now;
}

module _ (env : Env) where
  unfoldable pub record_deferred_notify : Option Order → String → M ⊤
  unfolding build_notify_request_body
  record_deferred_notify none reason = pure tt
  record_deferred_notify (some o) reason = do
    saved ← attempt (save_notify_log env (deferred_log o reason (build_notify_request_body env o)))
    pure tt

  -- The `select` on the pool: the test and the send are one step.
  unfoldable pub start_or_defer : Task → Order → String → M ⊤
  unfolding record_deferred_notify
  start_or_defer t o reason w =
      if ltb w.pool pool_size
      then (ok tt, start_task t w)
      else record_deferred_notify (some o) reason w

  unfoldable pub notify_async : Order → M ⊤
  unfolding start_or_defer
  notify_async o = start_or_defer (Task.notify o) o "worker pool is full, notify deferred"

  unfoldable pub notify_refund_async : Order → WebhookResponse → M ⊤
  unfolding start_or_defer
  notify_refund_async o resp =
      start_or_defer (Task.notify_refund o resp) o "worker pool is full, refund notify deferred"

  abbrev app_error : String → GoError → GoError
  app_error app_id e = if is_no_rows e then new_app_not_found app_id else wrap "failed to get app" e

  -- `RetryNotify`
  unfoldable pub retry_notify : String → M ⊤
  retry_notify order_no = do
    o ← query_order env order_no
    if not (o.status == OrderStatus.paid)
        then raise (
            new_invalid_request "订单状态不正确，无法重试通知" (
              ("order_no", order_no)
              ∷ ("current_status", o.status)
              ∷ ("required", OrderStatus.paid)
              ∷ []))
        else (do
          app ← map_error (app_error o.app_id) (get_app env o.app_id)
          map_error (wrap "failed to reset retry count")
              (exec env (λ now. update_order order_no (reset_notify now)))
          modify (add_task (Task.retry o app.callback_url)))

  unfoldable pub notify_all : List Order → M ⊤
  notify_all [] = pure tt
  notify_all (o ∷ os) = do notify_async o; notify_all os

  -- `ProcessPendingNotifies`
  unfoldable pub process_pending_notifies : M ⊤
  unfolding notify_all
  process_pending_notifies = do
    orders ←
        map_error (wrap "failed to list pending notify orders") (list_pending_notify_orders env 100)
    notify_all orders

  -- `StartRetryScheduler`: once at the start, and once at each of the ticks that come.
  unfoldable pub scheduler_rounds : ℕ → M ⊤
  scheduler_rounds zero = do done ← attempt process_pending_notifies; pure tt
  scheduler_rounds (suc ticks) = do done ← attempt process_pending_notifies; scheduler_rounds ticks

  module _ (alerting : Bool) where
    -- The goroutine's body, without the token.
    unfoldable pub task_body : Task → M ⊤
    task_body (Task.notify o) = do
      app ← attempt (get_app env o.app_id)
      elim app [ err e ↦ pure tt | ok a ↦ notify_with_retry env alerting o a.callback_url ]
    task_body (Task.notify_refund o resp) = do
      app ← attempt (get_app env o.app_id)
      elim app [
        | err e ↦ pure tt
        | ok a ↦
            notify_with_retry_payload env alerting o a.callback_url
              (Payload.refund (build_refund_request env o resp))
      ]
    task_body (Task.retry o callback_url) = notify_with_retry env alerting o callback_url

    -- `defer func() { <-s.workerPool }()`
    abbrev pub release : Task → World → World
    release (Task.retry o callback_url) w = w
    release _ w = record w { pool = w.pool - 1 }

    -- One goroutine, from its start to its end.
    unfoldable pub run_task : Task → World → World
    unfolding task_body
    run_task t w = release t (task_body t w).1
