-- ===== src/Facts/Notify.antt =====
-- internal/service/notify_service.go: the facts of the orders (`OrderFact`) through its goroutines.
use go_pay.Prelude.{
  ℕ, zero, suc, String, Bool, true, false, Option, none, some, List, [], ◌∷◌, refl, inl, inr, ltb,
  ◌+◌, ◌-◌, ◌^◌, Bool-cases, arith,
}
use go_pay.Errors.{ok, err, Result-cases}
use go_pay.Models.{Order, NotifyLog}
use go_pay.Channel.{WebhookResponse}
use go_pay.Payload.{Payload}
use go_pay.World.{World, Task, Env, modify}
use go_pay.World.Keeps.{
  Keeps, Keeps-same, Keeps-if, Keeps-pure, Keeps-bind, Keeps-attempt, Keeps-exec, keeps_rules,
}
use go_pay.NotifyService.Post.{do_notify_payload, save_notify_log}
use go_pay.NotifyService.Retry.{
  max_notify_retries, sleep, notify_once, notify_rounds, back_off, give_up,
  notify_with_retry_payload, notify_with_retry,
}
use go_pay.NotifyService.Pool.{
  record_deferred_notify, start_or_defer, notify_async, notify_refund_async, retry_notify,
  notify_all, process_pending_notifies, scheduler_rounds, task_body, run_task, add_task, pool_size,
}
use go_pay.Facts.{OrderFact}
use go_pay.Facts.Orders.{
  get_app-Keeps, query_order-Keeps, list_pending_notify_orders-Keeps, update_notify_status-Keeps,
  increment_retry_count-Keeps,
}

module _ (F : OrderFact) (env : Env) where
  open F use {Rel, keep}

  save_notify_log-Keeps : (log : NotifyLog) → Keeps F.kept (save_notify_log env log)
  unfolding save_notify_log
  save_notify_log-Keeps log = Keeps-exec env _ (λ now db. F.same_orders db _ refl refl)

  do_notify_payload-Keeps : (url body : String) → Keeps F.kept (do_notify_payload env url body)
  unfolding do_notify_payload
  do_notify_payload-Keeps url body = record { at = λ w. keep w.db }

  notify_once-Keeps : (o : Order) (url body : String) → Keeps F.kept (notify_once env o url body)
  unfolding notify_once
  notify_once-Keeps o url body =
      search
        (keeps_rules, do_notify_payload-Keeps, save_notify_log-Keeps, increment_retry_count-Keeps)
        depth 10

  back_off-Keeps : (i : ℕ) → Keeps F.kept (back_off env i)
  back_off-Keeps i =
      Keeps-if (ltb i (max_notify_retries - 1)) {m = sleep (2 ^ i)} (Keeps-same (λ w. refl))
        (Keeps-pure tt)

  notify_rounds-Keeps :
      (n i : ℕ) (o : Order) (url body : String) → Keeps F.kept (notify_rounds env n i o url body)
  unfolding notify_rounds
  notify_rounds-Keeps zero i o url body = Keeps-pure _
  notify_rounds-Keeps (suc n) i o url body = Keeps-bind (notify_once-Keeps o url body) (elim [
    | true ↦
        Keeps-bind (Keeps-attempt (update_notify_status-Keeps F env _ _ (inl refl)))
          (λ _. Keeps-pure _)
    | false ↦ Keeps-bind (back_off-Keeps i) (λ _. notify_rounds-Keeps n (i + 1) o url body)
  ])

  module _ (alerting : Bool) where
    give_up-Keeps : (o : Order) (b : Bool) → Keeps F.kept (give_up env alerting o b)
    unfolding give_up
    give_up-Keeps o true = Keeps-pure _
    give_up-Keeps o false =
        Keeps-bind (Keeps-attempt (update_notify_status-Keeps F env _ _ (inr refl)))
          (λ _. Keeps-same (λ w. ground arith))

    pub notify_with_retry_payload-Keeps :
        (o : Order) (url : String) (p : Payload)
        → Keeps F.kept (notify_with_retry_payload env alerting o url p)
    unfolding notify_with_retry_payload
    notify_with_retry_payload-Keeps o url p = elim (Result-cases (env.marshal p)) [
      | inl (e, h) ↦ rw (h, notify_with_retry_payload) (Keeps-pure tt)
      | inr (body, h) ↦
          rw (h, notify_with_retry_payload)
            (Keeps-bind (notify_rounds-Keeps max_notify_retries 0 o url body) (give_up-Keeps o))
    ]

    notify_with_retry-Keeps :
        (o : Order) (url : String) → Keeps F.kept (notify_with_retry env alerting o url)
    unfolding notify_with_retry
    notify_with_retry-Keeps o url = notify_with_retry_payload-Keeps o url _

    task_body-Keeps : (t : Task) → Keeps F.kept (task_body env alerting t)
    unfolding task_body
    task_body-Keeps (Task.notify o) =
        Keeps-bind (Keeps-attempt (get_app-Keeps F env o.app_id))
          (elim [ ok a ↦ notify_with_retry-Keeps o a.callback_url | err e ↦ Keeps-pure tt ])
    task_body-Keeps (Task.notify_refund o resp) =
        Keeps-bind (Keeps-attempt (get_app-Keeps F env o.app_id)) (elim [
          | ok a ↦ notify_with_retry_payload-Keeps o a.callback_url _
          | err e ↦ Keeps-pure tt
        ])
    task_body-Keeps (Task.retry o url) = notify_with_retry-Keeps o url

    -- A goroutine keeps the fact, from its start to its end.
    pub run_task-Rel : (t : Task) (w : World) → Rel w.db (run_task env alerting t w).db
    unfolding run_task
    run_task-Rel (Task.notify o) w = (task_body-Keeps (Task.notify o)).at w
    run_task-Rel (Task.notify_refund o resp) w = (task_body-Keeps (Task.notify_refund o resp)).at w
    run_task-Rel (Task.retry o url) w = (task_body-Keeps (Task.retry o url)).at w

  record_deferred_notify-Keeps :
      (o : Option Order) (reason : String) → Keeps F.kept (record_deferred_notify env o reason)
  unfolding record_deferred_notify
  record_deferred_notify-Keeps none reason = Keeps-pure tt
  record_deferred_notify-Keeps (some o) reason = search (keeps_rules, save_notify_log-Keeps)

  start_or_defer-Keeps :
      (t : Task) (o : Order) (reason : String) → Keeps F.kept (start_or_defer env t o reason)
  unfolding start_or_defer
  start_or_defer-Keeps t o reason = record {
    at = λ w. elim (Bool-cases (ltb w.pool pool_size)) [
      | inl h ↦ rw h (keep w.db)
      | inr h ↦ rw h ((record_deferred_notify-Keeps (some o) reason).at w)
    ];
  }

  pub notify_async-Keeps : (o : Order) → Keeps F.kept (notify_async env o)
  unfolding notify_async
  notify_async-Keeps o = start_or_defer-Keeps (Task.notify o) o _

  pub notify_refund_async-Keeps :
      (o : Order) (resp : WebhookResponse) → Keeps F.kept (notify_refund_async env o resp)
  unfolding notify_refund_async
  notify_refund_async-Keeps o resp = start_or_defer-Keeps (Task.notify_refund o resp) o _

  modify_tasks-Keeps : (t : Task) → Keeps F.kept (modify (add_task t))
  modify_tasks-Keeps t = Keeps-same (λ w. refl)

  pub retry_notify-Keeps : (n : String) → Keeps F.kept (retry_notify env n)
  unfolding retry_notify
  retry_notify-Keeps n =
      search
        (
          keeps_rules,
          query_order-Keeps,
          get_app-Keeps,
          Keeps-exec,
          F.on_reset n,
          modify_tasks-Keeps,
        )
        depth 12

  notify_all-Keeps : (os : List Order) → Keeps F.kept (notify_all env os)
  unfolding notify_all
  notify_all-Keeps [] = Keeps-pure tt
  notify_all-Keeps (o ∷ os) = Keeps-bind (notify_async-Keeps o) (λ _. notify_all-Keeps os)

  pub process_pending_notifies-Keeps : Keeps F.kept (process_pending_notifies env)
  unfolding process_pending_notifies
  process_pending_notifies-Keeps =
      search (keeps_rules, list_pending_notify_orders-Keeps, notify_all-Keeps)

  pub scheduler_rounds-Keeps : (ticks : ℕ) → Keeps F.kept (scheduler_rounds env ticks)
  unfolding scheduler_rounds
  scheduler_rounds-Keeps zero = search (keeps_rules, process_pending_notifies-Keeps)
  scheduler_rounds-Keeps (suc ticks) =
      Keeps-bind (Keeps-attempt process_pending_notifies-Keeps) (λ _. scheduler_rounds-Keeps ticks)
