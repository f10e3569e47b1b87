-- ===== src/NotifyService/Retry.antt =====
-- `notifyWithRetryPayload`, `notifyWithRetry` and `alertOps` of
-- internal/service/notify_service.go. A call whose error the source drops is an `attempt`.
use go_pay.Prelude.{
  ℕ, zero, suc, ◌+◌, ◌^◌, String, ⊤, Bool, true, false, [], ◌∷◌, ◌++◌, ltb, ◌-◌, if◌then◌else◌,
}
use go_pay.Errors.{ok, err}
use go_pay.Models.{Order, NotifyLog}
use go_pay.Models.NotifyStatus
use go_pay.Payload.{Payload}
use go_pay.World.{Env, M, pure, modify, attempt, ◌>>=◌, ◌>>◌}
use go_pay.OrderService.Status.{update_notify_status, increment_retry_count}
use go_pay.NotifyService.Post.{
  Attempt, get_error_msg, do_notify_payload, save_notify_log, build_notify_request,
}

abbrev pub max_notify_retries : ℕ
max_notify_retries = 5

-- `time.Sleep`, in seconds.
abbrev pub sleep : ℕ → M ⊤
sleep seconds = modify (λ w. record w { slept = w.slept ++ seconds ∷ [] })

abbrev pub attempt_log : Order → String → String → Attempt → NotifyLog
attempt_log o callback_url body a = record {
  id = 0;
  order_no = o.order_no;
  callback_url = callback_url;
  request_body = body;
  response_status = a.status_code;
  response_body = a.resp_body;
  success = a.success;
  error_msg = get_error_msg a.error;
  duration_ms = a.duration;
  created_at = 0;
}

module _ (env : Env) where
  -- One round of the loop, up to the test of the last attempt.
  unfoldable pub notify_once : Order → String → String → M Bool
  notify_once o callback_url body = do
    a ← do_notify_payload env callback_url body
    logged ← attempt (save_notify_log env (attempt_log o callback_url body a))
    counted ← attempt (increment_retry_count env o.order_no)
    pure a.success

  -- The sleep between two attempts, none after the last.
  abbrev pub back_off : ℕ → M ⊤
  back_off i = if ltb i (max_notify_retries - 1) then sleep (2 ^ i) else pure tt

  -- The loop from round `i` on, with the rounds left; it returns whether a round succeeded.
  unfoldable pub notify_rounds : ℕ → ℕ → Order → String → String → M Bool
  notify_rounds zero i o callback_url body = pure false
  notify_rounds (suc n) i o callback_url body = do
    success ← notify_once o callback_url body
    elim success [
      | true ↦ do
        updated ← attempt (update_notify_status env o.order_no NotifyStatus.notified)
        pure true
      | false ↦ do back_off i; notify_rounds n (i + 1) o callback_url body
    ]

  module _ (alerting : Bool) where
    -- `alertOps`; `alerting` is false where no alert manager is set.
    abbrev pub alert_ops : Order → M ⊤
    alert_ops o w = (ok tt, if alerting then record w { alerts = w.alerts ++ o ∷ [] } else w)

    -- What follows the loop.
    unfoldable pub give_up : Order → Bool → M ⊤
    give_up o true = pure tt
    give_up o false = do
      updated ← attempt (update_notify_status env o.order_no NotifyStatus.failed_notify)
      alert_ops o

    unfoldable pub notify_with_retry_payload : Order → String → Payload → M ⊤
    notify_with_retry_payload o callback_url payload = elim (env.marshal payload) [
      | err e ↦ pure tt
      | ok body ↦ do
        success ← notify_rounds max_notify_retries 0 o callback_url body
        give_up o success
    ]

    unfoldable pub notify_with_retry : Order → String → M ⊤
    notify_with_retry o callback_url =
        notify_with_retry_payload o callback_url (Payload.payment (build_notify_request env o))
