-- ===== src/Webhook/Settle.antt =====
-- What all three webhooks of internal/handler do once the channel's response is verified: move
-- the order, and start a notification if that succeeded.
use go_pay.Prelude.{ℕ, ⊤, some, eqb, ◌==◌, if◌then◌else◌}
use go_pay.Errors.{ok, err}
use go_pay.Models.{Order}
use go_pay.Models.OrderStatus
use go_pay.Channel.{WebhookResponse}
use go_pay.Channel.ChannelStatus
use go_pay.World.{Env, M, pure, attempt, ◌>>=◌, ◌>>◌, time_now}
use go_pay.OrderService.Status.{update_order_status}
use go_pay.NotifyService.Pool.{notify_async, notify_refund_async}

module _ (env : Env) where
  -- `if paidAt.IsZero() { paidAt = time.Now() }`
  unfoldable pub time_of : WebhookResponse → M ℕ
  time_of resp = if eqb resp.paid_at 0 then time_now env else pure resp.paid_at

  -- The part on `channel.OrderStatusRefund`.
  unfoldable pub settle_refund : Order → WebhookResponse → M ⊤
  unfolding time_of
  settle_refund o resp =
      if resp.status == ChannelStatus.refund
      then (do
        refund_at ← time_of resp
        updated ← attempt (
            update_order_status env o.order_no OrderStatus.refunded (some refund_at)
              resp.paid_amount)
        elim updated [ err e ↦ pure tt | ok done ↦ notify_refund_async env o resp ])
      else pure tt

  -- The part on `channel.OrderStatusPaid`, and then the other.
  unfoldable pub settle : Order → WebhookResponse → M ⊤
  unfolding settle_refund
  settle o resp =
      if resp.status == ChannelStatus.paid
      then (do
        paid_at ← time_of resp
        updated ←
            attempt
              (update_order_status env o.order_no OrderStatus.paid (some paid_at) resp.paid_amount)
        elim updated [ err e ↦ pure tt | ok done ↦ do notify_async env o; settle_refund o resp ])
      else settle_refund o resp
