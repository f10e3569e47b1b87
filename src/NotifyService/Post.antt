-- ===== src/NotifyService/Post.antt =====
-- One attempt of internal/service/notify_service.go, and the record that is kept of it.
use go_pay.Prelude.{ℕ, ◌+◌, String, ⊤, Bool, true, false, none, some, [], ◌∷◌, ◌++◌, eqb, length}
use go_pay.Errors.{GoError, nil_error, wrap, ok, err, error_text}
use go_pay.Models.{Order, NotifyLog}
use go_pay.Channel.{WebhookResponse}
use go_pay.Payload.{NotifyRequest, RefundNotifyRequest, Payload}
use go_pay.World.{
  Db, HttpOutcome, request_failed, send_failed, read_failed, responded, Env, M, exec,
}

-- The five results of `doNotifyPayload`; `error` is `nil_error` for Go's nil.
pub record Attempt : Type 0 where
  pub success : Bool
  pub status_code : ℕ
  pub resp_body : String
  pub duration : ℕ
  pub error : GoError

-- What `doNotifyPayload` makes of one outcome: only status 200 is a success.
unfoldable pub attempt_of : HttpOutcome × ℕ → Attempt
attempt_of (request_failed e, ms) = record {
  success = false;
  status_code = 0;
  resp_body = "";
  duration = ms;
  error = wrap "failed to create request" e;
}
attempt_of (send_failed e, ms) = record {
  success = false;
  status_code = 0;
  resp_body = "";
  duration = ms;
  error = wrap "failed to send request" e;
}
attempt_of (read_failed status e, ms) = record {
  success = false;
  status_code = status;
  resp_body = "";
  duration = ms;
  error = wrap "failed to read response" e;
}
attempt_of (responded status body, ms) = record {
  success = eqb status 200;
  status_code = status;
  resp_body = body;
  duration = ms;
  error = nil_error;
}

-- `getErrorMsg`
abbrev pub get_error_msg : GoError → String
get_error_msg nil_error = ""
get_error_msg e = error_text e

abbrev insert_log : NotifyLog → ℕ → Db → Db
insert_log log now db = record db {
  notify_logs =
      db.notify_logs ++ record log { id = length db.notify_logs + 1; created_at = now } ∷ [];
}

module _ (env : Env) where
  -- `doNotifyPayload`
  unfoldable pub do_notify_payload : String → String → M Attempt
  unfolding attempt_of
  do_notify_payload callback_url body w = (
    ok (attempt_of (env.http w.posts)),
    record w { posts = w.posts + 1; sent = w.sent ++ (callback_url, body) ∷ [] },
  )

  -- `saveNotifyLog`
  unfoldable pub save_notify_log : NotifyLog → M ⊤
  save_notify_log log = exec env (insert_log log)

  unfoldable pub build_notify_request : Order → NotifyRequest
  build_notify_request o = record {
    order_no = o.order_no;
    out_trade_no = o.out_trade_no;
    amount = o.amount;
    status = o.status;
    paid_at = elim o.paid_at [ none ↦ "" | some t ↦ env.format "2006-01-02T15:04:05Z07:00" t ];
    channel = o.channel;
    channel_order_no = o.channel_order_no;
  }

  -- The payload of `NotifyRefundAsync`.
  unfoldable pub build_refund_request : Order → WebhookResponse → RefundNotifyRequest
  build_refund_request o resp = record {
    order_no = o.order_no;
    out_trade_no = o.out_trade_no;
    refund_no = resp.refund_no;
    platform_refund_no = resp.platform_refund_no;
    amount = o.amount;
    refund_amount = resp.paid_amount;
    status = "refunded";
    channel = o.channel;
    refunded_at = elim (eqb resp.paid_at 0) [
      | true ↦ ""
      | false ↦ env.format "2006-01-02T15:04:05Z07:00" resp.paid_at
    ];
  }

  -- `buildNotifyRequestBody` drops the error of `json.Marshal`.
  unfoldable pub build_notify_request_body : Order → String
  unfolding build_notify_request
  build_notify_request_body o = elim (env.marshal (Payload.payment (build_notify_request o))) [
    | ok body ↦ body
    | err e ↦ ""
  ]
