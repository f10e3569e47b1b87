-- ===== src/RefundService.antt =====
-- internal/service/refund_service.go. `initialized` is false where the service was made with a
-- nil database, order service or channel manager.
pub mod Booking
pub mod Outcome
use go_pay.Prelude.{
  ℕ, ◌+◌, ◌%◌, String, ⊤, Bool, not, ◌||◌, Option, none, some, [], ◌∷◌, ◌++◌, ◌==◌, if◌then◌else◌,
  find, length, concat, is_some,
}
use go_pay.Prelude.Int.{ℤ, pos, leb_ℤ, ltb_ℤ}
use go_pay.Prelude.Text.{show_ℤ, show_06}
use go_pay.Errors.{GoError, plain, wrap, Result, ok, err}
use go_pay.Sql.{duplicate_key, missing_key}
use go_pay.Errors.Make.{new_invalid_request, new_invalid_amount}
use go_pay.Models.{Order, Transaction}
use go_pay.Models.OrderStatus
use go_pay.Models.TransactionType
use go_pay.Channel
use go_pay.Channel.{RefundProvider, PaymentChannel}
use go_pay.Channel.RefundStatus
use go_pay.World.{
  Db, ChannelCall, Env, ChannelManager, M, pure, raise, lift, map_error, ◌>>=◌, ◌>>◌, call_channel,
  statement, exec, time_now, draw,
}
use go_pay.OrderService.Queries.{has_order_no, query_order}
use go_pay.OrderService.Status.{update_order}

pub record RefundRequest : Type 0 where
  pub order_no : String
  pub amount : ℤ
  pub reason : String

pub record RefundResponse : Type 0 where
  pub refund_no : String
  pub order_no : String
  pub platform_trade_no : String
  pub platform_refund_no : String
  pub status : String
  pub amount : ℤ
  pub refunded_at : Option ℕ

-- The amount that a request asks for: all of the order where it names none.
abbrev pub refund_amount : ℤ → ℤ → ℤ
refund_amount asked total = if leb_ℤ asked (pos 0) then total else asked

abbrev pub not_paid_error : String → Order → GoError
not_paid_error order_no o =
    new_invalid_request "只能退款已支付订单" (("order_no", order_no) ∷ ("status", o.status) ∷ [])

-- `provider.(refundProvider)`
abbrev pub refund_capable : Order → PaymentChannel → Result RefundProvider
refund_capable o provider = elim provider.refund_provider [
  | none ↦ err (plain (concat ("channel " ∷ o.channel ∷ " does not support refund" ∷ [])))
  | some r ↦ ok r
]

abbrev pub channel_refund : Order → String → ℤ → String → Channel.RefundRequest
channel_refund o refund_no amount reason = record {
  order_id = o.order_no;
  biz_order_no = o.out_trade_no;
  platform_no = o.channel_order_no;
  refund_no = refund_no;
  amount = amount;
  reason = reason;
  notify_url = "";
  extra_data = ("total_amount", show_ℤ o.amount) ∷ [];
}

abbrev pub refund_response : Order → Channel.RefundResponse → RefundResponse
refund_response o resp = record {
  refund_no = resp.refund_no;
  order_no = o.order_no;
  platform_trade_no = resp.platform_trade_no;
  platform_refund_no = resp.platform_refund_no;
  status = resp.status;
  amount = resp.amount;
  refunded_at = resp.refunded_at;
}

-- `INSERT INTO transactions`: `transaction_no` is unique, and `order_no` is an order's.
unfoldable pub insert_transaction : Transaction → ℕ → Db → Result ⊤ × Db
insert_transaction t now db =
    if is_some (find (λ (s : Transaction). s.transaction_no == t.transaction_no) db.transactions)
    then (err (duplicate_key "transactions_transaction_no_key"), db)
    else if is_some (find (has_order_no t.order_no) db.orders)
    then (ok tt, record db { transactions = db.transactions ++ row ∷ [] })
    else (err (missing_key "transactions" "fk_transactions_order_no"), db)
  where
    row : Transaction
    row = record t { id = length db.transactions + 1; created_at = now }

abbrev pub mark_refunded : ℕ → Order → Order
mark_refunded now o = record o { status = OrderStatus.refunded; updated_at = now }

module _ (env : Env) where
  abbrev numbered : String → M String
  numbered prefix = do
    now ← time_now env
    n ← draw env
    pure
        (concat (prefix ∷ "_" ∷ env.format "20060102150405" now ∷ "_" ∷ show_06 (n % 1000000) ∷ []))

  unfoldable pub generate_refund_no : M String
  generate_refund_no = numbered "REF"

  unfoldable pub generate_transaction_no : M String
  generate_transaction_no = numbered "TRX"

  abbrev pub refund_transaction : Order → Channel.RefundResponse → String → Transaction
  refund_transaction o resp transaction_no = record {
    id = 0;
    transaction_no = transaction_no;
    order_no = o.order_no;
    channel = o.channel;
    channel_order_no = o.channel_order_no;
    kind = TransactionType.refund;
    amount = resp.amount;
    status = resp.status;
    raw_request = "";
    raw_response = "";
    created_at = 0;
  }

  -- `saveRefundTransaction`; the response, where there is one, is returned to the caller.
  unfoldable pub save_refund_transaction :
      Order → Option Channel.RefundResponse → M Channel.RefundResponse
  save_refund_transaction o none = raise (plain "refund response is required")
  save_refund_transaction o (some resp) = do
    transaction_no ← generate_transaction_no
    map_error (wrap "save refund transaction failed")
        (statement env (insert_transaction (refund_transaction o resp transaction_no)))
    pure resp

  unfoldable pub update_refund_status : String → String → M ⊤
  update_refund_status order_no status =
      if not (status == RefundStatus.success)
      then pure tt
      else map_error (wrap "update refund status failed")
          (exec env (λ now. update_order order_no (mark_refunded now)))

  module _ (cm : ChannelManager) where
    abbrev pub refund_provider_of : Order → M RefundProvider
    refund_provider_of o = do
      provider ← lift (cm.get_provider o.app_id o.channel)
      lift (refund_capable o provider)

    -- The channel is asked, and what it answers is recorded.
    unfoldable pub submit_refund : Order → ℤ → String → M RefundResponse
    submit_refund o amount reason = do
      provider ← refund_provider_of o
      refund_no ← generate_refund_no
      call_channel (ChannelCall.refund (channel_refund o refund_no amount reason))
      answer ← lift (provider.refund (channel_refund o refund_no amount reason))
      resp ← save_refund_transaction o answer
      update_refund_status o.order_no resp.status
      pure (refund_response o resp)

    unfoldable pub refund_order : Order → RefundRequest → M RefundResponse
    unfolding submit_refund
    refund_order o req =
        if not (o.status == OrderStatus.paid)
        then raise (not_paid_error req.order_no o)
        else if ltb_ℤ o.amount (refund_amount req.amount o.amount)
        then raise (new_invalid_amount (refund_amount req.amount o.amount))
        else submit_refund o (refund_amount req.amount o.amount) req.reason

    -- `Refund`
    unfoldable pub refund : Bool → Option RefundRequest → M RefundResponse
    unfolding refund_order
    refund initialized none =
        if not initialized
        then raise (plain "refund service is not initialized")
        else raise (new_invalid_request "订单号不能为空" [])
    refund initialized (some req) =
        if not initialized
        then raise (plain "refund service is not initialized")
        else if req.order_no == ""
        then raise (new_invalid_request "订单号不能为空" [])
        else (do o ← query_order env req.order_no; refund_order o req)

    -- `QueryRefund`
    unfoldable pub query_refund : Bool → String → String → M RefundResponse
    query_refund initialized order_no refund_no =
        if not initialized
        then raise (plain "refund service is not initialized")
        else if (order_no == "") || (refund_no == "")
        then raise (new_invalid_request "订单号和退款单号不能为空" [])
        else (do
          o ← query_order env order_no
          provider ← refund_provider_of o
          let req : Channel.RefundRequest = record (channel_refund o refund_no (pos 0) "") {
            extra_data = [];
          }
          call_channel (ChannelCall.query_refund req)
          resp ← lift (provider.query_refund req)
          pure (refund_response o resp))
