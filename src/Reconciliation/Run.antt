-- ===== src/Reconciliation/Run.antt =====
-- `Reconcile` and `ReconcileByApp` of internal/reconciliation/wechat.go and alipay.go, which differ
-- in the name of the channel and in `parseBill`, and the methods of reconciliation.go and
-- reconciliation_by_app.go that call them.
use go_pay.Prelude.{ℕ, String, Option, List, [], ◌∷◌, ◌==◌, concat, if◌then◌else◌}
use go_pay.Prelude.Int.{ℤ}
use go_pay.Errors.{GoError, plain, wrap, Result, ok, err}
use go_pay.Reconciliation.{ReconcileResult, BillRecord, Order, Call, returned, ◌>>=◌, wrap_call}
use go_pay.Reconciliation.Bills.{Reads, parse_wechat_bill, parse_alipay_bill}
use go_pay.Reconciliation.Compare.{compare}

-- `download` is `BillDownloader.Download` with the reads of the bill, and `orders_of` is the
-- `OrderRepository`, for a date, a channel, and an app or "".
pub record Reconciler : Type 0 where
  pub channel : String
  pub download : ℕ → Result (Option Reads)
  pub parse_bill : Option Reads → Call (List BillRecord)
  pub orders_of : ℕ → String → String → Result (List Order)

-- The repository that is used without a database.
abbrev pub no_orders : ℕ → String → String → Result (List Order)
no_orders date channel app_id = ok []

abbrev pub wechat_reconciler :
    (String → ℤ)
    → (ℕ → Result (Option Reads))
    → (ℕ → String → String → Result (List Order))
    → Reconciler
wechat_reconciler parse_amount download orders_of = record {
  channel = "wechat";
  download = download;
  parse_bill = parse_wechat_bill parse_amount;
  orders_of = orders_of;
}

abbrev pub alipay_reconciler :
    (String → ℤ)
    → (ℕ → Result (Option Reads))
    → (ℕ → String → String → Result (List Order))
    → Reconciler
alipay_reconciler parse_amount download orders_of = record {
  channel = "alipay";
  download = download;
  parse_bill = parse_alipay_bill parse_amount;
  orders_of = orders_of;
}

-- The steps that both methods share, for an app or for "".
unfoldable pub reconcile_orders : Reconciler → ℕ → ℕ → String → Call ReconcileResult
reconcile_orders r now date app_id =
    wrap_call (wrap (concat ("download " ∷ r.channel ∷ " bill failed" ∷ [])))
      (returned (r.download date))
    >>= λ bill.
        wrap_call (wrap (concat ("parse " ∷ r.channel ∷ " bill failed" ∷ []))) (r.parse_bill bill)
        >>= λ external.
            wrap_call (wrap "get internal orders failed")
              (returned (r.orders_of date r.channel app_id))
            >>= λ internal. returned (
                ok (record (compare external internal) {
                  date = date;
                  channel = r.channel;
                  app_id = app_id;
                  created_at = now;
                }))

unfoldable pub reconcile_channel : Reconciler → ℕ → ℕ → Call ReconcileResult
unfolding reconcile_orders
reconcile_channel r now date = reconcile_orders r now date ""

unfoldable pub reconcile_channel_by_app : Reconciler → ℕ → ℕ → String → Call ReconcileResult
unfolding reconcile_orders
reconcile_channel_by_app r now date app_id = reconcile_orders r now date app_id

pub record ReconciliationService : Type 0 where
  pub wechat : Reconciler
  pub alipay : Reconciler

abbrev pub unsupported_channel : GoError
unsupported_channel = plain "unsupported channel"

module _ (s : ReconciliationService) (now : ℕ) (date : ℕ) where
  unfoldable pub reconcile : String → Call ReconcileResult
  unfolding reconcile_channel
  reconcile channel =
      if channel == "wechat"
      then reconcile_channel s.wechat now date
      else if channel == "alipay"
      then reconcile_channel s.alipay now date
      else returned (err unsupported_channel)

  unfoldable pub reconcile_all : Call (List ReconcileResult)
  unfolding reconcile_channel
  reconcile_all = reconcile_channel s.wechat now date >>= λ wechat_result.
      reconcile_channel s.alipay now date >>= λ alipay_result.
      returned (ok (wechat_result ∷ alipay_result ∷ []))

  abbrev set_app : String → ReconcileResult → ReconcileResult
  set_app app_id result = record result { app_id = app_id }

  unfoldable pub reconcile_by_app : String → String → Call ReconcileResult
  unfolding reconcile_channel_by_app
  reconcile_by_app channel app_id =
      if app_id == ""
      then returned (err (plain "app_id is required"))
      else (if channel == "wechat"
          then reconcile_channel_by_app s.wechat now date app_id
          else if channel == "alipay"
          then reconcile_channel_by_app s.alipay now date app_id
          else returned (err unsupported_channel))
        >>= λ result. returned (ok (set_app app_id result))

  unfoldable pub reconcile_all_by_app : String → Call (List ReconcileResult)
  unfolding reconcile_channel_by_app
  reconcile_all_by_app app_id =
      if app_id == ""
      then returned (err (plain "app_id is required"))
      else wrap_call (wrap "wechat reconciliation failed")
          (reconcile_channel_by_app s.wechat now date app_id)
        >>= λ wechat_result.
            wrap_call (wrap "alipay reconciliation failed")
              (reconcile_channel_by_app s.alipay now date app_id)
            >>= λ alipay_result.
                returned (ok (set_app app_id wechat_result ∷ set_app app_id alipay_result ∷ []))
