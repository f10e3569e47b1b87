-- ===== src/Reconciliation/Report.antt =====
-- The rows that internal/reconciliation/report.go writes into the CSV file of a report. `format` is
-- `Time.Format`.
use go_pay.Prelude.{ℕ, String, List, [], ◌∷◌, ◌++◌, concat, length}
use go_pay.Prelude.Int.{pos}
use go_pay.Prelude.Text.{show_ℤ}
use go_pay.Reconciliation.{AmountMismatch, ReconcileResult}
use go_pay.Reconciliation.Bills.{Row}

-- `fmt.Sprintf("%d", len(xs))`
abbrev pub show_length : {A : Type 0} → List A → String
show_length xs = show_ℤ (pos (length xs))

abbrev empty_row : Row
empty_row = "" ∷ []

abbrev text_rows : List String → List Row
text_rows [] = []
text_rows (s ∷ ss) = (s ∷ []) ∷ text_rows ss

unfoldable pub write_missing_orders : ReconcileResult → List Row
write_missing_orders result =
    ("长款明细（外部有但内部无）" ∷ []) ∷ ("订单号" ∷ []) ∷ text_rows result.missing_orders ++ empty_row ∷ []

unfoldable pub write_extra_orders : ReconcileResult → List Row
write_extra_orders result =
    ("短款明细（内部有但外部无）- 严重问题！" ∷ []) ∷ ("订单号" ∷ []) ∷ text_rows result.extra_orders ++ empty_row ∷ []

abbrev mismatch_rows : List AmountMismatch → List Row
mismatch_rows [] = []
mismatch_rows (m ∷ ms) =
    (m.order_no ∷ show_ℤ m.internal_amount ∷ show_ℤ m.external_amount ∷ show_ℤ m.difference ∷ [])
    ∷ mismatch_rows ms

unfoldable pub write_amount_mismatch : ReconcileResult → List Row
write_amount_mismatch result =
    ("金额不匹配明细" ∷ [])
      ∷ ("订单号" ∷ "内部金额（分）" ∷ "外部金额（分）" ∷ "差额（分）" ∷ [])
      ∷ mismatch_rows result.amount_mismatch
    ++ empty_row ∷ []

unfoldable pub write_summary : ReconcileResult → List Row
write_summary result =
    ("汇总信息" ∷ [])
    ∷ ("总订单数" ∷ show_ℤ (pos result.total_orders) ∷ [])
    ∷ ("匹配订单数" ∷ show_ℤ (pos result.matched_orders) ∷ [])
    ∷ ("长款订单数" ∷ show_length result.missing_orders ∷ [])
    ∷ ("短款订单数" ∷ show_length result.extra_orders ∷ [])
    ∷ ("金额不匹配数" ∷ show_length result.amount_mismatch ∷ [])
    ∷ empty_row
    ∷ []

-- `if len(xs) > 0 { … }`
abbrev unless_empty : {A : Type 0} → List A → List Row → List Row
unless_empty [] rows = []
unless_empty (x ∷ xs) rows = rows

module _ (format : String → ℕ → String) where
  unfoldable pub write_header : ReconcileResult → List Row
  write_header result =
      ("GoPay 对账报告" ∷ [])
      ∷ ("对账日期" ∷ format "2006-01-02" result.date ∷ [])
      ∷ ("支付渠道" ∷ result.channel ∷ [])
      ∷ ("生成时间" ∷ format "2006-01-02 15:04:05" result.created_at ∷ [])
      ∷ ("对账状态" ∷ result.status ∷ [])
      ∷ empty_row
      ∷ []

  unfoldable pub report_rows : ReconcileResult → List Row
  unfolding write_header write_summary write_missing_orders write_extra_orders write_amount_mismatch
  report_rows result =
      write_header result
      ++ write_summary result
      ++ unless_empty result.missing_orders (write_missing_orders result)
      ++ unless_empty result.extra_orders (write_extra_orders result)
      ++ unless_empty result.amount_mismatch (write_amount_mismatch result)

  -- `filepath.Join` of "./reports" and the name of the file.
  unfoldable pub report_path : ReconcileResult → String
  report_path result = concat (
      "reports/reconciliation_"
      ∷ result.channel
      ∷ "_"
      ∷ format "20060102" result.date
      ∷ ".csv"
      ∷ [])
