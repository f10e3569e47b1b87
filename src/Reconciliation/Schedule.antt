-- ===== src/Reconciliation/Schedule.antt =====
-- The runs of internal/reconciliation/scheduler.go. `format` is `Time.Format`, `day_start` is the
-- midnight before a time, and the faults are those of the n-th report of a run. An alert that
-- cannot be sent is only logged.
use go_pay.Prelude.{
  ℕ, suc, ◌+◌, ◌*◌, String, ⊤, Bool, true, false, not, ◌||◌, some, List, [], ◌∷◌, ◌++◌, concat, ltb,
  if◌then◌else◌,
}
use go_pay.Prelude.Int.{pos}
use go_pay.Prelude.Text.{show_ℤ}
use go_pay.Errors.{GoError, plain, wrap, error_text, ok, err}
use go_pay.Reconciliation.{ReconcileResult, Call, returned, panicked}
use go_pay.Reconciliation.Compare.{is_empty}
use go_pay.Reconciliation.Report.{show_length}
use go_pay.Reconciliation.Store.{Archive, Faults, generate_report}

-- `getNextRunTime`, in seconds.
unfoldable pub get_next_run_time : (ℕ → ℕ) → ℕ → ℕ
get_next_run_time day_start now =
    let next_run = day_start now + 2 * 3600 in
    if ltb next_run now then next_run + 24 * 3600 else next_run

pub record Progress : Type 0 where
  pub archive : Archive
  pub alerts : List String
  pub has_error : Bool

abbrev pub has_difference : ReconcileResult → Bool
has_difference result =
    not (is_empty result.missing_orders)
    || not (is_empty result.extra_orders)
    || not (is_empty result.amount_mismatch)

module _ (format : String → ℕ → String) (has_notifier has_db : Bool) where
  unfoldable pub difference_alert : ReconcileResult → String
  difference_alert result = concat (
      "⚠\u{fe0f} 对账异常告警\n\n渠道: "
      ∷ result.channel
      ∷ "\n日期: "
      ∷ format "2006-01-02" result.date
      ∷ "\n总订单数: "
      ∷ show_ℤ (pos result.total_orders)
      ∷ "\n匹配订单数: "
      ∷ show_ℤ (pos result.matched_orders)
      ∷ "\n长款（外部有但内部无）: "
      ∷ show_length result.missing_orders
      ∷ " 笔\n短款（内部有但外部无）: "
      ∷ show_length result.extra_orders
      ∷ " 笔\n金额不匹配: "
      ∷ show_length result.amount_mismatch
      ∷ " 笔\n\n请及时处理！"
      ∷ [])

  abbrev pub send_alert : String → List String → List String
  send_alert text alerts = if not has_notifier then alerts else alerts ++ text ∷ []

  unfoldable pub process_result : Faults → ℕ → ReconcileResult → Progress → Progress
  process_result faults now result p =
      let (report, archive) = generate_report format has_db faults now (some result) p.archive in
      elim report [
        | err e ↦ record p { archive = archive; has_error = true }
        | ok path ↦
            if has_difference result
            then record p {
              archive = archive;
              alerts = send_alert (difference_alert result) p.alerts;
              has_error = true;
            }
            else record p { archive = archive }
      ]

  unfoldable pub process_results : (ℕ → Faults) → ℕ → ℕ → List ReconcileResult → Progress → Progress
  unfolding process_result
  process_results faults now n [] p = p
  process_results faults now n (result ∷ results) p =
      process_results faults now (suc n) results (process_result (faults n) now result p)

  -- `reconcileDate`, from what `ReconcileAll` returns.
  unfoldable pub reconcile_date :
      (ℕ → Faults)
      → ℕ
      → Call (List ReconcileResult)
      → Archive
      → List String
      → Call ⊤ × Archive × List String
  unfolding process_results
  reconcile_date faults now panicked archive alerts = (panicked, archive, alerts)
  reconcile_date faults now (returned (err e)) archive alerts =
      (returned (err (wrap "reconcile all channels failed" e)), archive, alerts)
  reconcile_date faults now (returned (ok results)) archive alerts =
      let p =
        process_results faults now 0 results
          (record { archive = archive; alerts = alerts; has_error = false }) in
      (returned (if p.has_error then err (plain "对账发现差异，请查看报告") else ok tt), p.archive, p.alerts)

  abbrev failure_alert : ℕ → GoError → String
  failure_alert date e =
      concat ("对账任务执行失败\n日期: " ∷ format "2006-01-02" date ∷ "\n错误: " ∷ error_text e ∷ [])

  -- `runReconciliation`, for the date before today; `reconciled` is what `ReconcileAll` returns for
  -- it.
  unfoldable pub run_reconciliation :
      (ℕ → Faults)
      → ℕ
      → ℕ
      → Call (List ReconcileResult)
      → Archive
      → List String
      → Call ⊤ × Archive × List String
  unfolding reconcile_date
  run_reconciliation faults now yesterday reconciled archive alerts =
      let (r, archive', alerts') = reconcile_date faults now reconciled archive alerts in
      elim r [
        | panicked ↦ (panicked, archive', alerts')
        | returned (ok u) ↦ (returned (ok tt), archive', alerts')
        | returned (err e) ↦
            (returned (ok tt), archive', send_alert (failure_alert yesterday e) alerts')
      ]
