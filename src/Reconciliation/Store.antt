-- ===== src/Reconciliation/Store.antt =====
-- `GenerateReport` of internal/reconciliation/reconciliation.go: the file of a report, its row in
-- `reconciliation_reports` and its rows in `reconciliation_details`. A column `app_id` that is NULL
-- is "", which is never stored. The ids of the details are left out.
use go_pay.Prelude.{
  ℕ, suc, ◌+◌, String, Bool, not, ◌&&◌, Option, none, some, List, [], ◌∷◌, ◌++◌, ◌==◌, eqb, find,
  update, select, map, length, if◌then◌else◌,
}
use go_pay.Prelude.Int.{ℤ}
use go_pay.Errors.{GoError, plain, wrap, Result, ok, err}
use go_pay.Reconciliation.{AmountMismatch, ReconcileResult}
use go_pay.Reconciliation.Bills.{Row}
use go_pay.Reconciliation.Report.{report_rows, report_path}

pub record ReportRow : Type 0 where
  pub id : ℕ
  pub date : String
  pub channel : String
  pub app_id : String
  pub total_orders : ℕ
  pub matched_orders : ℕ
  pub long_orders : ℕ
  pub short_orders : ℕ
  pub amount_mismatch : ℕ
  pub status : String
  pub file_path : String

-- The amounts are NULL but for `amount_mismatch`.
pub record Detail : Type 0 where
  pub report_id : ℕ
  pub order_no : String
  pub kind : String
  pub amounts : Option (ℤ × ℤ × ℤ)

-- `next_id` is the sequence of report ids. A file is its rows.
pub record Archive : Type 0 where
  pub files : List (String × List Row)
  pub reports : List ReportRow
  pub details : List Detail
  pub next_id : ℕ

-- The errors of the calls, where they fail; `insert_fault n` is that of the n-th detail.
pub record Faults : Type 0 where
  pub mkdir_fault : Option GoError
  pub create_fault : Option GoError
  pub upsert_fault : Option GoError
  pub begin_fault : Option GoError
  pub clear_fault : Option GoError
  pub insert_fault : ℕ → Option GoError
  pub commit_fault : Option GoError

-- The conflict target `(date, channel, COALESCE(app_id, ''))`.
abbrev pub is_report_of : String → String → String → ReportRow → Bool
is_report_of date channel app_id r =
    (r.date == date) && (r.channel == channel) && (r.app_id == app_id)

abbrev pub filled_in : ReconcileResult → String → ReportRow → ReportRow
filled_in result path r = record r {
  total_orders = result.total_orders;
  matched_orders = result.matched_orders;
  long_orders = length result.missing_orders;
  short_orders = length result.extra_orders;
  amount_mismatch = length result.amount_mismatch;
  status = result.status;
  file_path = path;
}

abbrev pub report_row : ℕ → String → ReconcileResult → String → ReportRow
report_row id date result path = filled_in result path (record {
  id = id;
  date = date;
  channel = result.channel;
  app_id = result.app_id;
  total_orders = 0;
  matched_orders = 0;
  long_orders = 0;
  short_orders = 0;
  amount_mismatch = 0;
  status = "";
  file_path = "";
})

-- `INSERT … ON CONFLICT … DO UPDATE … RETURNING id`. The sequence advances in either case.
unfoldable pub upsert_report : String → ReconcileResult → String → Archive → ℕ × Archive
upsert_report date result path a =
    let same = is_report_of date result.channel result.app_id in
    elim (find same a.reports) [
      | some r ↦ (
        r.id,
        record a {
          reports = update same (filled_in result path) a.reports;
          next_id = a.next_id + 1;
        },
      )
      | none ↦ (
        a.next_id,
        record a {
          reports = a.reports ++ report_row a.next_id date result path ∷ [];
          next_id = a.next_id + 1;
        },
      )
    ]

unfoldable pub save_report :
    Faults → String → ReconcileResult → String → Archive → Result ℕ × Archive
unfolding upsert_report
save_report faults date result path a = elim faults.upsert_fault [
  | some e ↦ (err (wrap "save reconciliation report failed" e), a)
  | none ↦ let (id, a') = upsert_report date result path a in (ok id, a')
]

abbrev pub detail_of : ℕ → String → String → Detail
detail_of id kind order_no = record {
  report_id = id;
  order_no = order_no;
  kind = kind;
  amounts = none;
}

abbrev pub mismatch_detail : ℕ → AmountMismatch → Detail
mismatch_detail id m = record {
  report_id = id;
  order_no = m.order_no;
  kind = "amount_mismatch";
  amounts = some (m.internal_amount, m.external_amount, m.difference);
}

abbrev pub details_of : ℕ → ReconcileResult → List Detail
details_of id result =
    map (detail_of id "long") result.missing_orders
    ++ map (detail_of id "short") result.extra_orders
    ++ map (mismatch_detail id) result.amount_mismatch

abbrev pub insert_failure : Detail → GoError → GoError
insert_failure d e =
    if d.kind == "long"
    then wrap "save long detail failed" e
    else if d.kind == "short"
    then wrap "save short detail failed" e
    else wrap "save amount mismatch detail failed" e

-- The three loops of inserts, the first of which is the n-th: the table after them, or the error.
unfoldable pub insert_details : Faults → ℕ → List Detail → List Detail → Result (List Detail)
insert_details faults n [] table = ok table
insert_details faults n (d ∷ ds) table =
    let rest = insert_details faults (suc n) ds (table ++ d ∷ []) in
    elim (faults.insert_fault n) [ some e ↦ err (insert_failure d e) | none ↦ rest ]

abbrev pub is_other_report : ℕ → Detail → Bool
is_other_report id d = not (eqb d.report_id id)

-- What the transaction would write.
unfoldable pub detail_writes : Faults → ℕ → ReconcileResult → List Detail → Result (List Detail)
unfolding insert_details
detail_writes faults id result table = elim faults.begin_fault [
  | some e ↦ err (wrap "begin report detail tx failed" e)
  | none ↦ elim faults.clear_fault [
    | some e ↦ err (wrap "clear reconciliation details failed" e)
    | none ↦
        elim (insert_details faults 0 (details_of id result) (select (is_other_report id) table)) [
          | err e ↦ err e
          | ok rows ↦ elim faults.commit_fault [ some e ↦ err e | none ↦ ok rows ]
        ]
  ]
]

unfoldable pub save_report_details : Faults → ℕ → ReconcileResult → Archive → Result Unit × Archive
unfolding detail_writes
save_report_details faults id result a = elim (detail_writes faults id result a.details) [
  | err e ↦ (err e, a)
  | ok rows ↦ (ok tt, record a { details = rows })
]

-- The end of `GenerateReport`: the details, after the row.
unfoldable pub finish_report :
    Faults → ℕ → ReconcileResult → String → Archive → Result String × Archive
unfolding save_report_details
finish_report faults id result path a =
    let (detailed, a') = save_report_details faults id result a in
    elim detailed [ err e ↦ (err e, a') | ok u ↦ (ok path, a') ]

unfoldable pub store_report :
    Faults → String → ReconcileResult → String → Archive → Result String × Archive
unfolding save_report finish_report
store_report faults date result path a =
    let (saved, a') = save_report faults date result path a in
    elim saved [ err e ↦ (err e, a') | ok id ↦ finish_report faults id result path a' ]

module _ (format : String → ℕ → String) where
  -- A file of the same name is overwritten.
  unfoldable pub generate : Faults → ReconcileResult → Archive → Result String × Archive
  unfolding report_path
  generate faults result a = elim faults.mkdir_fault [
    | some e ↦ (err (wrap "create report dir failed" e), a)
    | none ↦ elim faults.create_fault [
      | some e ↦ (err (wrap "create report file failed" e), a)
      | none ↦
          let path = report_path format result in
          let others = select (λ (f : String × List Row). not (f.0 == path)) a.files in
          (ok path, record a { files = (path, report_rows format result) ∷ others })
    ]
  ]

  abbrev pub stamped : ℕ → ReconcileResult → ReconcileResult
  stamped now result = record result {
    created_at = if eqb result.created_at 0 then now else result.created_at;
  }

  -- `has_db` is false where the service was made without a database.
  unfoldable pub generate_report :
      Bool → Faults → ℕ → Option ReconcileResult → Archive → Result String × Archive
  unfolding generate store_report
  generate_report has_db faults now none a = (err (plain "result is required"), a)
  generate_report has_db faults now (some result) a =
      let stamped_result = stamped now result in
      let (r, a1) = generate faults stamped_result a in
      elim r [
        | err e ↦ (err e, a1)
        | ok path ↦
            if not has_db
            then (ok path, a1)
            else store_report faults (format "2006-01-02" result.date) stamped_result path a1
      ]
