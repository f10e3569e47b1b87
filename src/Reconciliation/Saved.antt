-- ===== src/Reconciliation/Saved.antt =====
-- What `GenerateReport` of internal/reconciliation/reconciliation.go leaves in the tables.
use mathlib.Core.Path.{subst}
use mathlib.Core.List.{append_assoc, append-nil}
use go_pay.Prelude.{
  ℕ, suc, ◌≡◌, refl, sym, ap, ◌∙◌, String, Bool, true, false, some, List, [], ◌∷◌, ◌++◌, eqb, find,
  update, select, map, All, All-append, All-map, length, arith, eq_refl, find-update, find-append,
  find_sound, Option-cases, inl, inr,
}
use go_pay.Errors.{wrap, Result, ok, err, Result-cases}
use go_pay.Reconciliation.{AmountMismatch, ReconcileResult}
use go_pay.Reconciliation.Store.{
  ReportRow, Detail, Archive, Faults, is_report_of, filled_in, report_row, upsert_report, detail_of,
  mismatch_detail, details_of, insert_details, is_other_report, detail_writes, finish_report,
  store_report, generate, stamped, generate_report,
}

insert_details-ok :
    (faults : Faults) (n : ℕ) (ds table rows : List Detail)
    → insert_details faults n ds table ≡ ok rows
    → rows ≡ table ++ ds
unfolding insert_details
insert_details-ok faults n [] table rows h = ground (arith, h, append-nil table)
insert_details-ok faults n (d ∷ ds) table rows h =
    insert_details-ok faults (suc n) ds (table ++ d ∷ []) rows (ground (arith, h))
    ∙ append_assoc table (d ∷ []) ds

module _ {A : Type 0} (p : A → Bool) where
  select-append : (xs ys : List A) → select p (xs ++ ys) ≡ select p xs ++ select p ys
  select-append [] ys = refl
  select-append (x ∷ xs) ys = ground (arith, select-append xs ys)

  select-select : (xs : List A) → select p (select p xs) ≡ select p xs
  select-select [] = refl
  select-select (x ∷ xs) = ground (arith, select-select xs)

  select-none : (xs : List A) → All (λ x. p x ≡ false) xs → select p xs ≡ []
  select-none [] h = refl
  select-none (x ∷ xs) h = ground (arith, h.0, select-none xs h.1)

  select-every : (xs : List A) → All (λ x. p x ≡ true) xs → select p xs ≡ xs
  select-every [] h = refl
  select-every (x ∷ xs) h = ground (arith, h.0, select-every xs h.1)

abbrev pub is_of_report : ℕ → Detail → Bool
is_of_report id d = eqb d.report_id id

select-other :
    (id : ℕ) (table : List Detail)
    → select (is_of_report id) (select (is_other_report id) table) ≡ []
select-other id [] = refl
select-other id (d ∷ table) = ground (arith, select-other id table)

module _ (id : ℕ) (result : ReconcileResult) where
  details-All :
      (P : Detail → Type 0)
      → ((kind n : String) → P (detail_of id kind n))
      → ((m : AmountMismatch) → P (mismatch_detail id m))
      → All P (details_of id result)
  details-All P f g =
      All-append P _ (map (mismatch_detail id) result.amount_mismatch)
        (All-append P _ (map (detail_of id "short") result.extra_orders)
          (All-map P (detail_of id "long") (f "long") result.missing_orders)
          (All-map P (detail_of id "short") (f "short") result.extra_orders))
        (All-map P (mismatch_detail id) g result.amount_mismatch)

  of_report : All (λ d. is_of_report id d ≡ true) (details_of id result)
  of_report =
      details-All (λ d. is_of_report id d ≡ true) (λ kind n. ground arith) (λ m. ground arith)

  not_other : All (λ d. is_other_report id d ≡ false) (details_of id result)
  not_other =
      details-All (λ d. is_other_report id d ≡ false) (λ kind n. ground arith) (λ m. ground arith)

  written_rows :
      (faults : Faults) (table rows : List Detail)
      → detail_writes faults id result table ≡ ok rows
      → rows ≡ select (is_other_report id) table ++ details_of id result
  unfolding detail_writes
  written_rows faults table rows h =
      let others = select (is_other_report id) table in
      elim (Result-cases (insert_details faults 0 (details_of id result) others)) [
        | inl (e, k) ↦ absurd (ground (arith, h, k))
        | inr (rows', k) ↦
            let same : rows ≡ rows' = ground (arith, h, k) in
            same ∙ insert_details-ok faults 0 (details_of id result) others rows' k
      ]

  -- The transaction replaces the details of the report and no others.
  detail_writes-ok :
      (faults : Faults) (table rows : List Detail)
      → detail_writes faults id result table ≡ ok rows
      → (select (is_of_report id) rows ≡ details_of id result)
        × (select (is_other_report id) rows ≡ select (is_other_report id) table)
  detail_writes-ok faults table rows h =
      let others = select (is_other_report id) table in
      let written : rows ≡ others ++ details_of id result = written_rows faults table rows h in
      (
        ap (select (is_of_report id)) written
            ∙ select-append (is_of_report id) others (details_of id result)
            ∙ ground (
              arith,
              select-other id table,
              select-every (is_of_report id) (details_of id result) of_report,
            ),
        ap (select (is_other_report id)) written
            ∙ select-append (is_other_report id) others (details_of id result)
            ∙ ground (
              arith,
              select-select (is_other_report id) table,
              select-none (is_other_report id) (details_of id result) not_other,
              append-nil others,
            ),
      )

-- The row of the report's date, channel and app has its id, its counts, its status and its file.
abbrev pub Recorded : String → ReconcileResult → String → ℕ → List ReportRow → Type 0
Recorded date result path id reports =
    (r : ReportRow) × (find (is_report_of date result.channel result.app_id) reports ≡ some r)
    × (r.id ≡ id)
    × (r.total_orders ≡ result.total_orders)
    × (r.matched_orders ≡ result.matched_orders)
    × (r.long_orders ≡ length result.missing_orders)
    × (r.short_orders ≡ length result.extra_orders)
    × (r.amount_mismatch ≡ length result.amount_mismatch)
    × (r.status ≡ result.status)
    × (r.file_path ≡ path)

module _ (date : String) (result : ReconcileResult) (path : String) (a : Archive) where
  abbrev same_report : ReportRow → Bool
  same_report = is_report_of date result.channel result.app_id

  upsert_report-Recorded :
      let (id, a') = upsert_report date result path a in
      Recorded date result path id a'.reports × (a'.details ≡ a.details)
  unfolding upsert_report
  upsert_report-Recorded = elim (Option-cases (find same_report a.reports)) [
    | inl e ↦
        let row = report_row a.next_id date result path in
        let found : find same_report (a.reports ++ row ∷ []) ≡ some row = ground (
          arith,
          e,
          find-append same_report a.reports (row ∷ []),
          eq_refl date,
          eq_refl result.channel,
          eq_refl result.app_id,
        ) in
        rw (e, upsert_report) ((row, found, refl, refl, refl, refl, refl, refl, refl, refl), refl)
    | inr (r, e) ↦
        let row = filled_in result path r in
        let found : find same_report (update same_report (filled_in result path) a.reports)
            ≡ some row =
          ground (
            arith,
            e,
            find-update same_report same_report (filled_in result path) (λ x. refl) a.reports,
            find_sound same_report a.reports e,
          ) in
        rw (e, upsert_report) ((row, found, refl, refl, refl, refl, refl, refl, refl, refl), refl)
  ]

abbrev pub Stored : String → ReconcileResult → Archive → Result String → Archive → Type 0
Stored date result a (err e) a' = a'.details ≡ a.details
Stored date result a (ok path) a' =
    (id : ℕ) × Recorded date result path id a'.reports
    × (select (is_of_report id) a'.details ≡ details_of id result)
    × (select (is_other_report id) a'.details ≡ select (is_other_report id) a.details)

at_end :
    (date : String) (result : ReconcileResult) (a : Archive) {p q : Result String × Archive}
    → p ≡ q
    → Stored date result a q.0 q.1
    → Stored date result a p.0 p.1
at_end date result a e h = subst (λ p. Stored date result a p.0 p.1) (sym e) h

Stored-from :
    (date : String) (result : ReconcileResult) (a1 a : Archive)
    → a1.details ≡ a.details
    → (r : Result String) (a' : Archive) → Stored date result a1 r a'
    → Stored date result a r a'
Stored-from date result a1 a same (err e) a' h = h ∙ same
Stored-from date result a1 a same (ok path) a' (id, recorded, new, others) =
    (id, recorded, new, others ∙ ap (select (is_other_report id)) same)

module _ (faults : Faults) where
  generate-same :
      (format : String → ℕ → String) (result : ReconcileResult) (a : Archive)
      → let a' = (generate format faults result a).1 in
        (a'.reports ≡ a.reports) × (a'.details ≡ a.details)
  unfolding generate
  generate-same format result a = ground arith

  finish_report-Stored :
      (date : String) (result : ReconcileResult) (path : String) (id : ℕ) (a : Archive)
      → Recorded date result path id a.reports
      → let (r, a') = finish_report faults id result path a in Stored date result a r a'
  unfolding finish_report
  finish_report-Stored date result path id a recorded =
      elim (Result-cases (detail_writes faults id result a.details)) [
        | inl (e, h) ↦
            let run : finish_report faults id result path a ≡ (err e, a) = ground (arith, h) in
            at_end date result a run refl
        | inr (rows, h) ↦
            let run : finish_report faults id result path a
                ≡ (ok path, record a { details = rows }) =
              ground (arith, h) in
            let (new, others) = detail_writes-ok id result faults a.details rows h in
            at_end date result a run (id, recorded, new, others)
      ]

  store_report-Stored :
      (date : String) (result : ReconcileResult) (path : String) (a : Archive)
      → let (r, a') = store_report faults date result path a in Stored date result a r a'
  unfolding store_report
  store_report-Stored date result path a = elim (Option-cases faults.upsert_fault) [
    | inr (e, h) ↦
        let run : store_report faults date result path a
            ≡ (err (wrap "save reconciliation report failed" e), a) =
          ground (arith, h) in
        at_end date result a run refl
    | inl h ↦
        let (id, a2) = upsert_report date result path a in
        let (recorded, same) = upsert_report-Recorded date result path a in
        let run : store_report faults date result path a ≡ finish_report faults id result path a2 =
          ground (arith, h) in
        at_end date result a run (
          Stored-from date result a2 a same _ _
            (finish_report-Stored date result path id a2 recorded))
  ]

-- Whatever statement fails, `GenerateReport` either fails and leaves the table of details as it
-- was, or returns the path: then the row of the date, the channel and the app holds the counts of
-- the result, the details of that row are those of the result, each once and in order, whatever an
-- earlier run has stored, and the details of other reports are as they were.
pub generate_report-Stored :
    (format : String → ℕ → String) (faults : Faults) (now : ℕ) (result : ReconcileResult)
    (a : Archive)
    → let (r, a') = generate_report format true faults now (some result) a in
      Stored (format "2006-01-02" result.date) result a r a'
unfolding generate_report
generate_report-Stored format faults now result a =
    let r = stamped format now result in
    let date : String = format "2006-01-02" result.date in
    let a1 = (generate format faults r a).1 in
    let (reports, details) = generate-same faults format r a in
    elim (Result-cases (generate format faults r a).0) [
      | inl (e, h) ↦
          let run : generate_report format true faults now (some result) a ≡ (err e, a1) =
            ground (arith, h) in
          at_end date result a run details
      | inr (path, h) ↦
          let run : generate_report format true faults now (some result) a
              ≡ store_report faults date r path a1 =
            ground (arith, h) in
          at_end date result a run
            (Stored-from date result a1 a details _ _ (store_report-Stored faults date r path a1))
    ]
