-- ===== src/Reconciliation/Alerts.antt =====
-- When a run of internal/reconciliation/scheduler.go ends without an error.
use go_pay.Prelude.{
  ℕ, suc, ◌+◌, ◌%◌, ◌*◌, ◌≤◌, ◌<◌, ◌≡◌, refl, ◌∙◌, String, ⊤, Bool, true, false, some, List, [],
  ◌∷◌, All, arith, Bool-cases, inl, inr,
}
use go_pay.Errors.{ok, Result-cases}
use go_pay.Reconciliation.{ReconcileResult, Call, returned}
use go_pay.Reconciliation.Compare.{is_empty}
use go_pay.Reconciliation.Store.{Archive, Faults, generate_report}
use go_pay.Reconciliation.Schedule.{
  Progress, has_difference, process_result, process_results, reconcile_date, get_next_run_time,
}

-- Every payment of the bill has an order of its amount, and every order is on the bill.
abbrev pub Agrees : ReconcileResult → Type 0
Agrees result =
    (result.missing_orders ≡ []) × (result.extra_orders ≡ []) × (result.amount_mismatch ≡ [])

is_empty-nil : {A : Type 0} (xs : List A) → is_empty xs ≡ true → xs ≡ []
is_empty-nil [] h = refl
is_empty-nil (x ∷ xs) h = absurd (ground (arith, h))

has_difference-Agrees : (result : ReconcileResult) → has_difference result ≡ false → Agrees result
has_difference-Agrees result h = (
  is_empty-nil result.missing_orders (ground (arith, h)),
  is_empty-nil result.extra_orders (ground (arith, h)),
  is_empty-nil result.amount_mismatch (ground (arith, h)),
)

module _ (format : String → ℕ → String) (has_notifier has_db : Bool) where
  abbrev step : Faults → ℕ → ReconcileResult → Progress → Progress
  step = process_result format has_notifier has_db

  abbrev steps : (ℕ → Faults) → ℕ → ℕ → List ReconcileResult → Progress → Progress
  steps = process_results format has_notifier has_db

  process_result-quiet :
      (faults : Faults) (now : ℕ) (result : ReconcileResult) (p : Progress)
      → (step faults now result p).has_error ≡ false
      → Agrees result × ((step faults now result p).alerts ≡ p.alerts) × (p.has_error ≡ false)
  unfolding process_result
  process_result-quiet faults now result p h =
      elim (Result-cases (generate_report format has_db faults now (some result) p.archive).0) [
        | inl (e, k) ↦ absurd (ground (arith, h, k))
        | inr (path, k) ↦ (
          has_difference-Agrees result (ground (arith, h, k)),
          ground (arith, h, k),
          ground (arith, h, k),
        )
      ]

  process_results-quiet :
      (faults : ℕ → Faults) (now n : ℕ) (results : List ReconcileResult) (p : Progress)
      → (steps faults now n results p).has_error ≡ false
      → All Agrees results
        × ((steps faults now n results p).alerts ≡ p.alerts)
        × (p.has_error ≡ false)
  unfolding process_results
  process_results-quiet faults now n [] p h = (tt, refl, h)
  process_results-quiet faults now n (result ∷ results) p h =
      let (rest, same, calm) =
        process_results-quiet faults now (suc n) results (step (faults n) now result p) h in
      let (agreed, same', calm') = process_result-quiet (faults n) now result p calm in
      ((agreed, rest), same ∙ same', calm')

  abbrev pub run :
      (ℕ → Faults)
      → ℕ
      → List ReconcileResult
      → Archive
      → List String
      → Call ⊤ × Archive × List String
  run faults now results archive alerts =
      reconcile_date format has_notifier has_db faults now (returned (ok results)) archive alerts

  -- A run over the results of a day that returns no error has sent no alert, and none of these
  -- results lists a missing order, an extra order or an amount that differs.
  pub reconcile_date-quiet :
      (faults : ℕ → Faults) (now : ℕ) (results : List ReconcileResult) (archive : Archive)
      (alerts : List String)
      → (run faults now results archive alerts).0 ≡ returned (ok tt)
      → All Agrees results × ((run faults now results archive alerts).2 ≡ alerts)
  unfolding reconcile_date
  reconcile_date-quiet faults now results archive alerts h =
      let p : Progress = record { archive = archive; alerts = alerts; has_error = false } in
      elim (Bool-cases (steps faults now 0 results p).has_error) [
        | inl e ↦ absurd (ground (arith, h, e))
        | inr e ↦
            let (agreed, same, calm) = process_results-quiet faults now 0 results p e in
            (agreed, same)
      ]

-- The next run is at two o'clock, not before now and within a day, where the day has 24 hours.
pub get_next_run_time_bounds :
    (day_start : ℕ → ℕ) (now : ℕ)
    → day_start now ≤ now
    → now < day_start now + 24 * 3600
    → (now ≤ get_next_run_time day_start now)
      × (get_next_run_time day_start now < now + 24 * 3600)
      × (get_next_run_time day_start now % (24 * 3600) ≡ (day_start now + 2 * 3600) % (24 * 3600))
unfolding get_next_run_time
get_next_run_time_bounds day_start now h k = ground arith
