-- ===== src/Examples/Gateway.antt =====
-- Concrete requests at the signature gate, and the bill of one day against the orders of the shop.
use go_pay.Prelude.{
  take, ◌↔◌, ℕ, ◌+◌, ◌-◌, ◌*◌, ◌%◌, ◌^◌, ◌≤◌, ◌<◌, ◌≡◌, ◌⊎◌, ◌↔◌, String, true, false, none, some,
  List, [], ◌∷◌, refl, arith, All, all, length,
}
use go_pay.Prelude.Int.{ℤ, pos, negsuc, ◌≤ℤ◌}
use go_pay.Errors.{ok}
use go_pay.Middleware.{next}
use go_pay.Middleware.Signature.{SignedRequest, signature_auth, parse_int, is_expired, app_row}
use go_pay.Middleware.Window.{is_expired-window}
use go_pay.Middleware.Admission.{Admitted, signature_auth-next}
use go_pay.Middleware.Replay.{Event, arrive, sweep, passes, no_replay}
use go_pay.Security.Nonces.{seen_at, check_nonce}
use go_pay.Reconciliation.{BillRecord, Order, ReconcileResult, panicked, returned}
use go_pay.Reconciliation.Bills.{parse_wechat_bill}
use go_pay.Reconciliation.Compare.{compare, close_result}
use go_pay.Reconciliation.Tally.{comparison, compare-comparison}
use go_pay.Reconciliation.Agreement.{is_held, is_billed, compare-success, compare-counts}
use go_pay.Reconciliation.Store.{Archive, Faults, generate_report}
use go_pay.Reconciliation.Saved.{Stored, generate_report-Stored}
use go_pay.Reconciliation.Schedule.{reconcile_date, get_next_run_time}
use go_pay.Reconciliation.Alerts.{Agrees, run, reconcile_date-quiet, get_next_run_time_bounds}
use go_pay.Reconciliation.Panics.{Overruns, parse_wechat_bill-panics}
use go_pay.Models as Models
use go_pay.Reconciliation.Run.{Reconciler, wechat_reconciler, reconcile_orders}
use go_pay.Reconciliation.Repository.{scan_order, get_orders}
use go_pay.Reconciliation.Shortage.{FromRow, reconcile_orders-FromRow}
use go_pay.Examples.Shop.{shop, order}

abbrev hmac : String → String → String
hmac secret text = secret

abbrev request : SignedRequest
request = record {
  app_id = "shop";
  timestamp = "1000";
  nonce = "n1";
  signature = "secret";
  body = ok "{}";
}

abbrev arrival : ℕ → Event
arrival now =
    arrive
      (record { fault = none; apps = shop ∷ []; now = now; checked_at = now; request = request })

abbrev replays : List Event
replays = arrival 1000 ∷ arrival 1100 ∷ sweep 1299 ∷ arrival 1300 ∷ sweep 1400 ∷ arrival 1401 ∷ []

no_replay_example : passes hmac "n1" "1000" (some []) replays ≤ 1
unfolding parse_int
no_replay_example = no_replay hmac "n1" "1000" 1000 refl 1000 [] replays (omega arith) (omega arith)

is_expired-window_example :
    (is_expired (pos 1000) (pos 701) ≡ false)
    ↔ ((pos 700 ≤ℤ pos 701) × (pos 701 ≤ℤ pos 1300)) ⊎ (pos 701 ≡ negsuc (2 ^ 63 - 1 - 1000))
is_expired-window_example =
    is_expired-window 1000 (pos 701) (omega arith) (omega arith) (omega arith)

abbrev IsAdmitted : SignedRequest → Type 0
IsAdmitted r = Admitted hmac none (shop ∷ []) r (app_row hmac none (shop ∷ []) r.app_id)

admitted_at_once :
    (signature_auth hmac none (shop ∷ []) 1100 1100 (some []) request).0 ≡ next "shop"
unfolding signature_auth parse_int is_expired check_nonce
admitted_at_once = refl

signature_auth-next_example :
    ("shop" ≡ request.app_id)
    × IsAdmitted request
    × (seen_at "n1" [] ≡ none)
    × ((timestamp : ℤ) × (parse_int "1000" ≡ some timestamp)
        × (is_expired (pos 1100) timestamp ≡ false))
signature_auth-next_example =
    signature_auth-next hmac none (shop ∷ []) 1100 1100 [] request "shop" admitted_at_once

abbrev record_of : String → ℕ → BillRecord
record_of order_no amount = record {
  transaction_id = "P1";
  order_no = order_no;
  amount = pos amount;
  status = "SUCCESS";
  channel = "wechat";
}

abbrev order_of : String → ℕ → Order
order_of order_no amount = record {
  order_no = order_no;
  amount = pos amount;
  status = "paid";
  paid_at = 1000;
}

-- One order agrees, one has another amount, one is only on the bill and one only in the table.
abbrev bill : List BillRecord
bill = record_of "A" 500 ∷ record_of "B" 700 ∷ record_of "C" 100 ∷ []

abbrev held : List Order
held = order_of "A" 500 ∷ order_of "B" 600 ∷ order_of "D" 300 ∷ []

compare-comparison_example : compare bill held ≡ close_result (comparison bill held)
compare-comparison_example = compare-comparison bill held

compare-success_example :
    ((compare bill held).status ≡ "success")
    ↔ ((all (is_held held) bill ≡ true) × (all (is_billed bill) held ≡ true))
compare-success_example = compare-success bill held (refl, (refl, (refl, tt)))

compare-counts_example :
    ((compare bill held).total_orders
      ≡ (compare bill held).matched_orders
        + length (compare bill held).missing_orders
        + length (compare bill held).amount_mismatch)
    × (length (compare bill held).extra_orders ≤ length held)
compare-counts_example = compare-counts bill held

abbrev format : String → ℕ → String
format layout time = layout

abbrev no_faults : Faults
no_faults = record {
  mkdir_fault = none;
  create_fault = none;
  upsert_fault = none;
  begin_fault = none;
  clear_fault = none;
  insert_fault = λ n. none;
  commit_fault = none;
}

abbrev archive : Archive
archive = record { files = []; reports = []; details = []; next_id = 1 }

generate_report-Stored_example :
    let (r, a') = generate_report format true no_faults 9 (some (compare bill held)) archive in
    Stored "2006-01-02" (compare bill held) archive r a'
generate_report-Stored_example =
    generate_report-Stored format no_faults 9 (compare bill held) archive

abbrev quiet_results : List ReconcileResult
quiet_results = compare (record_of "A" 500 ∷ []) (order_of "A" 500 ∷ []) ∷ []

quiet_at_once :
    (run format true true (λ n. no_faults) 9 quiet_results archive []).0 ≡ returned (ok tt)
unfolding reconcile_date compare generate_report
quiet_at_once = refl

reconcile_date-quiet_example :
    All Agrees quiet_results
    × ((run format true true (λ n. no_faults) 9 quiet_results archive []).2 ≡ [])
reconcile_date-quiet_example =
    reconcile_date-quiet format true true (λ n. no_faults) 9 quiet_results archive [] quiet_at_once

get_next_run_time_bounds_example :
    (10000 ≤ get_next_run_time (λ t. 0) 10000)
    × (get_next_run_time (λ t. 0) 10000 < 10000 + 24 * 3600)
    × (get_next_run_time (λ t. 0) 10000 % (24 * 3600) ≡ (0 + 2 * 3600) % (24 * 3600))
get_next_run_time_bounds_example =
    get_next_run_time_bounds (λ t. 0) 10000 (omega arith) (omega arith)

abbrev fields : List String
fields =
    "1" ∷ "2" ∷ "3" ∷ "4" ∷ "5" ∷ "P1" ∷ "A" ∷ "8" ∷ "9" ∷ "SUCCESS" ∷ "11" ∷ "12" ∷ "5.00" ∷ []

abbrev cents : String → ℤ
cents text = pos 500

parse_wechat_bill-panics_example :
    (parse_wechat_bill cents (some (ok fields ∷ ok fields ∷ ok (take 9 fields) ∷ [])) ≡ panicked)
    ↔ Overruns (ok fields ∷ ok (take 9 fields) ∷ [])
parse_wechat_bill-panics_example =
    parse_wechat_bill-panics cents fields (ok fields ∷ ok (take 9 fields) ∷ [])

-- A row of eight fields makes it panic.
short_row_panics :
    parse_wechat_bill cents
      (some (ok fields ∷ ok ("" ∷ "" ∷ "" ∷ "" ∷ "" ∷ "" ∷ "" ∷ "" ∷ []) ∷ []))
    ≡ panicked
unfolding parse_wechat_bill
short_row_panics = refl

-- An order of the day that WeChat's bill does not name.
abbrev unbilled : Models.Order
unbilled = record (order "paid") { channel = "wechat_native"; paid_at = some 100 }

abbrev day_reconciler : Reconciler
day_reconciler =
    wechat_reconciler cents (λ date. ok (some (ok fields ∷ ok fields ∷ [])))
      (λ day channel app. get_orders none (unbilled ∷ []) (day * 86400) channel app)

abbrev bill_of_day : List BillRecord
bill_of_day =
    record {
      transaction_id = "P1";
      order_no = "A";
      amount = pos 500;
      status = "SUCCESS";
      channel = "wechat";
    }
    ∷ []

abbrev result_of_day : ReconcileResult
result_of_day = record (compare bill_of_day (scan_order unbilled ∷ [])) {
  date = 0;
  channel = "wechat";
  app_id = "";
  created_at = 9;
}

reconciled_at_once : reconcile_orders day_reconciler 9 0 "" ≡ returned (ok result_of_day)
unfolding reconcile_orders parse_wechat_bill get_orders compare
reconciled_at_once = refl

reconcile_orders-FromRow_example :
    All (FromRow "wechat" 0 "" (unbilled ∷ [])) result_of_day.extra_orders
reconcile_orders-FromRow_example =
    reconcile_orders-FromRow day_reconciler none (unbilled ∷ []) (λ day. day * 86400) 9 0 ""
      result_of_day refl reconciled_at_once
