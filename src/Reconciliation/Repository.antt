-- ===== src/Reconciliation/Repository.antt =====
-- `getOrders` of internal/reconciliation/repository.go. A date is a number of days, of 24 hours
-- each; the time zone's start of the day is `start_of`.
use go_pay.Prelude.{
  ℕ, ◌+◌, String, Bool, true, false, ◌&&◌, Option, none, some, List, ◌==◌, map, starts_with, ltb,
  leb, select, order_by, if◌then◌else◌,
}
use go_pay.Errors.{GoError, wrap, Result, ok, err}
use go_pay.Models as Models
use go_pay.Reconciliation.{Order}

-- A time that is not NULL, at least `start` and before `end`.
abbrev pub is_between : ℕ → ℕ → Option ℕ → Bool
is_between start end none = false
is_between start end (some t) = leb start t && ltb t end

-- The `WHERE` clause.
abbrev pub is_reconciled : String → ℕ → String → Models.Order → Bool
is_reconciled channel start app_id o =
    starts_with o.channel channel
    && is_between start (start + 86400) o.paid_at
    && (o.status == "paid")
    && (if app_id == "" then true else (o.app_id == app_id))

abbrev pub paid_time : Models.Order → ℕ
paid_time o = elim o.paid_at [ none ↦ 0 | some t ↦ t ]

abbrev pub scan_order : Models.Order → Order
scan_order o = record {
  order_no = o.order_no;
  amount = o.amount;
  status = o.status;
  paid_at = paid_time o;
}

-- `fault` is the error of the query, if it fails.
unfoldable pub get_orders :
    Option GoError → List Models.Order → ℕ → String → String → Result (List Order)
get_orders (some e) orders start channel app_id = err (wrap "query orders failed" e)
get_orders none orders start channel app_id =
    ok (map scan_order (order_by paid_time (select (is_reconciled channel start app_id) orders)))
