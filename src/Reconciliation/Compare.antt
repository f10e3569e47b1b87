-- ===== src/Reconciliation/Compare.antt =====
-- `compare` of internal/reconciliation/wechat.go and alipay.go, which is the same code. A Go map is
-- an association list in which the last assignment to a key stands first.
use go_pay.Prelude.{
  ◌+◌, String, Bool, true, false, not, ◌&&◌, Option, none, some, List, [], ◌∷◌, ◌++◌, ◌==◌, is_some,
  length, if◌then◌else◌,
}
use go_pay.Prelude.Int.{eqb_ℤ}
use go_pay.Prelude.Word.{sub64}
use go_pay.Reconciliation.{AmountMismatch, ReconcileResult, BillRecord, Order}

module _ {A : Type 0} (key : A → String) where
  -- `for _, x := range xs { m[x.OrderNo] = x }`
  abbrev pub index_onto : List A → List (String × A) → List (String × A)
  index_onto [] m = m
  index_onto (x ∷ xs) m = index_onto xs ((key x, x) ∷ m)

abbrev pub get {ℓ} : {A : Type ℓ} → String → List (String × A) → Option A
get k [] = none
get k ((j, x) ∷ m) = if j == k then some x else get k m

abbrev pub record_key : BillRecord → String
record_key r = r.order_no

abbrev pub order_key : Order → String
order_key o = o.order_no

unfoldable pub mismatch_of : Order → BillRecord → AmountMismatch
mismatch_of o r = record {
  order_no = r.order_no;
  internal_amount = o.amount;
  external_amount = r.amount;
  difference = sub64 o.amount r.amount;
}

-- One turn of the loop over the bill.
unfoldable pub check_record : List (String × Order) → BillRecord → ReconcileResult → ReconcileResult
check_record internal_map r result = elim (get r.order_no internal_map) [
  | some o ↦
      if not (eqb_ℤ o.amount r.amount)
      then record result { amount_mismatch = result.amount_mismatch ++ mismatch_of o r ∷ [] }
      else record result { matched_orders = result.matched_orders + 1 }
  | none ↦ record result { missing_orders = result.missing_orders ++ r.order_no ∷ [] }
]

unfoldable pub check_external :
    List (String × Order) → List BillRecord → ReconcileResult → ReconcileResult
unfolding check_record
check_external internal_map [] result = result
check_external internal_map (r ∷ external) result =
    check_external internal_map external (check_record internal_map r result)

unfoldable pub check_internal :
    List (String × BillRecord) → List Order → ReconcileResult → ReconcileResult
check_internal external_map [] result = result
check_internal external_map (o ∷ internal) result = check_internal external_map internal (
    if not (is_some (get o.order_no external_map))
    then record result { extra_orders = result.extra_orders ++ o.order_no ∷ [] }
    else result)

abbrev pub is_empty {ℓ} : {A : Type ℓ} → List A → Bool
is_empty [] = true
is_empty (x ∷ xs) = false

unfoldable pub close_result : ReconcileResult → ReconcileResult
close_result result = record result {
  status =
      if is_empty result.missing_orders
        && is_empty result.extra_orders
        && is_empty result.amount_mismatch
      then "success"
      else "failed";
}

abbrev pub new_result : List BillRecord → ReconcileResult
new_result external = record {
  date = 0;
  channel = "";
  app_id = "";
  total_orders = length external;
  matched_orders = 0;
  missing_orders = [];
  extra_orders = [];
  amount_mismatch = [];
  status = "";
  created_at = 0;
}

unfoldable pub compare : List BillRecord → List Order → ReconcileResult
unfolding check_external check_internal close_result
compare external internal = close_result (
    check_internal (index_onto record_key external []) internal
      (check_external (index_onto order_key internal []) external (new_result external)))
