-- ===== src/Reconciliation/Tally.antt =====
-- What `compare` of internal/reconciliation counts, described without its maps and its loops.
use mathlib.Core.Path.{fun_ext}
use mathlib.Core.List.{append_assoc, append-nil}
use go_pay.Prelude.{
  ◌+◌, ◌≡◌, refl, ap, ◌∙◌, String, Bool, false, not, Option, none, some, List, [], ◌∷◌, ◌++◌, ◌==◌,
  map, is_some, length, select, arith, Option-cases, Bool-cases, inl, inr, if◌then◌else◌,
}
use go_pay.Prelude.Int.{eqb_ℤ}
use go_pay.Reconciliation.{AmountMismatch, ReconcileResult, BillRecord, Order}
use go_pay.Reconciliation.Compare.{
  index_onto, get, record_key, order_key, mismatch_of, check_record, check_external, check_internal,
  close_result, new_result, compare,
}

-- The last element with the key.
module _ {A : Type 0} (key : A → String) where
  abbrev pub last_with : List A → String → Option A
  last_with [] k = none
  last_with (x ∷ xs) k = elim (last_with xs k) [
    | some y ↦ some y
    | none ↦ if key x == k then some x else none
  ]

  get-index_onto :
      (xs : List A) (m : List (String × A)) (k : String)
      → get k (index_onto key xs m) ≡ elim (last_with xs k) [ some y ↦ some y | none ↦ get k m ]
  get-index_onto [] m k = refl
  get-index_onto (x ∷ xs) m k = ground (arith, get-index_onto xs ((key x, x) ∷ m) k)

  pub get-index : (xs : List A) → (λ k. get k (index_onto key xs [])) ≡ last_with xs
  get-index xs = fun_ext (λ k. ground (arith, get-index_onto xs [] k))

-- The records that the orders `look` finds agree with, those that it does not find, and the
-- differences in between.
module _ (look : String → Option Order) where
  abbrev pub agrees : BillRecord → Bool
  agrees r = elim (look r.order_no) [ none ↦ false | some o ↦ eqb_ℤ o.amount r.amount ]

  abbrev pub is_missing : BillRecord → Bool
  is_missing r = not (is_some (look r.order_no))

  abbrev pub differences : List BillRecord → List AmountMismatch
  differences [] = []
  differences (r ∷ rs) =
      let rest = differences rs in
      elim (look r.order_no) [
        | none ↦ rest
        | some o ↦ if eqb_ℤ o.amount r.amount then rest else mismatch_of o r ∷ rest
      ]

  -- What the loop over the bill adds to a result.
  abbrev pub tallied : List BillRecord → ReconcileResult → ReconcileResult
  tallied external result = record result {
    matched_orders = result.matched_orders + length (select agrees external);
    missing_orders = result.missing_orders ++ map record_key (select is_missing external);
    amount_mismatch = result.amount_mismatch ++ differences external;
  }

module _ (m : List (String × Order)) where
  tallied-check_record :
      (r : BillRecord) (external : List BillRecord) (result : ReconcileResult)
      → tallied (λ k. get k m) external (check_record m r result)
        ≡ tallied (λ k. get k m) (r ∷ external) result
  unfolding check_record
  tallied-check_record r external result = elim (Option-cases (get r.order_no m)) [
    | inl e ↦ ground (
      arith,
      e,
      append_assoc result.missing_orders (r.order_no ∷ [])
          (map record_key (select (is_missing (λ k. get k m)) external)),
    )
    | inr (o, e) ↦ elim (Bool-cases (eqb_ℤ o.amount r.amount)) [
      | inl k ↦ ground (arith, e, k)
      | inr k ↦ ground (
        arith,
        e,
        k,
        append_assoc result.amount_mismatch (mismatch_of o r ∷ [])
            (differences (λ k. get k m) external),
      )
    ]
  ]

  check_external-tallied :
      (external : List BillRecord) (result : ReconcileResult)
      → check_external m external result ≡ tallied (λ k. get k m) external result
  unfolding check_external
  check_external-tallied [] result =
      ground (arith, append-nil result.missing_orders, append-nil result.amount_mismatch)
  check_external-tallied (r ∷ external) result =
      check_external-tallied external (check_record m r result)
      ∙ tallied-check_record r external result

-- The orders whose number `look` does not find.
module _ (look : String → Option BillRecord) where
  abbrev pub is_extra : Order → Bool
  is_extra o = not (is_some (look o.order_no))

  abbrev pub with_extra : List Order → ReconcileResult → ReconcileResult
  with_extra internal result = record result {
    extra_orders = result.extra_orders ++ map order_key (select is_extra internal);
  }

check_internal-with_extra :
    (m : List (String × BillRecord)) (internal : List Order) (result : ReconcileResult)
    → check_internal m internal result ≡ with_extra (λ k. get k m) internal result
unfolding check_internal
check_internal-with_extra m [] result = ground (arith, append-nil result.extra_orders)
check_internal-with_extra m (o ∷ internal) result = elim (Option-cases (get o.order_no m)) [
  | inl e ↦ ground (
    arith,
    e,
    check_internal-with_extra m internal
        (record result { extra_orders = result.extra_orders ++ o.order_no ∷ [] }),
    append_assoc result.extra_orders (o.order_no ∷ [])
        (map order_key (select (is_extra (λ k. get k m)) internal)),
  )
  | inr (r, e) ↦ ground (arith, e, check_internal-with_extra m internal result)
]

-- The comparison without maps and loops, up to its status.
abbrev pub comparison : List BillRecord → List Order → ReconcileResult
comparison external internal =
    with_extra (last_with record_key external) internal
      (tallied (last_with order_key internal) external (new_result external))

pub compare-comparison :
    (external : List BillRecord) (internal : List Order)
    → compare external internal ≡ close_result (comparison external internal)
unfolding compare
compare-comparison external internal =
    let external_map = index_onto record_key external [] in
    let internal_map = index_onto order_key internal [] in
    ap close_result (
      check_internal-with_extra external_map internal _
      ∙ ap (λ r. with_extra (λ k. get k external_map) internal r)
          (check_external-tallied internal_map external (new_result external))
      ∙ ap
          (λ look.
            with_extra look internal
              (tallied (λ k. get k internal_map) external (new_result external)))
          (get-index record_key external)
      ∙ ap
          (λ look.
            with_extra (last_with record_key external) internal
              (tallied look external (new_result external)))
          (get-index order_key internal))
