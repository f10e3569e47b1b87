-- ===== src/Reconciliation/Agreement.antt =====
-- When `compare` of internal/reconciliation reports success, and how its counts add up.
use go_pay.Prelude.{
  ◌+◌, ◌≤◌, ◌≡◌, ◌↔◌, refl, sym, ap, ◌∙◌, String, Bool, true, false, ◌&&◌, Option, none, some, List,
  [], ◌∷◌, ◌==◌, map, is_some, length, select, any, all, All, All-imp, All-always, eq_refl, arith,
  eq_iff, Option-cases, Bool-cases, inl, inr, if◌then◌else◌,
}
use go_pay.Prelude.Int.{eqb_ℤ}
use go_pay.Reconciliation.{BillRecord, Order}
use go_pay.Reconciliation.Compare.{record_key, order_key, is_empty, close_result, compare}
use go_pay.Reconciliation.Tally.{
  last_with, agrees, is_missing, differences, is_extra, compare-comparison,
}

module _ {A : Type 0} (key : A → String) where
  -- No two elements have the same key.
  abbrev pub Unique : List A → Type 0
  Unique [] = Unit
  Unique (x ∷ xs) = (last_with key xs (key x) ≡ none) × Unique xs

  any-last_with :
      (q : A → Bool) (xs : List A) (k : String)
      → Unique xs
      → any (λ x. (key x == k) && q x) xs
        ≡ elim (last_with key xs k) [ none ↦ false | some x ↦ q x ]
  any-last_with q [] k u = refl
  any-last_with q (x ∷ xs) k u = elim (Bool-cases (key x == k)) [
    | inl e ↦
        let absent : last_with key xs k ≡ none =
          ap (last_with key xs) (sym ((eq_iff (key x) k).0 e)) ∙ u.0 in
        ground (arith, e, absent, any-last_with q xs k u.1)
    | inr e ↦ ground (arith, e, any-last_with q xs k u.1)
  ]

  -- What is found has the key, and what holds of all.
  last_with_sound :
      (p : A → Bool) (xs : List A) (k : String) (x : A)
      → last_with key xs k ≡ some x
      → all p xs ≡ true
      → ((key x == k) ≡ true) × (p x ≡ true)
  last_with_sound p [] k x h a = absurd (ground (arith, h))
  last_with_sound p (y ∷ xs) k x h a = elim (Option-cases (last_with key xs k)) [
    | inl e ↦ ground (arith, e, h, a)
    | inr (z, e) ↦ ground (arith, e, h, a, last_with_sound p xs k z e)
  ]

  any-found :
      (q : A → Bool) (xs : List A) (k : String) (x : A)
      → last_with key xs k ≡ some x
      → q x ≡ true
      → any (λ y. (key y == k) && q y) xs ≡ true
  any-found q [] k x h t = absurd (ground (arith, h))
  any-found q (y ∷ xs) k x h t = elim (Option-cases (last_with key xs k)) [
    | inl e ↦ ground (arith, e, h, t)
    | inr (z, e) ↦ ground (arith, e, h, t, any-found q xs k z e)
  ]

  found-any :
      (q : A → Bool) (xs : List A) (k : String)
      → any (λ y. (key y == k) && q y) xs ≡ true
      → is_some (last_with key xs k) ≡ true
  found-any q [] k h = h
  found-any q (y ∷ xs) k h = ground (arith, h, found-any q xs k)

  -- Each of the elements is found by its key.
  found_by_key : (xs : List A) → Unique xs → All (λ x. last_with key xs (key x) ≡ some x) xs
  found_by_key [] u = tt
  found_by_key (x ∷ xs) u = (
    ground (arith, u.0, eq_refl (key x)),
    All-imp (λ y h. ground (arith, h)) xs (found_by_key xs u.1),
  )

all-equal :
    {A : Type 0} (p q : A → Bool) (xs : List A) → All (λ x. p x ≡ q x) xs → all p xs ≡ all q xs
all-equal p q [] h = refl
all-equal p q (x ∷ xs) h = ground (arith, h.0, all-equal p q xs h.1)

-- The bill says that the order was paid, with its amount.
abbrev pub is_billed : List BillRecord → Order → Bool
is_billed external o = any (λ r. (r.order_no == o.order_no) && eqb_ℤ o.amount r.amount) external

-- The gateway holds the record of the bill as an order with its amount.
abbrev pub is_held : List Order → BillRecord → Bool
is_held internal r = any (λ o. (o.order_no == r.order_no) && eqb_ℤ o.amount r.amount) internal

length-select-map :
    (p : Order → Bool) (internal : List Order)
    → length (map order_key (select p internal)) ≤ length internal
length-select-map p [] = omega arith
length-select-map p (o ∷ internal) = ground (arith, length-select-map p internal)

module _ (look : String → Option Order) where
  empty-all-agrees :
      (external : List BillRecord)
      → (is_empty (map record_key (select (is_missing look) external))
          && is_empty (differences look external))
        ≡ all (agrees look) external
  empty-all-agrees [] = refl
  empty-all-agrees (r ∷ external) = elim (Option-cases (look r.order_no)) [
    | inl e ↦ ground (arith, e)
    | inr (o, e) ↦ ground (arith, e, empty-all-agrees external)
  ]

  length-tallied :
      (external : List BillRecord)
      → length external
        ≡ length (select (agrees look) external)
          + length (map record_key (select (is_missing look) external))
          + length (differences look external)
  length-tallied [] = refl
  length-tallied (r ∷ external) = elim (Option-cases (look r.order_no)) [
    | inl e ↦ ground (arith, e, length-tallied external)
    | inr (o, e) ↦ ground (arith, e, length-tallied external)
  ]

empty-all-found :
    (look : String → Option BillRecord) (internal : List Order)
    → is_empty (map order_key (select (is_extra look) internal))
      ≡ all (λ o. is_some (look o.order_no)) internal
empty-all-found look [] = refl
empty-all-found look (o ∷ internal) = ground (arith, empty-all-found look internal)

success_only :
    (b : Bool)
    → (let text : String = if b then "success" else "failed" in text ≡ "success") ↔ (b ≡ true)
success_only true = (λ p. refl, λ p. refl)
success_only false =
    (λ p. ground (arith, eq_iff "failed" "success", p), λ p. absurd (ground (arith, p)))

verdict :
    (m e d a f : Bool)
    → (m && d) ≡ a
    → e ≡ f
    → (let text : String = if m && e && d then "success" else "failed" in text ≡ "success")
      ↔ ((a ≡ true) × (f ≡ true))
verdict m e d a f h k = (
  λ p. ground (arith, h, k, (success_only (m && e && d)).0 p),
  λ p. (success_only (m && e && d)).1 (ground (arith, h, k, p)),
)

module _ (external : List BillRecord) (internal : List Order) where
  abbrev held_orders : String → Option Order
  held_orders = last_with order_key internal

  abbrev bill_records : String → Option BillRecord
  bill_records = last_with record_key external

  found-billed :
      (o : Order)
      → all (agrees held_orders) external ≡ true
      → held_orders o.order_no ≡ some o
      → is_some (bill_records o.order_no) ≡ is_billed external o
  found-billed o a h = elim (Option-cases (bill_records o.order_no)) [
    | inl e ↦ elim (Bool-cases (is_billed external o)) [
      | inl b ↦ absurd (
          ground
            (arith, e, found-any record_key (λ r. eqb_ℤ o.amount r.amount) external o.order_no b))
      | inr b ↦ ground (arith, e, b)
    ]
    | inr (r, e) ↦
        let (same, agreed) =
          last_with_sound record_key (agrees held_orders) external o.order_no r e a in
        let found = ap held_orders ((eq_iff r.order_no o.order_no).0 same) ∙ h in
        ground (
          arith,
          e,
          any-found record_key (λ r. eqb_ℤ o.amount r.amount) external o.order_no r e
              (ground (arith, found, agreed)),
        )
  ]

  status-success : ((compare external internal).status ≡ "success") ↔ (
      (all (agrees held_orders) external ≡ true)
      × (all (λ o. is_some (bill_records o.order_no)) internal ≡ true))
  unfolding close_result
  status-success = rw (compare-comparison external internal) (
      verdict _ _ _ _ _ (empty-all-agrees held_orders external)
        (empty-all-found bill_records internal))

  -- Where the gateway's orders have different numbers, the comparison reports success just where
  -- every record of the bill is held as an order with the amount billed, and every order is on the
  -- bill with its amount.
  pub compare-success :
      Unique order_key internal
      → ((compare external internal).status ≡ "success")
        ↔ ((all (is_held internal) external ≡ true) × (all (is_billed external) internal ≡ true))
  compare-success u =
      let held : all (is_held internal) external ≡ all (agrees held_orders) external =
        all-equal (is_held internal) (agrees held_orders) external (
          All-always
            (λ r. any-last_with order_key (λ o. eqb_ℤ o.amount r.amount) internal r.order_no u)
            external) in
      let billed = λ (a : all (agrees held_orders) external ≡ true).
        all-equal (λ o. is_some (bill_records o.order_no)) (is_billed external) internal
          (All-imp (λ o. found-billed o a) internal (found_by_key order_key internal u)) in
      (
        λ e. let (a, f) = status-success.0 e in (held ∙ a, sym (billed a) ∙ f),
        λ e. let a = sym held ∙ e.0 in status-success.1 (a, billed a ∙ e.1),
      )

  -- Every record of the bill is counted as matched, missing or differing, and no order is
  -- reported more often than the gateway holds it.
  pub compare-counts :
      let result = compare external internal in
      (result.total_orders
        ≡ result.matched_orders + length result.missing_orders + length result.amount_mismatch)
      × (length result.extra_orders ≤ length internal)
  unfolding close_result
  compare-counts = rw (compare-comparison external internal) (
    omega (arith, length-tallied held_orders external),
    length-select-map (is_extra bill_records) internal,
  )
