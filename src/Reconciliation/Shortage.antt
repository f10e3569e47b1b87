-- ===== src/Reconciliation/Shortage.antt =====
-- Where the extra orders of a reconciliation of internal/reconciliation come from.
use go_pay.Prelude.{
  ℕ, ◌+◌, ◌≤◌, ◌<◌, ◌⊎◌, inl, inr, Any, Bool-cases, Option-cases, eq_iff, starts_with, ◌≡◌, refl,
  sym, ap, ◌∙◌, String, Bool, true, false, Option, none, some, List, map, select, order_by, All,
  All-imp, All-select_kept, any, eq_refl, ◌==◌, ◌&&◌, [], ◌∷◌, All-order_by, All-map_of, arith,
  if◌then◌else◌,
}
use mathlib.Core.Path.{subst}
use go_pay.Errors.{GoError, Result, ok, err}
use go_pay.Models as Models
use go_pay.Reconciliation.{
  ReconcileResult, BillRecord, Order, Call, returned, panicked, ◌>>=◌, wrap_call,
}
use go_pay.Reconciliation.Compare.{compare, order_key, record_key, close_result}
use go_pay.Reconciliation.Tally.{last_with, is_extra, compare-comparison}
use go_pay.Reconciliation.Repository.{is_reconciled, paid_time, scan_order, get_orders}
use go_pay.Reconciliation.Run.{Reconciler, reconcile_orders}

-- A row of the number that is paid, on the day, of the channel and, unless it is "", of the app.
abbrev pub IsPaidRow : String → ℕ → String → String → Models.Order → Type 0
IsPaidRow channel start app_id order_no o =
    (o.order_no ≡ order_no)
    × (o.status ≡ "paid")
    × (starts_with o.channel channel ≡ true)
    × ((t : ℕ) × (o.paid_at ≡ some t) × (start ≤ t) × (t < start + 86400))
    × ((app_id ≡ "") ⊎ (o.app_id ≡ app_id))

abbrev pub FromRow : String → ℕ → String → List Models.Order → String → Type 0
FromRow channel start app_id orders order_no = Any (IsPaidRow channel start app_id order_no) orders

-- The query finds a row with the number.
abbrev IsFound : String → ℕ → String → List Models.Order → String → Type 0
IsFound channel start app_id orders order_no =
    any (λ (o : Models.Order). (o.order_no == order_no) && is_reconciled channel start app_id o)
      orders
    ≡ true

is_reconciled-IsPaidRow :
    (channel : String) (start : ℕ) (app_id order_no : String) (o : Models.Order)
    → (o.order_no == order_no) ≡ true
    → is_reconciled channel start app_id o ≡ true
    → IsPaidRow channel start app_id order_no o
is_reconciled-IsPaidRow channel start app_id order_no o same h = (
  (eq_iff o.order_no order_no).0 same,
  (eq_iff o.status "paid").0 (ground (arith, h)),
  ground (arith, h),
  elim (Option-cases o.paid_at) [
    | inl e ↦ absurd (ground (arith, h, e))
    | inr (t, e) ↦ (t, e, ground (arith, h, e), ground (arith, h, e))
  ],
  elim (Bool-cases (app_id == "")) [
    | inl e ↦ inl ((eq_iff app_id "").0 e)
    | inr e ↦ inr ((eq_iff o.app_id app_id).0 (ground (arith, h, e)))
  ],
)

IsFound-FromRow :
    (channel : String) (start : ℕ) (app_id order_no : String) (orders : List Models.Order)
    → IsFound channel start app_id orders order_no
    → FromRow channel start app_id orders order_no
IsFound-FromRow channel start app_id order_no [] h = absurd (ground (arith, h))
IsFound-FromRow channel start app_id order_no (o ∷ orders) h =
    let found = (o.order_no == order_no) && is_reconciled channel start app_id o in
    elim (Bool-cases found) [
      | inl e ↦ inl (
          is_reconciled-IsPaidRow channel start app_id order_no o (ground (arith, e))
            (ground (arith, e)))
      | inr e ↦ inr (IsFound-FromRow channel start app_id order_no orders (ground (arith, h, e)))
    ]

All-if :
    {A : Type 0} (P : A → Type 0) (x : A) (xs : List A) (b : Bool)
    → (b ≡ true → P x)
    → All P xs
    → All P (if b then x ∷ xs else xs)
All-if P x xs true h k = (h refl, k)
All-if P x xs false h k = k

-- A selected row is one that passes the test.
selected-any :
    {A : Type 0} (key : A → String) (p : A → Bool) (xs : List A)
    → All (λ x. any (λ y. (key y == key x) && p y) xs ≡ true) (select p xs)
selected-any key p [] = tt
selected-any key p (x ∷ xs) =
    let rest =
      All-imp {Q = λ z. any (λ y. (key y == key z) && p y) (x ∷ xs) ≡ true}
        (λ z h. ground (arith, h)) (select p xs) (selected-any key p xs) in
    All-if (λ z. any (λ y. (key y == key z) && p y) (x ∷ xs) ≡ true) x (select p xs) (p x)
      (λ e. ground (arith, e, eq_refl (key x))) rest

-- What a step returned, and what came after.
then-returned :
    {A B : Type 0} (c : Call A) (f : A → Call B) (b : B)
    → (c >>= f) ≡ returned (ok b)
    → (a : A) × (c ≡ returned (ok a)) × (f a ≡ returned (ok b))
then-returned (returned (ok a)) f b h = (a, refl, h)
then-returned (returned (err e)) f b h = absurd (ground (arith, h))
then-returned panicked f b h = absurd (ground (arith, h))

wrap-returned :
    {A : Type 0} (g : GoError → GoError) (c : Call A) (a : A)
    → wrap_call g c ≡ returned (ok a)
    → c ≡ returned (ok a)
wrap-returned g (returned (ok x)) a h = h
wrap-returned g (returned (err e)) a h = absurd (ground (arith, h))
wrap-returned g panicked a h = absurd (ground (arith, h))

returned_injective : {A : Type 0} {x y : Result A} → returned x ≡ returned y → x ≡ y
returned_injective h = ground arith

get_orders-IsFound :
    (fault : Option GoError) (orders : List Models.Order) (start : ℕ) (channel app_id : String)
    (internal : List Order)
    → get_orders fault orders start channel app_id ≡ ok internal
    → All (λ o. IsFound channel start app_id orders o.order_no) internal
unfolding get_orders
get_orders-IsFound (some e) orders start channel app_id internal h = absurd (ground (arith, h))
get_orders-IsFound none orders start channel app_id internal h =
    let rows = order_by paid_time (select (is_reconciled channel start app_id) orders) in
    let same : map scan_order rows ≡ internal = ground (arith, h) in
    subst (All (λ (o : Order). IsFound channel start app_id orders o.order_no)) same (
      All-map_of (λ (o : Order). IsFound channel start app_id orders o.order_no) scan_order rows
        (All-order_by (λ (o : Models.Order). IsFound channel start app_id orders o.order_no)
          paid_time (select (is_reconciled channel start app_id) orders)
          (selected-any (λ (o : Models.Order). o.order_no) (is_reconciled channel start app_id)
            orders)))

extra_orders-All :
    (P : String → Type 0) (external : List BillRecord) (internal : List Order)
    → All (λ o. P o.order_no) internal
    → All P (compare external internal).extra_orders
unfolding close_result
extra_orders-All P external internal h =
    let extra = is_extra (last_with record_key external) in
    rw (compare-comparison external internal) (
      All-map_of P order_key (select extra internal) (
        All-imp (λ o k. k.0) (select extra internal)
          (All-select_kept (λ (o : Order). P o.order_no) extra internal h)))

-- Every number that a reconciliation against the database reports as extra is that of a row whose
-- status is paid, whose channel has the name of the reconciler's as a prefix, whose payment lies in
-- the 86400 seconds from the start of the date and, where the reconciliation is for one app, which
-- is of that app.
pub reconcile_orders-FromRow :
    (r : Reconciler) (fault : Option GoError) (orders : List Models.Order) (start_of : ℕ → ℕ)
    (now date : ℕ) (app_id : String) (result : ReconcileResult)
    → r.orders_of ≡ (λ day channel app. get_orders fault orders (start_of day) channel app)
    → reconcile_orders r now date app_id ≡ returned (ok result)
    → All (FromRow r.channel (start_of date) app_id orders) result.extra_orders
unfolding reconcile_orders
reconcile_orders-FromRow r fault orders start_of now date app_id result repository h =
    let (bill, e1, h1) = then-returned (wrap_call _ (returned (r.download date))) _ result h in
    let (external, e2, h2) = then-returned (wrap_call _ (r.parse_bill bill)) _ result h1 in
    let (internal, e3, h3) =
      then-returned (wrap_call _ (returned (r.orders_of date r.channel app_id))) _ result h2 in
    let held : get_orders fault orders (start_of date) r.channel app_id ≡ ok internal =
      ap (λ f. f date r.channel app_id) (sym repository)
      ∙ returned_injective (wrap-returned _ _ internal e3) in
    let same : (compare external internal).extra_orders ≡ result.extra_orders =
      ground (arith, h3) in
    subst (All (FromRow r.channel (start_of date) app_id orders)) same (
      extra_orders-All (FromRow r.channel (start_of date) app_id orders) external internal (
        All-imp (λ o. IsFound-FromRow r.channel (start_of date) app_id o.order_no orders) internal
          (get_orders-IsFound fault orders (start_of date) r.channel app_id internal held)))
