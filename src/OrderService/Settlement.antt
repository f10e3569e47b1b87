-- ===== src/OrderService/Settlement.antt =====
-- Histories of calls of `UpdateOrderStatus` (internal/service/order_service.go), and the payments in them.
use go_pay.Prelude.{
  ℕ, ◌+◌, ◌≤◌, String, ⊤, false, ◌&&◌, ◌||◌, Option, none, some, List, [], ◌∷◌, ◌==◌, ◌≡◌, refl,
  arith, find, find-update, find_sound, update, Bool-cases, Option-cases, inl, inr, eq_iff,
  if◌then◌else◌,
}
use go_pay.Prelude.Int.{ℤ}
use go_pay.Errors.{Result, ok, err}
use go_pay.Models.{Order}
use go_pay.Models.OrderStatus
use go_pay.World.{Db, World, Env}
use go_pay.OrderService.Queries.{has_order_no}
use go_pay.OrderService.Status.{update_order, set_status, update_order_status}
use go_pay.OrderService.Transition.{
  Allowed, Effect, refused, kept, written, update_order_status-Effect,
}

-- Whether an order's row may still become paid.
abbrev is_open : Option Order → ℕ
is_open none = 1
is_open (some o) =
    if (o.status == OrderStatus.paid) || (o.status == OrderStatus.refunded) then 0 else 1

abbrev pub payable : String → Db → ℕ
payable order_no db = is_open (find (has_order_no order_no) db.orders)

-- 1 for a call that has just set this order to `paid`.
abbrev pub pays : String → String → String → Result ⊤ → ℕ
pays watched order_no status (err e) = 0
pays watched order_no status (ok _) =
    if (order_no == watched) && (status == OrderStatus.paid) then 1 else 0

-- What a write of a status leaves to be found.
find-set_status :
    (watched order_no status : String) (paid_at : Option ℕ) (now : ℕ) (orders : List Order)
    → find
        (has_order_no watched)
        (update (has_order_no order_no) (set_status status paid_at now) orders)
      ≡ elim (find (has_order_no watched) orders) [
        | none ↦ none
        | some o ↦ some (if o.order_no == order_no then set_status status paid_at now o else o)
      ]
find-set_status watched order_no status paid_at now orders =
    find-update (has_order_no watched) (has_order_no order_no) (set_status status paid_at now)
      (λ o. refl) orders

-- The write to the watched order itself: its row was open if it is paid by this.
is_open-set_status :
    (o : Order) (status : String) (paid_at : Option ℕ) (now : ℕ)
    → Allowed o.status status
    → (if status == OrderStatus.paid then 1 else 0)
        + is_open (some (set_status status paid_at now o))
      ≤ is_open (some o)
is_open-set_status o status paid_at now a = ground (
  arith,
  a.paid_only_refunds,
  a.not_refunded,
  eq_iff o.status OrderStatus.paid,
  eq_iff o.status OrderStatus.refunded,
  eq_iff status OrderStatus.paid,
  eq_iff status OrderStatus.refunded,
)

-- A write to another order does not touch a row that is found under the watched number.
other_row :
    (watched order_no : String) (orders : List Order) (x : Order)
    → (order_no == watched) ≡ false
    → find (has_order_no watched) orders ≡ some x
    → (x.order_no == order_no) ≡ false
other_row watched order_no orders x other g = ground (
  arith,
  eq_iff order_no watched,
  eq_iff x.order_no watched,
  eq_iff x.order_no order_no,
  find_sound (has_order_no watched) orders g,
)

payable-written :
    (watched order_no status : String) (paid_at : Option ℕ) (now : ℕ) (db : Db) (o : Order)
    → find (has_order_no order_no) db.orders ≡ some o
    → Allowed o.status status
    → pays watched order_no status (ok tt)
        + payable watched (update_order order_no (set_status status paid_at now) db)
      ≤ payable watched db
payable-written watched order_no status paid_at now db o f a =
    elim (Bool-cases (order_no == watched)) [
      | inl same ↦
          let e : order_no ≡ watched = (eq_iff order_no watched).0 same in
          rw (find-set_status watched order_no status paid_at now db.orders) (
            ground (
              arith,
              is_open-set_status o status paid_at now a,
              e,
              find_sound (has_order_no order_no) db.orders f,
            ))
      | inr other ↦ elim (Option-cases (find (has_order_no watched) db.orders)) [
        | inl missing ↦
            rw (find-set_status watched order_no status paid_at now db.orders) (ground arith)
        | inr (x, g) ↦
            rw (find-set_status watched order_no status paid_at now db.orders)
              (ground (arith, other_row watched order_no db.orders x other g))
      ]
    ]

payable-Effect :
    (watched order_no status : String) (paid_at : Option ℕ) (db db' : Db) (r : Result ⊤)
    → Effect order_no status paid_at db r db'
    → pays watched order_no status r + payable watched db' ≤ payable watched db
payable-Effect watched order_no status paid_at db db' r (refused e p q) = rw (p, q) (omega arith)
payable-Effect watched order_no status paid_at db db' r (kept o f c s p q) =
    rw (p, q, s) (ground arith)
payable-Effect watched order_no status paid_at db db' r (written o now f a p q) =
    rw (p, q) (payable-written watched order_no status paid_at now db o f a)

-- A call of `UpdateOrderStatus`: the order, the status, the time and the amount.
pub record Call : Type 0 where
  pub order_no : String
  pub status : String
  pub paid_at : Option ℕ
  pub amount : ℤ

module _ (env : Env) where
  -- How many calls of a history set this order to `paid`, the calls made one after the other.
  unfoldable pub payments : String → List Call → World → ℕ
  payments watched [] w = 0
  payments watched (c ∷ cs) w =
      let (r, w') = update_order_status env c.order_no c.status c.paid_at c.amount w in
      pays watched c.order_no c.status r + payments watched cs w'

  payments-le-payable :
      (watched : String) (cs : List Call) (w : World) → payments watched cs w ≤ payable watched w.db
  unfolding payments
  payments-le-payable watched [] w = omega arith
  payments-le-payable watched (c ∷ cs) w =
      let (r, w') = update_order_status env c.order_no c.status c.paid_at c.amount w in
      omega (
        arith,
        payable-Effect watched c.order_no c.status c.paid_at w.db w'.db r
            (update_order_status-Effect env c.order_no c.status c.paid_at c.amount w),
        payments-le-payable watched cs w',
      )

  is_open-le-one : (o : Option Order) → is_open o ≤ 1
  is_open-le-one o = ground arith

  -- Whatever calls come, in whatever order and with whatever failures of the database, at most
  -- one of them sets a given order to `paid`; and none does where its row is paid or refunded,
  -- since `payable` is 0 then.
  pub paid_at_most_once :
      (watched : String) (cs : List Call) (w : World)
      → (payments watched cs w ≤ 1) × (payments watched cs w ≤ payable watched w.db)
  paid_at_most_once watched cs w = (
    omega (
      arith,
      payments-le-payable watched cs w,
      is_open-le-one (find (has_order_no watched) w.db.orders),
    ),
    payments-le-payable watched cs w,
  )
