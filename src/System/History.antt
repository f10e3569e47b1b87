-- ===== src/System/History.antt =====
-- How the row of an order, found under its number, compares with the row found later on: what the
-- checkout fixed, and how far its status has come.
use go_pay.Prelude.{
  ℕ, ◌≤◌, String, true, some, List, [], ◌∷◌, ◌≡◌, refl, ap, ◌∙◌, sym, arith, ◌⊎◌, inl, inr, find,
  find-update, find-append, find_sound, update, ◌==◌, if◌then◌else◌, eq_iff, Bool-cases,
}
use go_pay.Prelude.Int.{ℤ}
use mathlib.Core.Path.{subst}
use go_pay.Models.{Order}
use go_pay.Models.OrderStatus
use go_pay.World.{Db, World, Env}
use go_pay.World.Keeps.{Kept}
use go_pay.OrderService.Queries.{has_order_no}
use go_pay.OrderService.Status.{update_order, set_status, set_notify_status, add_retry}
use go_pay.OrderService.Create.{stored_order}
use go_pay.OrderService.Transition.{Allowed}
use go_pay.RefundService.{mark_refunded}
use go_pay.NotifyService.Pool.{reset_notify}
use go_pay.Facts.{OrderFact}
use go_pay.System.{Setup, Event, serve_all}
use go_pay.System.Orders.{serve_all-Rel}

-- How far an order has come.
abbrev pub rank : String → ℕ
rank s = if s == OrderStatus.refunded then 2 else if s == OrderStatus.paid then 1 else 0

-- What the checkout fixes for good.
abbrev pub fixed : Order → ℕ × String × String × String × String × ℤ × ℕ
fixed o = (o.id, o.order_no, o.out_trade_no, o.app_id, o.channel, o.amount, o.created_at)

pub record Later (o o' : Order) : Type 0 where
  pub same : fixed o' ≡ fixed o
  pub advances : rank o.status ≤ rank o'.status

Later-refl : (o : Order) → Later o o
Later-refl o = record { same = refl; advances = omega arith }

Later-trans : {a b c : Order} → Later a b → Later b c → Later a c
Later-trans h k = record {
  same = k.same ∙ h.same;
  advances = omega (arith, h.advances, k.advances);
}

-- The row that is found under a number later on.
pub record Followed (order_no : String) (o : Order) (db : Db) : Type 0 where
  pub row : Order
  pub found : find (has_order_no order_no) db.orders ≡ some row
  pub later : Later o row

abbrev Advance : Db → Db → Type 0
Advance a b = (n : String) (o : Order) → find (has_order_no n) a.orders ≡ some o → Followed n o b

Advance-update :
    (order_no : String) (f : Order → Order) (db : Db)
    → ((x : Order) → (f x).order_no ≡ x.order_no)
    → ((x : Order) → find (has_order_no order_no) db.orders ≡ some x → Later x (f x))
    → Advance db (update_order order_no f db)
Advance-update order_no f db same later n o h = elim (Bool-cases (o.order_no == order_no)) [
  | inl e ↦ record {
    row = f o;
    found = seen ∙ ap some (rw e refl);
    later = later o (
        subst (λ k. find (has_order_no k) db.orders ≡ some o)
          (sym ((eq_iff o.order_no n).0 hit) ∙ (eq_iff o.order_no order_no).0 e) h);
  }
  | inr e ↦ record { row = o; found = seen ∙ ap some (rw e refl); later = Later-refl o }
]
  where
    hit : (o.order_no == n) ≡ true
    hit = find_sound (has_order_no n) db.orders h

    seen :
        find (has_order_no n) (update (has_order_no order_no) f db.orders)
        ≡ some (if o.order_no == order_no then f o else o)
    seen =
        find-update (has_order_no n) (has_order_no order_no) f (λ x. ap (λ k. k == n) (same x))
          db.orders
        ∙ rw h refl

Advance-refl : (a : Db) → Advance a a
Advance-refl a n o h = record { row = o; found = h; later = Later-refl o }

kept_rows : Kept
kept_rows = record {
  Rel = Advance;
  keep = Advance-refl;
  chain = λ a b c h k n o found.
      let x : Followed n o b = h n o found in
      let y : Followed n x.row c = k n x.row x.found in
      record { row = y.row; found = y.found; later = Later-trans x.later y.later };
}

rank-le-refunded : (s : String) → rank s ≤ 2
rank-le-refunded s = ground arith

rank-Allowed :
    (current status : String)
    → Allowed current status
    → (status ≡ OrderStatus.paid) ⊎ (status ≡ OrderStatus.refunded)
    → rank current ≤ rank status
rank-Allowed current status a (inr e) = rw e (rank-le-refunded current)
rank-Allowed current status a (inl e) = ground (
  arith,
  e,
  a.paid_only_refunds,
  a.not_refunded,
  eq_iff current OrderStatus.paid,
  eq_iff current OrderStatus.refunded,
)

same_row : (x o : Order) → some x ≡ some o → x ≡ o
same_row x o h = cc

advance_fact : OrderFact
unfolding kept_rows
advance_fact = record {
  kept = kept_rows;
  same_orders = λ a b h _ n o found. record { row = o; found = rw h found; later = Later-refl o };
  on_status = λ order_no status paid_at now db o found allowed to.
      Advance-update order_no (set_status status paid_at now) db (λ x. refl)
        (λ x h. record {
          same = refl;
          advances = rw (same_row x o (sym h ∙ found)) (rank-Allowed o.status status allowed to);
        });
  on_refunded = λ order_no now db.
      Advance-update order_no (mark_refunded now) db (λ x. refl)
        (λ x h. record { same = refl; advances = rank-le-refunded x.status });
  on_notify_status = λ order_no status now db to.
      Advance-update order_no (set_notify_status status now) db (λ x. refl)
        (λ x h. record { same = refl; advances = omega arith });
  on_retry = λ order_no now db.
      Advance-update order_no (add_retry now) db (λ x. refl)
        (λ x h. record { same = refl; advances = omega arith });
  on_reset = λ order_no now db.
      Advance-update order_no (reset_notify now) db (λ x. refl)
        (λ x h. record { same = refl; advances = omega arith });
  on_insert = λ o now db new fresh fresh_trade a app n x found. record {
    row = x;
    found = find-append (has_order_no n) db.orders (stored_order o now db ∷ []) ∙ rw found refl;
    later = Later-refl x;
  };
}

-- Over any calls, in any order and with any channels, whatever statements fail: an order that
-- was in the table is still found under its number, with the id, out_trade_no, app, channel,
-- amount and creation time it had, and its status has not gone back on the way from unpaid over
-- `paid` to `refunded`.
pub orders_only_advance :
    (env : Env) (es : List (Setup × Event)) (w : World) (order_no : String) (o : Order)
    → find (has_order_no order_no) w.db.orders ≡ some o
    → Followed order_no o (serve_all env es w).db
unfolding advance_fact kept_rows
orders_only_advance env es w order_no o found = serve_all-Rel advance_fact env es w order_no o found
