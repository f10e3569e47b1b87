-- ===== src/System/Valid.antt =====
-- The constraints of the schema on the table of orders, and the values that the code writes into
-- a row, over the calls of the program.
use go_pay.Prelude.{
  String, Bool, false, none, List, [], ◌++◌, ◌∷◌, ◌≡◌, refl, ap, ◌∙◌, arith, ◌⊎◌, inl, inr, find,
  find-update, find-append, update, ◌==◌, ◌&&◌, if◌then◌else◌, eq_iff, Bool-cases, All, All-append,
}
use go_pay.Prelude.Int.{pos, ◌≤ℤ◌}
use go_pay.Models.{Order}
use go_pay.Models.OrderStatus
use go_pay.World.{Db, World, Env}
use go_pay.World.Keeps.{Kept}
use go_pay.OrderService.Queries.{has_order_no, has_trade_no}
use go_pay.OrderService.Status.{update_order, set_status, set_notify_status, add_retry}
use go_pay.OrderService.Create.{stored_order}
use go_pay.RefundService.{mark_refunded}
use go_pay.NotifyService.Pool.{reset_notify}
use go_pay.Facts.{OrderFact}
use go_pay.System.{Setup, Event, serve_all}
use go_pay.System.Orders.{serve_all-Rel}

-- A status the code writes. `closed` is none: only a check reads it.
abbrev pub IsWritten : String → Type 0
IsWritten s = (s ≡ OrderStatus.pending) ⊎ (s ≡ OrderStatus.paid) ⊎ (s ≡ OrderStatus.refunded)

pub record IsSound (o : Order) : Type 0 where
  pub amount : pos 1 ≤ℤ o.amount
  pub status : IsWritten o.status

-- No row has the number, or the app and trade number, of an earlier one.
abbrev pub IsUnique : List Order → Type 0
IsUnique [] = Unit
IsUnique (o ∷ os) =
    (find (has_order_no o.order_no) os ≡ none)
    × (find (has_trade_no o.app_id o.out_trade_no) os ≡ none)
    × IsUnique os

pub record IsValid (db : Db) : Type 0 where
  pub sound : All IsSound db.orders
  pub unique : IsUnique db.orders

-- A write that leaves the columns of the two keys alone.
record SameKeys (f : Order → Order) : Type 0 where
  same_order_no : (x : Order) → (f x).order_no ≡ x.order_no
  same_app_id : (x : Order) → (f x).app_id ≡ x.app_id
  same_trade_no : (x : Order) → (f x).out_trade_no ≡ x.out_trade_no

module _ (order_no : String) (f : Order → Order) (same : SameKeys f) where
  open same use {same_order_no, same_app_id, same_trade_no}

  abbrev written : Order → Order
  written x = if has_order_no order_no x then f x else x

  find_order_no-update :
      (n : String) (os : List Order)
      → find (has_order_no n) os ≡ none
      → find (has_order_no n) (update (has_order_no order_no) f os) ≡ none
  find_order_no-update n os h =
      find-update (has_order_no n) (has_order_no order_no) f
        (λ x. ap (λ k. k == n) (same_order_no x)) os
      ∙ rw h refl

  find_trade_no-update :
      (a n : String) (os : List Order)
      → find (has_trade_no a n) os ≡ none
      → find (has_trade_no a n) (update (has_order_no order_no) f os) ≡ none
  find_trade_no-update a n os h =
      find-update (has_trade_no a n) (has_order_no order_no) f
        (λ x.
          ap (λ k. (k == a) && ((f x).out_trade_no == n)) (same_app_id x)
          ∙ ap (λ k. (x.app_id == a) && (k == n)) (same_trade_no x))
        os
      ∙ rw h refl

  update-IsUnique : (os : List Order) → IsUnique os → IsUnique (update (has_order_no order_no) f os)
  update-IsUnique [] h = tt
  update-IsUnique (x ∷ xs) (a, b, c) = elim (Bool-cases (x.order_no == order_no)) [
    | inl e ↦
        rw (e, same_order_no x, same_app_id x, same_trade_no x)
          (
            find_order_no-update x.order_no xs a,
            find_trade_no-update x.app_id x.out_trade_no xs b,
            update-IsUnique xs c,
          )
    | inr e ↦ rw e (
      find_order_no-update x.order_no xs a,
      find_trade_no-update x.app_id x.out_trade_no xs b,
      update-IsUnique xs c,
    )
  ]

  update-All-IsSound :
      ((x : Order) → IsSound x → IsSound (f x))
      → (os : List Order) → All IsSound os
      → All IsSound (update (has_order_no order_no) f os)
  update-All-IsSound sound [] h = tt
  update-All-IsSound sound (x ∷ xs) (a, b) = elim (Bool-cases (x.order_no == order_no)) [
    | inl e ↦ rw e (sound x a, update-All-IsSound sound xs b)
    | inr e ↦ rw e (a, update-All-IsSound sound xs b)
  ]

  update-IsValid :
      ((x : Order) → IsSound x → IsSound (f x))
      → (db : Db) → IsValid db
      → IsValid (update_order order_no f db)
  update-IsValid sound db h = record {
    sound = update-All-IsSound sound db.orders h.sound;
    unique = update-IsUnique db.orders h.unique;
  }

find-none_head :
    (p : Order → Bool) (x : Order) (xs : List Order)
    → find p (x ∷ xs) ≡ none
    → (p x ≡ false) × (find p xs ≡ none)
find-none_head p x xs h = ground arith

find-none_snoc :
    (p : Order → Bool) (o : Order) (xs : List Order)
    → find p xs ≡ none
    → p o ≡ false
    → find p (xs ++ o ∷ []) ≡ none
find-none_snoc p o xs h e = find-append p xs (o ∷ []) ∙ rw h (rw e refl)

==-sym : (s t : String) → (s == t) ≡ (t == s)
==-sym s t = ground (arith, eq_iff s t, eq_iff t s)

has_trade_no_swap :
    (x y : Order) → has_trade_no x.app_id x.out_trade_no y ≡ has_trade_no y.app_id y.out_trade_no x
has_trade_no_swap x y = rw (==-sym y.app_id x.app_id, ==-sym y.out_trade_no x.out_trade_no) refl

-- A row at the end is unique where no earlier row has its keys.
append-IsUnique :
    (o : Order) (os : List Order)
    → find (has_order_no o.order_no) os ≡ none
    → find (has_trade_no o.app_id o.out_trade_no) os ≡ none
    → IsUnique os
    → IsUnique (os ++ o ∷ [])
append-IsUnique o [] h k u = (refl, refl, tt)
append-IsUnique o (x ∷ xs) h k (a, b, c) =
    let (p, h') = find-none_head _ x xs h in
    let (q, k') = find-none_head _ x xs k in
    (
      find-none_snoc (has_order_no x.order_no) o xs a (==-sym o.order_no x.order_no ∙ p),
      find-none_snoc (has_trade_no x.app_id x.out_trade_no) o xs b (has_trade_no_swap x o ∙ q),
      append-IsUnique o xs h' k' c,
    )

valid_rows : Kept
valid_rows = record {
  Rel = λ a b. IsValid a → IsValid b;
  keep = λ a h. h;
  chain = λ a b c f g h. g (f h);
}

valid_fact : OrderFact
unfolding valid_rows
valid_fact = record {
  kept = valid_rows;
  same_orders = λ a b e _ h. record { sound = rw e h.sound; unique = rw e h.unique };
  on_status = λ order_no status paid_at now db o found allowed to.
      update-IsValid order_no (set_status status paid_at now)
        (record { same_order_no = λ x. refl; same_app_id = λ x. refl; same_trade_no = λ x. refl })
        (λ x s. record { amount = s.amount; status = inr to }) db;
  on_refunded = λ order_no now db.
      update-IsValid order_no (mark_refunded now)
        (record { same_order_no = λ x. refl; same_app_id = λ x. refl; same_trade_no = λ x. refl })
        (λ x s. record { amount = s.amount; status = inr (inr refl) }) db;
  on_notify_status = λ order_no status now db to.
      update-IsValid order_no (set_notify_status status now)
        (record { same_order_no = λ x. refl; same_app_id = λ x. refl; same_trade_no = λ x. refl })
        (λ x s. record { amount = s.amount; status = s.status }) db;
  on_retry = λ order_no now db.
      update-IsValid order_no (add_retry now)
        (record { same_order_no = λ x. refl; same_app_id = λ x. refl; same_trade_no = λ x. refl })
        (λ x s. record { amount = s.amount; status = s.status }) db;
  on_reset = λ order_no now db.
      update-IsValid order_no (reset_notify now)
        (record { same_order_no = λ x. refl; same_app_id = λ x. refl; same_trade_no = λ x. refl })
        (λ x s. record { amount = s.amount; status = s.status }) db;
  on_insert = λ o now db new fresh fresh_trade a app h. record {
    sound =
        All-append IsSound db.orders _ h.sound
          (record { amount = new.positive; status = inl new.pending }, tt);
    unique = append-IsUnique (stored_order o now db) db.orders fresh fresh_trade h.unique;
  };
}

-- From valid tables, any calls, in any order and with any channels, whatever statements fail,
-- lead to valid tables: no two orders have the same number, or the same app and trade number,
-- every amount is at least 1, and every status is `pending`, `paid` or `refunded`.
pub serve_all-IsValid :
    (env : Env) (es : List (Setup × Event)) (w : World)
    → IsValid w.db
    → IsValid (serve_all env es w).db
unfolding valid_fact valid_rows
serve_all-IsValid env es w h = serve_all-Rel valid_fact env es w h
