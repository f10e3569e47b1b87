-- ===== src/Webhook/Duplicates.antt =====
-- What a webhook that comes again does to an order that is paid already.
use go_pay.Prelude.{
  ℕ, ◌+◌, String, ⊤, Option, some, ◌≡◌, refl, sym, ap, ◌∙◌, ◌⊎◌, inl, inr, arith, Bool-cases,
  Option-cases, find, eqb,
}
use mathlib.Core.Path.{subst}
use go_pay.Prelude.Int.{ℤ}
use go_pay.Errors.{GoError, wrap, Result, ok, err}
use go_pay.Errors.Make.{new_order_paid}
use go_pay.Models.{Order}
use go_pay.Models.OrderStatus
use go_pay.Channel.{WebhookResponse}
use go_pay.Channel.ChannelStatus
use go_pay.World.{World, Env, tick, running, attempt}
use go_pay.World.Laws.{bind-ok, attempt-eq}
use go_pay.OrderService.Queries.{has_order_no, not_found_or}
use go_pay.OrderService.Status.{update_locked, update_order_status}
use go_pay.OrderService.Transition.{update_order_status-locked}
use go_pay.Webhook.Settle.{time_of, settle}

-- The tables and the goroutines are as they were.
pub record Untouched (w w' : World) : Type 0 where
  pub db : w'.db ≡ w.db
  pub tasks : w'.tasks ≡ w.tasks
  pub pool : w'.pool ≡ w.pool

record Blocked (w : World) (x : Result ⊤ × World) : Type 0 where
  error : GoError
  returned : x.0 ≡ err error
  untouched : Untouched w x.1

module _ (env : Env) where
  locked-Blocked :
      (order_no status : String) (t : Option ℕ) (w : World)
      → (status ≡ OrderStatus.paid) ⊎ (status ≡ OrderStatus.refunded)
      → Blocked w (update_locked env order_no OrderStatus.paid t status (tick (tick w)))
  unfolding update_locked
  locked-Blocked order_no status t w (inl h) = rw h (record {
    error = new_order_paid order_no;
    returned = refl;
    untouched = record { db = refl; tasks = refl; pool = refl };
  })
  locked-Blocked order_no status t w (inr h) = rw h (record {
    error = new_order_paid order_no;
    returned = refl;
    untouched = record { db = refl; tasks = refl; pool = refl };
  })

  update-Blocked :
      (order_no : String) (t : Option ℕ) (amount : ℤ) (w : World) (row : Order)
      → find (has_order_no order_no) w.db.orders ≡ some row
      → (row.status ≡ OrderStatus.paid) ⊎ (row.status ≡ OrderStatus.refunded)
      → Blocked w (update_order_status env order_no OrderStatus.paid t amount w)
  unfolding update_order_status running
  update-Blocked order_no t amount w row found h = elim (Option-cases (env.fault w.statements)) [
    | inr (e, f) ↦ record {
      error = wrap "failed to begin transaction" e;
      returned = ground arith;
      untouched = record { db = ground arith; tasks = ground arith; pool = ground arith };
    }
    | inl f ↦ elim (Option-cases (env.fault (w.statements + 1))) [
      | inr (e, g) ↦ record {
        error = not_found_or order_no "failed to lock order" e;
        returned = ground arith;
        untouched = record { db = ground arith; tasks = ground arith; pool = ground arith };
      }
      | inl g ↦
          rw (update_order_status-locked env order_no OrderStatus.paid t amount w row f g found)
            (locked-Blocked order_no row.status t w h)
    ]
  ]

  pub time_of-same :
      (resp : WebhookResponse) (w : World)
      → (t : ℕ) × (w1 : World) × (time_of env resp w ≡ (ok t, w1)) × (w1.db ≡ w.db) × Untouched w w1
  unfolding time_of running
  time_of-same resp w = elim (Bool-cases (eqb resp.paid_at 0)) [
    | inl h ↦ (
      env.now w.readings,
      record w { readings = w.readings + 1 },
      rw h refl,
      refl,
      record { db = refl; tasks = refl; pool = refl },
    )
    | inr h ↦ (resp.paid_at, w, rw h refl, refl, record { db = refl; tasks = refl; pool = refl })
  ]

  Untouched-trans : {a b c : World} → Untouched a b → Untouched b c → Untouched a c
  Untouched-trans h k = record {
    db = k.db ∙ h.db;
    tasks = k.tasks ∙ h.tasks;
    pool = k.pool ∙ h.pool;
  }

  -- A payment that is reported again, in any form, once the order's row is paid or refunded:
  -- no table changes, no notification is started or deferred, and no token of the pool is taken.
  pub settle-duplicate :
      (o row : Order) (resp : WebhookResponse) (w : World)
      → resp.status ≡ ChannelStatus.paid
      → find (has_order_no o.order_no) w.db.orders ≡ some row
      → (row.status ≡ OrderStatus.paid) ⊎ (row.status ≡ OrderStatus.refunded)
      → Untouched w (settle env o resp w).1
  unfolding settle
  settle-duplicate o row resp w reported found h =
      let (t, w1, e, d, u) = time_of-same resp w in
      let b =
        update-Blocked o.order_no (some t) resp.paid_amount w1 row
          (ap (λ db. find (has_order_no o.order_no) db.orders) d ∙ found) h in
      rw reported (
        subst (λ x. Untouched w x.1)
          (sym (
            bind-ok (time_of env resp) _ w e
            ∙ bind-ok
                (attempt
                  (update_order_status env o.order_no OrderStatus.paid (some t) resp.paid_amount))
                _ w1 (attempt-eq _ w1 refl)))
          (rw b.returned (Untouched-trans u b.untouched)))
