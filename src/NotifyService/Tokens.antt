-- ===== src/NotifyService/Tokens.antt =====
-- The tokens of the worker pool.
use go_pay.Prelude.{
  ℕ, zero, suc, sym, ◌+◌, ◌≤◌, String, some, List, [], ◌∷◌, ◌++◌, ◌≡◌, refl, ap, ◌∙◌, inl, inr,
  arith, Bool-cases, Option-cases, ltb,
}
use mathlib.Core.Path.{subst}
use go_pay.Errors.{wrap}
use go_pay.Models.{Order}
use go_pay.World.{World, Task, Env, M, map_error, attempt, ◌>>=◌, running}
use go_pay.World.Laws.{bind_rule, map_error-eq}
use go_pay.OrderService.Queries.{list_pending_notify_orders}
use go_pay.NotifyService.Post.{save_notify_log}
use go_pay.NotifyService.Pool.{
  pool_size, record_deferred_notify, start_or_defer, notify_async, notify_all,
  process_pending_notifies, scheduler_rounds,
}

-- How many of the goroutines hold a token.
abbrev pub tokens : List Task → ℕ
tokens [] = 0
tokens (Task.notify o ∷ ts) = 1 + tokens ts
tokens (Task.notify_refund o resp ∷ ts) = 1 + tokens ts
tokens (Task.retry o url ∷ ts) = tokens ts

-- The pool has exactly the tokens that the goroutines hold, and no more than its capacity.
pub record Balanced (w : World) : Type 0 where
  pub held : tokens w.tasks ≡ w.pool
  pub bounded : w.pool ≤ pool_size

tokens-append : (ts us : List Task) → tokens (ts ++ us) ≡ tokens ts + tokens us
tokens-append [] us = omega arith
tokens-append (Task.notify o ∷ ts) us = omega (arith, tokens-append ts us)
tokens-append (Task.notify_refund o resp ∷ ts) us = omega (arith, tokens-append ts us)
tokens-append (Task.retry o url ∷ ts) us = tokens-append ts us

module _ (env : Env) where
  deferred-same :
      (o : Order) (reason : String) (w : World)
      → let w' = (record_deferred_notify env (some o) reason w).1 in
        (w'.tasks ≡ w.tasks) × (w'.pool ≡ w.pool)
  unfolding record_deferred_notify save_notify_log running
  deferred-same o reason w = elim (Option-cases (env.fault w.statements)) [
    | inl f ↦ (ground arith, ground arith)
    | inr (e, f) ↦ (ground arith, ground arith)
  ]

  start_or_defer-Balanced :
      (t : Task) (o : Order) (reason : String) (w : World)
      → tokens (t ∷ []) ≡ 1
      → Balanced w
      → Balanced (start_or_defer env t o reason w).1
  unfolding start_or_defer
  start_or_defer-Balanced t o reason w one b = elim (Bool-cases (ltb w.pool pool_size)) [
    | inl h ↦ rw h (record {
      held = tokens-append w.tasks (t ∷ []) ∙ omega (arith, one, b.held);
      bounded = ground arith;
    })
    | inr h ↦
        let (ts, p) = deferred-same o reason w in
        rw h (record {
          held = ap tokens ts ∙ b.held ∙ omega (arith, p);
          bounded = omega (arith, p, b.bounded);
        })
  ]

  notify_all-Balanced :
      (os : List Order) (w : World) → Balanced w → Balanced (notify_all env os w).1
  unfolding notify_all notify_async
  notify_all-Balanced [] w b = b
  notify_all-Balanced (o ∷ os) w b =
      bind_rule (λ x. Balanced x.1) (notify_async env o) (λ u. notify_all env os) w
        (λ u w1 e. notify_all-Balanced os w1 (subst (λ x. Balanced x.1) e first))
        (λ x w1 e. subst (λ x. Balanced x.1) e first)
    where
      first : Balanced (notify_async env o w).1
      first = start_or_defer-Balanced (Task.notify o) o _ w refl b

  list-Balanced :
      (limit : ℕ) (w : World) → Balanced w → Balanced (list_pending_notify_orders env limit w).1
  unfolding list_pending_notify_orders running
  list-Balanced limit w b = elim (Option-cases (env.fault w.statements)) [
    | inl f ↦ record { held = ground (arith, b.held); bounded = ground (arith, b.bounded) }
    | inr (e, f) ↦ record { held = ground (arith, b.held); bounded = ground (arith, b.bounded) }
  ]

  process_pending_notifies-Balanced :
      (w : World) → Balanced w → Balanced (process_pending_notifies env w).1
  unfolding process_pending_notifies
  process_pending_notifies-Balanced w b =
      bind_rule (λ x. Balanced x.1) listing (λ os. notify_all env os) w
        (λ os w1 e. notify_all-Balanced os w1 (subst (λ x. Balanced x.1) e listed))
        (λ x w1 e. subst (λ x. Balanced x.1) e listed)
    where
      listing : M (List Order)
      listing =
          map_error (wrap "failed to list pending notify orders")
            (list_pending_notify_orders env 100)

      listed : Balanced (listing w).1
      listed =
          subst Balanced
            (sym (
              ap (λ x. x.1)
                (map_error-eq (wrap "failed to list pending notify orders")
                  (list_pending_notify_orders env 100) w refl)))
            (list-Balanced 100 w b)

  -- However often the scheduler runs, and whatever statements fail, while no goroutine ends: where
  -- the pool held as many tokens as the goroutines and at most its 100, it still does. So at most
  -- 100 notifications with a token ever wait at once.
  pub scheduler_rounds-Balanced :
      (ticks : ℕ) (w : World) → Balanced w → Balanced (scheduler_rounds env ticks w).1
  unfolding scheduler_rounds attempt ◌>>=◌
  scheduler_rounds-Balanced zero w b = process_pending_notifies-Balanced w b
  scheduler_rounds-Balanced (suc ticks) w b =
      scheduler_rounds-Balanced ticks _ (process_pending_notifies-Balanced w b)
