-- ===== src/World/Keeps.antt =====
-- Relations between the tables before and after an action, and how they pass through the
-- combinators of `M`. `Kept` is such a relation, reflexive and transitive; `Keeps K m` says that
-- `m` keeps it from every world, however it ends.
use go_pay.Prelude.{
  ℕ, Bool, true, false, ⊤, Option, none, some, List, ◌≡◌, refl, arith, if◌then◌else◌,
}
use go_pay.Errors.{GoError, Result, ok, err}
use mathlib.Core.Path.{subst}
use go_pay.World.Laws.{bind_rule}
use go_pay.World.{
  Db, World, Env, M, pure, raise, lift, modify, call_channel, ChannelCall, map_error, attempt,
  ◌>>=◌, statement, query, exec, begin, time_now, draw,
}

pub record Kept : Type 1 where
  pub Rel : Db → Db → Type 0
  pub keep : (a : Db) → Rel a a
  pub chain : (a b c : Db) → Rel a b → Rel b c → Rel a c

pub record Keeps (K : Kept) {A : Type 0} (m : M A) : Type 0 where
  pub at : (w : World) → K.Rel w.db (m w).1.db

module _ {K : Kept} where
  open K use {Rel, keep, chain}

  pub Keeps-pure : {A : Type 0} (a : A) → Keeps K (pure a)
  Keeps-pure a = record { at = λ w. keep w.db }

  pub Keeps-raise : {A : Type 0} (e : GoError) → Keeps K {A = A} (raise e)
  Keeps-raise e = record { at = λ w. keep w.db }

  pub Keeps-lift : {A : Type 0} (r : Result A) → Keeps K (lift r)
  Keeps-lift r = record { at = λ w. keep w.db }

  -- An action that leaves the tables alone.
  pub Keeps-same : {A : Type 0} {m : M A} → ((w : World) → (m w).1.db ≡ w.db) → Keeps K m
  Keeps-same h = record { at = λ w. rw (h w) (keep w.db) }

  pub Keeps-call : (c : ChannelCall) → Keeps K (call_channel c)
  Keeps-call c = record { at = λ w. keep w.db }

  pub Keeps-bind :
      {A B : Type 0} {m : M A} {f : A → M B}
      → Keeps K m
      → ((a : A) → Keeps K (f a))
      → Keeps K (m >>= f)
  unfolding ◌>>=◌
  Keeps-bind {A} {B} {m} {f} h k = record { at = λ w. go w (m w).0 (h.at w) }
    where
      go :
          (w : World) (r : Result A)
          → Rel w.db (m w).1.db
          → Rel w.db
              (elim r as (λ _. Result B × World) [
                | ok a ↦ f a (m w).1
                | err e ↦ (err e, (m w).1)
              ]).1.db
      go w (ok a) p = chain _ _ _ p ((k a).at (m w).1)
      go w (err e) p = p

  -- The second action may rest on what a success of the first one shows.
  pub Keeps-bind_success :
      {A B P : Type 0} {m : M A} {f : A → M B}
      → Keeps K m
      → ((w : World) (a : A) (w' : World) → m w ≡ (ok a, w') → P)
      → (P → (a : A) → Keeps K (f a))
      → Keeps K (m >>= f)
  Keeps-bind_success {m = m} {f = f} h shows k = record {
    at = λ w.
        bind_rule (λ x. Rel w.db x.1.db) m f w
          (λ a w' e.
            chain _ _ _ (subst (λ x. Rel w.db x.1.db) e (h.at w)) ((k (shows w a w' e) a).at w'))
          (λ e w' p. subst (λ x. Rel w.db x.1.db) p (h.at w));
  }

  pub Keeps-map_error :
      {A : Type 0} (g : GoError → GoError) {m : M A} → Keeps K m → Keeps K (map_error g m)
  unfolding map_error
  Keeps-map_error {A} g {m} h = record { at = λ w. go w (m w).0 (h.at w) }
    where
      go :
          (w : World) (r : Result A)
          → Rel w.db (m w).1.db
          → Rel w.db
              (elim r as (λ _. Result A × World) [
                | ok a ↦ (ok a, (m w).1)
                | err e ↦ (err (g e), (m w).1)
              ]).1.db
      go w (ok a) p = p
      go w (err e) p = p

  pub Keeps-attempt : {A : Type 0} {m : M A} → Keeps K m → Keeps K (attempt m)
  unfolding attempt
  Keeps-attempt h = record { at = h.at }

  pub Keeps-if :
      {A : Type 0} (b : Bool) {m n : M A} → Keeps K m → Keeps K n → Keeps K (if b then m else n)
  Keeps-if true h k = h
  Keeps-if false h k = k

  module _ (env : Env) where
    pub Keeps-statement :
        {A : Type 0} (f : ℕ → Db → Result A × Db)
        → ((now : ℕ) (db : Db) → Rel db (f now db).1)
        → Keeps K (statement env f)
    unfolding statement
    Keeps-statement {A} f h = record { at = λ w. go w (env.fault w.statements) }
      where
        go :
            (w : World) (e : Option GoError)
            → Rel w.db
                (elim e as (λ _. Result A × World) [
                  | some x ↦ (err x, go_pay.World.tick w)
                  | none ↦
                      let (r, db) = f (env.sql_now w.statements) w.db in
                      (r, record w { db = db; statements = go_pay.Prelude.◌+◌ w.statements 1 })
                ]).1.db
        go w none = h (env.sql_now w.statements) w.db
        go w (some x) = keep w.db

    pub Keeps-query : {A : Type 0} (f : Db → Result A) → Keeps K (query env f)
    unfolding query
    Keeps-query f = Keeps-statement _ (λ now db. keep db)

    pub Keeps-exec :
        (f : ℕ → Db → Db) → ((now : ℕ) (db : Db) → Rel db (f now db)) → Keeps K (exec env f)
    unfolding exec
    Keeps-exec f h = Keeps-statement _ h

    pub Keeps-begin : Keeps K (begin env)
    unfolding begin
    Keeps-begin = Keeps-statement _ (λ now db. keep db)

    pub Keeps-time_now : Keeps K (time_now env)
    unfolding time_now
    Keeps-time_now = record { at = λ w. keep w.db }

    pub Keeps-draw : Keeps K (draw env)
    unfolding draw
    Keeps-draw = record { at = λ w. keep w.db }

pub ruleset keeps_rules = (
  Keeps-pure, Keeps-raise, Keeps-lift, Keeps-call, Keeps-bind, Keeps-map_error, Keeps-attempt,
  Keeps-query, Keeps-begin, Keeps-time_now, Keeps-draw, Keeps-if,
)
