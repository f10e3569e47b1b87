-- ===== src/World/Laws.antt =====
-- How actions of `M` run, one lemma for each primitive, so that a proof steps through a method
-- with its parts shut.
use go_pay.Prelude.{ℕ, ◌+◌, ◌≡◌, refl, sym, ◌∙◌, ap, none, some, arith}
use mathlib.Core.Path.{subst}
use go_pay.Errors.{GoError, Result, ok, err}
use go_pay.World.{Db, World, Env, M, map_error, attempt, ◌>>=◌, tick, statement, query, begin}

module _ {A B : Type 0} where
  pub bind-ok :
      (m : M A) (f : A → M B) (w : World) {a : A} {w' : World}
      → m w ≡ (ok a, w')
      → (m >>= f) w ≡ f a w'
  unfolding ◌>>=◌
  bind-ok m f w h = ap (λ x. elim x.0 [ ok a ↦ f a x.1 | err e ↦ (err e, x.1) ]) h

  pub bind-err :
      (m : M A) (f : A → M B) (w : World) {e : GoError} {w' : World}
      → m w ≡ (err e, w')
      → (m >>= f) w ≡ (err e, w')
  unfolding ◌>>=◌
  bind-err m f w h = ap (λ x. elim x.0 [ ok a ↦ f a x.1 | err e ↦ (err e, x.1) ]) h

  -- What holds after each end of the first action, the second run where it succeeds.
  pub bind_rule {ℓ} :
      (P : Result B × World → Type ℓ) (m : M A) (f : A → M B) (w : World)
      → ((a : A) (w' : World) → m w ≡ (ok a, w') → P (f a w'))
      → ((e : GoError) (w' : World) → m w ≡ (err e, w') → P (err e, w'))
      → P ((m >>= f) w)
  bind_rule P m f w h k = split (m w) refl
    where
      split : (x : Result A × World) → m w ≡ x → P ((m >>= f) w)
      split (ok a, w') e = subst P (sym (bind-ok m f w e)) (h a w' e)
      split (err x, w') e = subst P (sym (bind-err m f w e)) (k x w' e)

module _ {A : Type 0} where
  -- The result of `map_error`, by that of the action under it.
  abbrev pub map_err : (GoError → GoError) → Result A → Result A
  map_err g (ok a) = ok a
  map_err g (err e) = err (g e)

  pub map_error-eq :
      (g : GoError → GoError) (m : M A) (w : World) {r : Result A} {w' : World}
      → m w ≡ (r, w')
      → map_error g m w ≡ (map_err g r, w')
  unfolding map_error
  map_error-eq g m w {r = ok a} h =
      ap (λ x. elim x.0 [ ok b ↦ (ok b, x.1) | err e ↦ (err (g e), x.1) ]) h
  map_error-eq g m w {r = err x} h =
      ap (λ x. elim x.0 [ ok b ↦ (ok b, x.1) | err e ↦ (err (g e), x.1) ]) h

  pub attempt-eq :
      (m : M A) (w : World) {r : Result A} {w' : World} → m w ≡ (r, w') → attempt m w ≡ (ok r, w')
  unfolding attempt
  attempt-eq m w h = ap (λ x. (ok x.0, x.1)) h

module _ (env : Env) {A : Type 0} where
  pub statement-ok :
      (f : ℕ → Db → Result A × Db) (w : World)
      → env.fault w.statements ≡ none
      → statement env f w ≡ (
        (f (env.sql_now w.statements) w.db).0,
        record w { db = (f (env.sql_now w.statements) w.db).1; statements = w.statements + 1 },
      )
  unfolding statement
  statement-ok f w h = ground arith

  pub statement-err :
      (f : ℕ → Db → Result A × Db) (w : World) {e : GoError}
      → env.fault w.statements ≡ some e
      → statement env f w ≡ (err e, tick w)
  unfolding statement
  statement-err f w h = ground arith

  pub query-eq :
      (f : Db → Result A) (w : World) {r : Result A}
      → env.fault w.statements ≡ none
      → f w.db ≡ r
      → query env f w ≡ (r, tick w)
  unfolding query
  query-eq f w h e = statement-ok _ w h ∙ ap (λ r. (r, tick w)) e

module _ (env : Env) where
  pub begin-eq : (w : World) → env.fault w.statements ≡ none → begin env w ≡ (ok tt, tick w)
  unfolding begin
  begin-eq w h = statement-ok env _ w h

  pub begin-err :
      (w : World) {e : GoError} → env.fault w.statements ≡ some e → begin env w ≡ (err e, tick w)
  unfolding begin
  begin-err w h = statement-err env _ w h

  pub query-err :
      {A : Type 0} (f : Db → Result A) (w : World) {e : GoError}
      → env.fault w.statements ≡ some e
      → query env f w ≡ (err e, tick w)
  unfolding query
  query-err f w h = statement-err env _ w h
