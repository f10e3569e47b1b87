-- ===== src/Reconciliation.antt =====
-- internal/reconciliation: the bill of a channel for one day is compared with the orders that the
-- gateway holds, and what differs is reported, stored and alerted. A date is its number of days.
pub mod Compare
pub mod Tally
pub mod Agreement
pub mod Bills
pub mod Panics
pub mod Repository
pub mod Run
pub mod Report
pub mod Store
pub mod Saved
pub mod Schedule
pub mod Alerts
pub mod Shortage
use go_pay.Prelude.{ℕ, String, List}
use go_pay.Errors.{GoError, Result, ok, err}
use go_pay.Prelude.Int.{ℤ}

pub record AmountMismatch : Type 0 where
  pub order_no : String
  pub internal_amount : ℤ
  pub external_amount : ℤ
  pub difference : ℤ

pub record ReconcileResult : Type 0 where
  pub date : ℕ
  pub channel : String
  pub app_id : String
  pub total_orders : ℕ
  pub matched_orders : ℕ
  pub missing_orders : List String
  pub extra_orders : List String
  pub amount_mismatch : List AmountMismatch
  pub status : String
  pub created_at : ℕ

-- `PaidAt` of a record is never set.
pub record BillRecord : Type 0 where
  pub transaction_id : String
  pub order_no : String
  pub amount : ℤ
  pub status : String
  pub channel : String

pub record Order : Type 0 where
  pub order_no : String
  pub amount : ℤ
  pub status : String
  pub paid_at : ℕ

-- How a call ends: it returns, or an index out of range makes it panic.
pub data Call (A : Type 0) : Type 0 where
  returned : Result A → Call A
  panicked : Call A

infixl 5 ◌>>=◌
abbrev pub ◌>>=◌ : {A B : Type 0} → Call A → (A → Call B) → Call B
returned (ok a) >>= f = f a
returned (err e) >>= f = returned (err e)
panicked >>= f = panicked

-- `if err != nil { return …, fmt.Errorf("…: %w", err) }`
abbrev pub wrap_call : {A : Type 0} → (GoError → GoError) → Call A → Call A
wrap_call f (returned (ok a)) = returned (ok a)
wrap_call f (returned (err e)) = returned (err (f e))
wrap_call f panicked = panicked
