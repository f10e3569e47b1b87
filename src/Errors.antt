-- ===== src/Errors.antt =====
-- pkg/errors/errors.go, and Go's `error` as the services use it: the sentinels, the business
-- errors, the errors of the database driver, and the chains that `fmt.Errorf` with `%w` builds.
-- `errors.As` and `errors.Is` walk such a chain.
pub mod Make
use go_pay.Prelude.{
  ◌≡◌, refl, ◌⊎◌, inl, inr, ℕ, String, Bool, true, false, Option, none, some, List, [], ◌∷◌, ◌||◌,
}
use go_pay.Prelude.{concat, eqb, ◌==◌}

-- The `errors.New` values of the package.
pub data Sentinel : Type 0 where
  not_found app_not_found app_inactive channel_not_found channel_inactive : Sentinel
  order_not_found order_exists order_paid order_closed invalid_amount : Sentinel
  payment_failed notify_failed signature_invalid invalid_request invalid_channel : Sentinel

-- The texts of the sentinels.
abbrev sentinel_text : Sentinel → String
sentinel_text Sentinel.not_found = "not found"
sentinel_text Sentinel.app_not_found = "app not found"
sentinel_text Sentinel.app_inactive = "app inactive"
sentinel_text Sentinel.channel_not_found = "channel not found"
sentinel_text Sentinel.channel_inactive = "channel inactive"
sentinel_text Sentinel.order_not_found = "order not found"
sentinel_text Sentinel.order_exists = "order exists"
sentinel_text Sentinel.order_paid = "order paid"
sentinel_text Sentinel.order_closed = "order closed"
sentinel_text Sentinel.invalid_amount = "invalid amount"
sentinel_text Sentinel.payment_failed = "payment failed"
sentinel_text Sentinel.notify_failed = "notify failed"
sentinel_text Sentinel.signature_invalid = "signature invalid"
sentinel_text Sentinel.invalid_request = "invalid request"
sentinel_text Sentinel.invalid_channel = "invalid channel"

pub data ErrorType : Type 0 where
  type_not_found type_app_not_found type_app_inactive type_channel_not_found : ErrorType
  type_channel_inactive type_order_not_found type_order_exists type_order_paid : ErrorType
  type_order_closed type_invalid_amount type_payment_failed type_notify_failed : ErrorType
  type_signature_invalid type_invalid_request type_invalid_channel : ErrorType
  type_timestamp_expired type_nonce_replay : ErrorType

abbrev pub Details : Type 0
Details = List (String × String)

-- A value of Go's interface `error`. `driver` is an error of the database driver, with its SQL
-- state, constraint, message and text; `plain` is any other error that wraps none; `wrap p e` is
-- `fmt.Errorf("p: %w", e)`; `business` is a `*BusinessError`.
pub data GoError : Type 0 where
  nil_error : GoError
  sentinel : Sentinel → GoError
  no_rows : GoError
  driver : String → String → String → String → GoError
  plain : String → GoError
  wrap : String → GoError → GoError
  business : ErrorType → String → String → Details → GoError → GoError

pub record BusinessError : Type 0 where
  pub kind : ErrorType
  pub code : String
  pub message : String
  pub details : Details
  pub err : GoError

-- `Error()`. A business error prints its message and the error that it holds, if any.
unfoldable pub error_text : GoError → String
error_text nil_error = "<nil>"
error_text (sentinel s) = sentinel_text s
error_text no_rows = "sql: no rows in result set"
error_text (driver state constraint message text) = text
error_text (plain text) = text
error_text (wrap prefix e) = concat (prefix ∷ ": " ∷ error_text e ∷ [])
error_text (business kind code message details nil_error) = message
error_text (business kind code message details e) = concat (message ∷ ": " ∷ error_text e ∷ [])

-- `errors.As(err, &bizErr)`
unfoldable pub as_business : GoError → Option BusinessError
as_business (business kind code message details e) =
    some (record { kind = kind; code = code; message = message; details = details; err = e })
as_business (wrap prefix e) = as_business e
as_business _ = none

-- The position of a sentinel in the `var` block; equal positions are one pointer.
abbrev sentinel_id : Sentinel → ℕ
sentinel_id Sentinel.not_found = 0
sentinel_id Sentinel.app_not_found = 1
sentinel_id Sentinel.app_inactive = 2
sentinel_id Sentinel.channel_not_found = 3
sentinel_id Sentinel.channel_inactive = 4
sentinel_id Sentinel.order_not_found = 5
sentinel_id Sentinel.order_exists = 6
sentinel_id Sentinel.order_paid = 7
sentinel_id Sentinel.order_closed = 8
sentinel_id Sentinel.invalid_amount = 9
sentinel_id Sentinel.payment_failed = 10
sentinel_id Sentinel.notify_failed = 11
sentinel_id Sentinel.signature_invalid = 12
sentinel_id Sentinel.invalid_request = 13
sentinel_id Sentinel.invalid_channel = 14

-- `errors.Is(err, target)` at a sentinel.
unfoldable pub is_sentinel : GoError → Sentinel → Bool
is_sentinel (sentinel s) target = eqb (sentinel_id s) (sentinel_id target)
is_sentinel (wrap prefix e) target = is_sentinel e target
is_sentinel (business kind code message details e) target = is_sentinel e target
is_sentinel _ target = false

-- `err == sql.ErrNoRows`
abbrev pub is_no_rows : GoError → Bool
is_no_rows no_rows = true
is_no_rows _ = false

-- `errors.As(err, &pqErr)`: the SQL state, the constraint and the message.
abbrev pub as_driver : GoError → Option (String × String × String)
as_driver (driver state constraint message text) = some (state, constraint, message)
as_driver (wrap prefix e) = as_driver e
as_driver (business kind code message details e) = as_driver e
as_driver _ = none

-- What a call returns: its value, or a `nil` value with an error.
pub data Result (A : Type 0) : Type 0 where
  ok : A → Result A
  err : GoError → Result A

pub Result-cases :
    {A : Type 0} (r : Result A) → ((e : GoError) × (r ≡ err e)) ⊎ ((a : A) × (r ≡ ok a))
Result-cases (ok a) = inr (a, refl)
Result-cases (err e) = inl (e, refl)
