-- ===== src/Response/Mapping.antt =====
-- How `HandleError` (pkg/response/response.go) classifies the errors of pkg/errors/errors.go.
use go_pay.Prelude.{ℕ, String, List, [], ◌∷◌, ◌≡◌, refl, ◌∙◌, sym, ap, Option, none, some, arith}
use go_pay.Prelude.Int.{ℤ}
use go_pay.Errors.{
  Sentinel, BusinessError, Details, GoError, sentinel, wrap, as_business, is_sentinel,
}
use go_pay.Errors.Make.{
  new_app_not_found, new_app_inactive, new_channel_not_found, new_channel_inactive,
  new_order_not_found, new_order_exists, new_order_paid, new_order_closed, new_invalid_amount,
  new_signature_invalid, new_invalid_channel, new_payment_failed, new_notify_failed,
  new_invalid_request,
}
use go_pay.Response.{Reply, failure, success, handle_error, handle_business_error, handle_sentinel}

-- A call of one of the constructors of pkg/errors/errors.go.
pub data Call : Type 0 where
  app_not_found app_inactive order_not_found order_exists order_paid order_closed : String → Call
  invalid_channel : String → Call
  channel_not_found channel_inactive : String → String → Call
  invalid_amount : ℤ → Call
  signature_invalid : Call
  payment_failed notify_failed : String → GoError → Call
  invalid_request : String → Details → Call

abbrev pub made : Call → GoError
made (Call.app_not_found a) = new_app_not_found a
made (Call.app_inactive a) = new_app_inactive a
made (Call.channel_not_found a c) = new_channel_not_found a c
made (Call.channel_inactive a c) = new_channel_inactive a c
made (Call.order_not_found n) = new_order_not_found n
made (Call.order_exists n) = new_order_exists n
made (Call.order_paid n) = new_order_paid n
made (Call.order_closed n) = new_order_closed n
made (Call.invalid_amount a) = new_invalid_amount a
made Call.signature_invalid = new_signature_invalid
made (Call.invalid_channel c) = new_invalid_channel c
made (Call.payment_failed m e) = new_payment_failed m e
made (Call.notify_failed n e) = new_notify_failed n e
made (Call.invalid_request m d) = new_invalid_request m d

-- What a client is told, by the class of the failure: 404 for what is missing, 403 for what is
-- switched off, 409 for a conflict with the order's state, 401 for a bad signature, 400 for a bad
-- request, 500 for a failure behind GoPay.
abbrev pub status_class : Call → ℕ
status_class (Call.app_not_found a) = 404
status_class (Call.channel_not_found a c) = 404
status_class (Call.order_not_found n) = 404
status_class (Call.app_inactive a) = 403
status_class (Call.channel_inactive a c) = 403
status_class (Call.order_exists n) = 409
status_class (Call.order_paid n) = 409
status_class (Call.order_closed n) = 409
status_class Call.signature_invalid = 401
status_class (Call.invalid_amount a) = 400
status_class (Call.invalid_channel c) = 400
status_class (Call.invalid_request m d) = 400
status_class (Call.payment_failed m e) = 500
status_class (Call.notify_failed n e) = 500

-- `fmt.Errorf("p: %w", …)` once for each prefix.
abbrev pub wraps : List String → GoError → GoError
wraps [] e = e
wraps (p ∷ ps) e = wrap p (wraps ps e)

as_business-wraps : (ps : List String) (e : GoError) → as_business (wraps ps e) ≡ as_business e
unfolding as_business
as_business-wraps [] e = refl
as_business-wraps (p ∷ ps) e = as_business-wraps ps e

handle_error-made_bare :
    {A : Type 0} (c : Call) {b : BusinessError}
    → as_business (made c) ≡ some b
    → handle_business_error {A = A} b ≡ failure (status_class c) b.code b.message b.details
unfolding as_business handle_business_error
handle_error-made_bare (Call.app_not_found a) h = ground arith
handle_error-made_bare _ h = ground arith

handle_error-of_business :
    {A : Type 0} (e : GoError) {b : BusinessError}
    → as_business e ≡ some b
    → handle_error {A = A} e ≡ handle_business_error b
unfolding handle_error
handle_error-of_business e h = rw (h, handle_error)

as_business-made : (c : Call) → (b : BusinessError) × (as_business (made c) ≡ some b)
unfolding as_business
as_business-made (Call.app_not_found a) = (_, refl)
as_business-made _ = (_, refl)

-- Whatever constructor of pkg/errors builds an error, and however often it is wrapped on the way
-- up, `HandleError` finds it, replies with the status of its class, and passes on its own code,
-- message and details.
pub handle_error-made :
    (A : Type 0) (ps : List String) (c : Call)
    → (b : BusinessError) × (as_business (made c) ≡ some b)
      × (handle_error {A = A} (wraps ps (made c))
          ≡ failure (status_class c) b.code b.message b.details)
handle_error-made A ps c =
    let (b, e) = as_business-made c in
    (
      b,
      e,
      handle_error-of_business (wraps ps (made c)) (as_business-wraps ps (made c) ∙ e)
          ∙ handle_error-made_bare c e,
    )

-- The status and the code of a reply.
abbrev pub summary : {A : Type 0} → Reply A → ℕ × String
summary (failure status code message details) = (status, code)
summary (success message a) = (200, "SUCCESS")

-- The sentinel that a constructor puts into its error.
abbrev pub own_sentinel : Call → Option Sentinel
own_sentinel (Call.app_not_found a) = some Sentinel.app_not_found
own_sentinel (Call.app_inactive a) = some Sentinel.app_inactive
own_sentinel (Call.channel_not_found a c) = some Sentinel.channel_not_found
own_sentinel (Call.channel_inactive a c) = some Sentinel.channel_inactive
own_sentinel (Call.order_not_found n) = some Sentinel.order_not_found
own_sentinel (Call.order_exists n) = some Sentinel.order_exists
own_sentinel (Call.order_paid n) = some Sentinel.order_paid
own_sentinel (Call.order_closed n) = some Sentinel.order_closed
own_sentinel (Call.invalid_amount a) = some Sentinel.invalid_amount
own_sentinel Call.signature_invalid = some Sentinel.signature_invalid
own_sentinel (Call.invalid_channel c) = some Sentinel.invalid_channel
own_sentinel (Call.invalid_request m d) = some Sentinel.invalid_request
own_sentinel _ = none

is_sentinel-wraps :
    (ps : List String) (e : GoError) (t : Sentinel) → is_sentinel (wraps ps e) t ≡ is_sentinel e t
unfolding is_sentinel
is_sentinel-wraps [] e t = refl
is_sentinel-wraps (p ∷ ps) e t = is_sentinel-wraps ps e t

-- The second table, by sentinel.
sentinel_summary : Sentinel → ℕ × String
sentinel_summary Sentinel.not_found = (500, "INTERNAL_ERROR")
sentinel_summary Sentinel.app_not_found = (404, "APP_NOT_FOUND")
sentinel_summary Sentinel.app_inactive = (403, "APP_INACTIVE")
sentinel_summary Sentinel.channel_not_found = (404, "CHANNEL_NOT_FOUND")
sentinel_summary Sentinel.channel_inactive = (403, "CHANNEL_INACTIVE")
sentinel_summary Sentinel.order_not_found = (404, "ORDER_NOT_FOUND")
sentinel_summary Sentinel.order_exists = (409, "ORDER_EXISTS")
sentinel_summary Sentinel.order_paid = (409, "ORDER_PAID")
sentinel_summary Sentinel.order_closed = (409, "ORDER_CLOSED")
sentinel_summary Sentinel.invalid_amount = (400, "INVALID_AMOUNT")
sentinel_summary Sentinel.payment_failed = (500, "PAYMENT_FAILED")
sentinel_summary Sentinel.notify_failed = (500, "NOTIFY_FAILED")
sentinel_summary Sentinel.signature_invalid = (401, "SIGNATURE_INVALID")
sentinel_summary Sentinel.invalid_request = (400, "INVALID_REQUEST")
sentinel_summary Sentinel.invalid_channel = (400, "INVALID_CHANNEL")

summary-handle_sentinel :
    (A : Type 0) (ps : List String) (s : Sentinel)
    → summary (handle_sentinel {A = A} (wraps ps (sentinel s))) ≡ sentinel_summary s
unfolding handle_sentinel sentinel_summary is_sentinel
summary-handle_sentinel A ps Sentinel.not_found = simp is_sentinel-wraps
summary-handle_sentinel A ps _ = simp is_sentinel-wraps

summary-sentinel :
    (A : Type 0) (ps : List String) (s : Sentinel)
    → summary (handle_error {A = A} (wraps ps (sentinel s))) ≡ sentinel_summary s
unfolding handle_error as_business
summary-sentinel A ps s =
    rw (as_business-wraps ps (sentinel s), handle_error) (summary-handle_sentinel A ps s)

own_sentinel-summary :
    (c : Call) {s : Sentinel} {b : BusinessError}
    → own_sentinel c ≡ some s
    → as_business (made c) ≡ some b
    → sentinel_summary s ≡ (status_class c, b.code)
unfolding sentinel_summary as_business
own_sentinel-summary (Call.app_not_found a) h e = ground arith
own_sentinel-summary _ h e = ground arith

-- `HandleError` has two tables, one by type and one by sentinel. They agree: a wrapped sentinel
-- gets the status and the code of the business error that the constructors build around it.
pub handle_error_tables_agree :
    (A : Type 0) (ps qs : List String) (c : Call) {s : Sentinel}
    → own_sentinel c ≡ some s
    → summary (handle_error {A = A} (wraps ps (sentinel s)))
      ≡ summary (handle_error {A = A} (wraps qs (made c)))
handle_error_tables_agree A ps qs c {s} h =
    let (b, found, reply) = handle_error-made A qs c in
    summary-sentinel A ps s ∙ own_sentinel-summary c h found ∙ sym (ap summary reply)
