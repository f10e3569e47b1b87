-- ===== src/Middleware/Signature.antt =====
-- `SignatureAuth` of pkg/middleware/signature.go. The readings of the clock, the row of the app and
-- the error of reading it, and the HMAC are arguments.
use Prim.Native.Char.{code}
use go_pay.Prelude.{
  ℕ, zero, suc, ◌+◌, ◌-◌, ◌*◌, ◌^◌, String, Bool, not, ◌&&◌, ◌||◌, Option, none, some, List, [],
  ◌∷◌, ◌==◌, if◌then◌else◌, leb, ltb, eqb, concat, find,
}
use go_pay.Prelude.Int.{ℤ, pos, negsuc, ltb_ℤ}
use go_pay.Prelude.Word.{sub64, neg64}
use go_pay.Errors.{GoError, Result, ok, err}
use go_pay.Models.{App}
use go_pay.Response.{error_reply, bad_request}
use go_pay.Security.Nonces.{Cache, check_nonce}
use go_pay.Middleware.{Gate, abort, next}

pub record SignedRequest : Type 0 where
  pub app_id : String
  pub timestamp : String
  pub nonce : String
  pub signature : String
  pub body : Result String

abbrev pub is_digit : ℕ → Bool
is_digit c = leb b'0' c && leb c b'9'

-- The value of a text of digits, most significant first.
abbrev pub digits_from : ℕ → String → Option ℕ
digits_from n String.[] = some n
digits_from n (String.◌∷◌ c s) =
    let rest = digits_from (n * 10 + (code c - b'0')) s in if is_digit (code c) then rest else none

-- The digits of a number, at least one.
abbrev pub digits : String → Option ℕ
digits String.[] = none
digits (String.◌∷◌ c s) = digits_from 0 (String.◌∷◌ c s)

abbrev pub in_range : ℕ → ℤ → Option ℕ → Option ℤ
in_range limit sign none = none
in_range limit (pos k) (some n) = if ltb n limit then some (pos n) else none
in_range limit (negsuc k) (some zero) = some (pos 0)
in_range limit (negsuc k) (some (suc n)) = if ltb n limit then some (negsuc n) else none

-- `strconv.ParseInt(s, 10, 64)`; its errors are all alike to the caller.
unfoldable pub parse_int : String → Option ℤ
parse_int String.[] = none
parse_int (String.◌∷◌ c s) =
    if eqb (code c) b'-'
    then in_range (2 ^ 63) (negsuc 0) (digits s)
    else if eqb (code c) b'+'
    then in_range (2 ^ 63) (pos 0) (digits s)
    else in_range (2 ^ 63) (pos 0) (digits (String.◌∷◌ c s))

abbrev pub abs : ℤ → ℤ
abs n = if ltb_ℤ n (pos 0) then neg64 n else n

-- `abs(now-timestamp) > 300`
unfoldable pub is_expired : ℤ → ℤ → Bool
is_expired now timestamp = ltb_ℤ (pos 300) (abs (sub64 now timestamp))

-- Steps 3 to 6. `fault` is the error of the query, if it fails.
module _ (hmac : String → String → String) (fault : Option GoError) (apps : List App) where
  unfoldable pub check_signature : SignedRequest → App → String → Gate String
  check_signature r app body =
      if not (
        r.signature
        == hmac app.app_secret (concat (body ∷ "\n" ∷ r.timestamp ∷ "\n" ∷ r.nonce ∷ [])))
      then abort (error_reply 401 "SIGNATURE_INVALID" "签名验证失败" [])
      else next r.app_id

  unfoldable pub check_app : SignedRequest → Option App → Gate String
  unfolding check_signature
  check_app r none = abort (error_reply 401 "APP_NOT_FOUND" "应用不存在" [])
  check_app r (some app) =
      if not (app.status == "active")
      then abort (error_reply 401 "APP_INACTIVE" "应用已禁用" [])
      else elim r.body [
        | err e ↦ abort (bad_request "读取请求体失败" [])
        | ok body ↦ check_signature r app body
      ]

  abbrev pub app_row : String → Option App
  app_row app_id = elim fault [ some e ↦ none | none ↦ find (λ (a : App). a.app_id == app_id) apps ]

  -- Step 2 and what follows; `checker` is none where the nonce checker is nil.
  unfoldable pub check_replay : ℕ → Option Cache → SignedRequest → Gate String × Option Cache
  unfolding check_app
  check_replay now none r = (check_app r (app_row r.app_id), none)
  check_replay now (some cache) r =
      let (fresh, cache') = check_nonce now r.nonce cache in
      (
        (if not fresh
            then abort (error_reply 401 "NONCE_REPLAY" "请求已被使用（nonce 重复）" [])
            else check_app r (app_row r.app_id)),
        some cache',
      )

  -- The gate, and the nonces afterwards; `now` is the clock at step 1, `now'` in `CheckNonce`.
  unfoldable pub signature_auth : ℕ → ℕ → Option Cache → SignedRequest → Gate String × Option Cache
  unfolding check_replay
  signature_auth now now' checker r =
      if (r.app_id == "") || (r.timestamp == "") || (r.nonce == "") || (r.signature == "")
      then (
        abort (
            error_reply 401 "UNAUTHORIZED" "缺少签名参数"
              ("需要 X-App-ID, X-Timestamp, X-Nonce, X-Signature" ∷ [])),
        checker,
      )
      else elim (parse_int r.timestamp) [
        | none ↦ (abort (error_reply 400 "INVALID_REQUEST" "X-Timestamp 格式错误" []), checker)
        | some timestamp ↦
            if is_expired (pos now) timestamp
            then (abort (error_reply 401 "TIMESTAMP_EXPIRED" "签名已过期" []), checker)
            else check_replay now' checker r
      ]
