-- ===== src/Limiter.antt =====
-- The script of `TokenBucketLimiter.Allow` in pkg/limiter/limiter.go, and the middleware of
-- pkg/middleware/rate_limit.go and local_rate_limit.go. The window is a second, so the script's
-- numbers are whole. Both keys of a bucket are set and expire together; whether Redis has dropped
-- them when a request comes is an argument.
pub mod Rate
use go_pay.Prelude.{
  ℕ, ◌+◌, ◌-◌, ◌*◌, String, ⊤, Bool, true, false, not, Option, none, some, List, [], ◌∷◌, ◌==◌,
  concat, ltb, leb, eqb, if◌then◌else◌,
}
use go_pay.Errors.{Result, ok, err}
use go_pay.Response.{too_many_requests}
use go_pay.Middleware.{Gate, abort, next}

-- The values of `tokens` and `timestamp`.
abbrev pub Bucket : Type 0
Bucket = Option (ℕ × ℕ)

abbrev pub min : ℕ → ℕ → ℕ
min a b = if leb a b then a else b

module _ (rate burst : ℕ) where
  -- `new_tokens` at the second `now`.
  abbrev pub tokens_at : ℕ → Bucket → ℕ
  tokens_at now none = burst
  tokens_at now (some (tokens, timestamp)) = min burst (tokens + (now - timestamp) * rate)

  unfoldable pub allow : ℕ → Bool → Bucket → Bool × Bucket
  allow now expired bucket =
      let found = if expired then none else bucket in
      let new_tokens = tokens_at now found in
      if leb 1 new_tokens then (true, some (new_tokens - 1, now)) else (false, found)

-- `RateLimit` and `LocalRateLimit` put a rate and a burst right that are not positive, which 0
-- stands for.
abbrev pub rate_of : ℕ → ℕ
rate_of rate = if eqb rate 0 then 1 else rate

abbrev pub burst_of : ℕ → ℕ → ℕ
burst_of rate burst = if eqb burst 0 then rate_of rate else burst

abbrev pub ip_key : String → String
ip_key ip = concat ("ratelimit:ip:" ∷ ip ∷ [])

-- `RateLimit`, from what `Allow` returns for the key of the address.
unfoldable pub rate_limit : Result Bool → Gate ⊤
rate_limit (err e) = abort (too_many_requests "限流服务暂不可用，请稍后再试" [])
rate_limit (ok false) = abort (too_many_requests "请求过于频繁，请稍后再试" [])
rate_limit (ok true) = next tt

-- A limiter of golang.org/x/time/rate: a new one, and `Allow` at a time in seconds.
pub record LocalLimiter : Type 1 where
  pub Limiter : Type 0
  pub new_limiter : ℕ → ℕ → Limiter
  pub allow_at : ℕ → Limiter → Bool × Limiter

module _ (local : LocalLimiter) where
  -- An address, its limiter, and `resetAt`.
  abbrev pub Entries : Type 0
  Entries = List (String × local.Limiter × ℕ)

  abbrev entry_of : String → Entries → Option (local.Limiter × ℕ)
  entry_of ip [] = none
  entry_of ip ((i, l, t) ∷ es) = let rest = entry_of ip es in if i == ip then some (l, t) else rest

  abbrev drop_entry : String → Entries → Entries
  drop_entry ip [] = []
  drop_entry ip ((i, l, t) ∷ es) =
      let rest = drop_entry ip es in if i == ip then rest else (i, l, t) ∷ rest

  -- A tick of the goroutine that clears the map.
  abbrev pub clear_expired : ℕ → Entries → Entries
  clear_expired now [] = []
  clear_expired now ((i, l, t) ∷ es) =
      let rest = clear_expired now es in if ltb t now then rest else (i, l, t) ∷ rest

  -- The limiter that the request meets: a new one where there is none, or its time is over.
  abbrev limiter_for : ℕ → ℕ → ℕ → Option (local.Limiter × ℕ) → local.Limiter
  limiter_for rate burst now none = local.new_limiter (rate_of rate) (burst_of rate burst)
  limiter_for rate burst now (some (l, t)) =
      if ltb t now then local.new_limiter (rate_of rate) (burst_of rate burst) else l

  unfoldable pub local_rate_limit : ℕ → ℕ → ℕ → String → Entries → Gate ⊤ × Entries
  local_rate_limit rate burst now ip entries =
      let (allowed, l) = local.allow_at now (limiter_for rate burst now (entry_of ip entries)) in
      let entries' = (ip, l, now + 60) ∷ drop_entry ip entries in
      if not allowed
      then (abort (too_many_requests "请求过于频繁，请稍后再试" []), entries')
      else (next tt, entries')
