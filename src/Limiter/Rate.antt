-- ===== src/Limiter/Rate.antt =====
-- How many requests the token bucket of pkg/limiter/limiter.go lets pass.
use go_pay.Prelude.{ℕ, ◌+◌, ◌-◌, ◌*◌, ◌≤◌, ◌≡◌, Bool, true, false, none, some, List, [], ◌∷◌, arith}
use go_pay.Limiter.{Bucket, tokens_at, allow}

-- The second of a request, and whether Redis has dropped the keys since.
abbrev pub Request : Type 0
Request = ℕ × Bool

-- The keys were set at least two seconds before they are dropped.
abbrev pub MayExpire : ℕ → Bool → Bucket → Type 0
MayExpire now false bucket = Unit
MayExpire now true none = Unit
MayExpire now true (some (tokens, timestamp)) = timestamp + 2 ≤ now

abbrev pub as_number : Bool → ℕ
as_number true = 1
as_number false = 0

module _ (rate burst : ℕ) where
  -- The requests that pass.
  unfoldable pub allowed : List Request → Bucket → ℕ
  allowed [] bucket = 0
  allowed ((now, expired) ∷ rs) bucket =
      let (passed, bucket') = allow rate burst now expired bucket in
      as_number passed + allowed rs bucket'

  -- The clock does not go back from `clock`, ends by `last`, and keys are not dropped early.
  abbrev pub InTime : ℕ → ℕ → List Request → Bucket → Type 0
  InTime clock last [] bucket = clock ≤ last
  InTime clock last ((now, expired) ∷ rs) bucket =
      (clock ≤ now)
      × MayExpire now expired bucket
      × InTime now last rs (allow rate burst now expired bucket).1

  due_at_once : (now : ℕ) → (now - now) * rate ≡ 0
  due_at_once now = grind arith

  due_at_least : (n d : ℕ) → n ≤ d → n * rate ≤ d * rate
  due_at_least n d h = grind arith

  due_added : (c d : ℕ) → (c + d) * rate ≡ c * rate + d * rate
  due_added c d = grind arith

  scaled :
      (clock now timestamp : ℕ)
      → clock ≤ now
      → (now - timestamp) * rate ≤ (clock - timestamp) * rate + (now - clock) * rate
  scaled clock now timestamp h = omega (
    arith,
    due_at_least (now - timestamp) ((clock - timestamp) + (now - clock)) (omega arith),
    due_added (clock - timestamp) (now - clock),
  )

  -- Where dropping the keys gives no more than waiting does, the tokens grow by the rate.
  tokens_at-later :
      (clock now : ℕ) (bucket : Bucket)
      → clock ≤ now
      → tokens_at rate burst now bucket ≤ tokens_at rate burst clock bucket + (now - clock) * rate
  tokens_at-later clock now none h = ground arith
  tokens_at-later clock now (some (tokens, timestamp)) h =
      ground (arith, scaled clock now timestamp h)

  -- A request that passes takes a token, and one that does not leaves the bucket as it finds it.
  allow-tokens :
      (now : ℕ) (expired : Bool) (bucket : Bucket)
      → MayExpire now expired bucket
      → burst ≤ 2 * rate
      → let (passed, bucket') = allow rate burst now expired bucket in
        as_number passed + tokens_at rate burst now bucket' ≤ tokens_at rate burst now bucket
  unfolding allow
  allow-tokens now false none may h = ground (arith, due_at_once now)
  allow-tokens now false (some (tokens, timestamp)) may h = ground (arith, due_at_once now)
  allow-tokens now true none may h = ground (arith, due_at_once now)
  allow-tokens now true (some (tokens, timestamp)) may h =
      ground (arith, due_at_once now, due_at_least 2 (now - timestamp) (omega arith))

  InTime-le :
      (clock last : ℕ) (rs : List Request) (bucket : Bucket)
      → InTime clock last rs bucket
      → clock ≤ last
  InTime-le clock last [] bucket h = h
  InTime-le clock last ((now, expired) ∷ rs) bucket h =
      omega (arith, h.0, InTime-le now last rs (allow rate burst now expired bucket).1 h.2)

  allowed-tokens :
      (clock last : ℕ) (rs : List Request) (bucket : Bucket)
      → burst ≤ 2 * rate
      → InTime clock last rs bucket
      → allowed rs bucket ≤ tokens_at rate burst clock bucket + (last - clock) * rate
  unfolding allowed
  allowed-tokens clock last [] bucket b h = omega arith
  allowed-tokens clock last ((now, expired) ∷ rs) bucket b h =
      let bucket' = (allow rate burst now expired bucket).1 in
      omega (
        arith,
        due_added (now - clock) (last - now),
        due_at_least ((now - clock) + (last - now)) (last - clock)
            (omega (arith, h.0, InTime-le now last rs bucket' h.2)),
        tokens_at-later clock now bucket h.0,
        allow-tokens now expired bucket h.1 b,
        allowed-tokens now last rs bucket' b h.2,
      )

  tokens_at-le : (now : ℕ) (bucket : Bucket) → tokens_at rate burst now bucket ≤ burst
  tokens_at-le now none = omega arith
  tokens_at-le now (some (tokens, timestamp)) = ground arith

  -- Between two seconds a bucket lets pass at most its burst and its rate for every second between
  -- them, where the burst is at most twice the rate and Redis keeps the keys for two seconds.
  pub allowed-le :
      (clock last : ℕ) (rs : List Request) (bucket : Bucket)
      → burst ≤ 2 * rate
      → InTime clock last rs bucket
      → allowed rs bucket ≤ burst + (last - clock) * rate
  allowed-le clock last rs bucket b h =
      omega (arith, tokens_at-le clock bucket, allowed-tokens clock last rs bucket b h)
