-- ===== src/Examples/Limits.antt =====
-- A token bucket under load.
use go_pay.Prelude.{◌+◌, ◌-◌, ◌*◌, ◌≤◌, ◌≡◌, refl, true, false, none, List, [], ◌∷◌, arith}
use go_pay.Limiter.{allow}
use go_pay.Limiter.Rate.{Request, allowed, allowed-le}

abbrev burst_of_requests : List Request
burst_of_requests = (10, false) ∷ (10, false) ∷ (10, false) ∷ (11, false) ∷ (13, true) ∷ []

allowed-le_example : allowed 1 2 burst_of_requests none ≤ 2 + (20 - 10) * 1
unfolding allow
allowed-le_example = allowed-le 1 2 10 20 burst_of_requests none (omega arith) (omega arith)

-- With a burst of more than twice the rate, a bucket whose keys have expired is full again before
-- it would be: eight requests pass within two seconds, where 4 + 2 are due.
expired_bucket_is_full :
    allowed 1 4
      ((10, false)
        ∷ (10, false)
        ∷ (10, false)
        ∷ (10, false)
        ∷ (12, true)
        ∷ (12, false)
        ∷ (12, false)
        ∷ (12, false)
        ∷ [])
      none
    ≡ 8
unfolding allowed allow
expired_bucket_is_full = refl
