-- ===== src/Middleware/Window.antt =====
-- The timestamps that `SignatureAuth` of pkg/middleware/signature.go takes for current, where the
-- clock stands after the first and before the last 300 seconds of an int64.
use go_pay.Prelude.{ℕ, ◌+◌, ◌-◌, ◌^◌, ◌≤◌, ◌<◌, ◌≡◌, false, ◌⊎◌, inl, inr, ◌↔◌, ap, arith}
use go_pay.Prelude.Int.{ℤ, pos, negsuc, ◌≤ℤ◌}
use go_pay.Middleware.Signature.{is_expired}

-- An `int64`.
abbrev pub InRange : ℤ → Type 0
InRange (pos n) = n < 2 ^ 63
InRange (negsuc n) = n < 2 ^ 63

pub is_expired_pos :
    (now n : ℕ)
    → now < 2 ^ 63
    → n < 2 ^ 63
    → (is_expired (pos now) (pos n) ≡ false) ↔ (now ≤ n + 300) × (n ≤ now + 300)
unfolding is_expired
is_expired_pos now n h k = (λ e. ground arith, λ e. ground arith)

is_expired_negsuc :
    (now n : ℕ)
    → 300 < now
    → now + 300 < 2 ^ 63
    → n < 2 ^ 63
    → (is_expired (pos now) (negsuc n) ≡ false) ↔ (n ≡ 2 ^ 63 - 1 - now)
unfolding is_expired
is_expired_negsuc now n h k l = (λ e. ground arith, λ e. ground arith)

-- A timestamp is taken for current just where it is at most 300 seconds away from the clock, or
-- where it lies 2^63 seconds before it: there the difference wraps around to the least int64,
-- whose `abs` is itself.
pub is_expired-window :
    (now : ℕ) (timestamp : ℤ)
    → 300 < now
    → now + 300 < 2 ^ 63
    → InRange timestamp
    → (is_expired (pos now) timestamp ≡ false)
      ↔ ((pos (now - 300) ≤ℤ timestamp) × (timestamp ≤ℤ pos (now + 300)))
        ⊎ (timestamp ≡ negsuc (2 ^ 63 - 1 - now))
is_expired-window now (pos n) h k l = (
  λ e. inl (ground (arith, (is_expired_pos now n (omega arith) l).0 e)),
  λ e. (is_expired_pos now n (omega arith) l).1 (ground arith),
)
is_expired-window now (negsuc n) h k l = (
  λ e. inr (ap negsuc ((is_expired_negsuc now n h k l).0 e)),
  λ e. (is_expired_negsuc now n h k l).1 (ground arith),
)
