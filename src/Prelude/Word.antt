-- ===== src/Prelude/Word.antt =====
-- Go's `int64`: an integer whose sums and differences wrap around. A word is the 64-bit pattern of
-- the number.
use go_pay.Prelude.Tests.{ltb, if◌then◌else◌}
use go_pay.Prelude.Int.{ℤ, pos, negsuc}
use Prim.Native.Nat.{ℕ, ◌+◌, ◌-◌, ◌%◌, ◌^◌}

abbrev pub word : ℤ → ℕ
word (pos n) = n % 2 ^ 64
word (negsuc n) = (2 ^ 64 - 1) - n % 2 ^ 64

abbrev pub signed64 : ℕ → ℤ
signed64 w = if ltb w (2 ^ 63) then pos w else negsuc ((2 ^ 64 - 1) - w)

-- `a - b`
abbrev pub sub64 : ℤ → ℤ → ℤ
sub64 a b = signed64 ((word a + 2 ^ 64 - word b) % 2 ^ 64)

-- `-a`
abbrev pub neg64 : ℤ → ℤ
neg64 a = signed64 ((2 ^ 64 - word a) % 2 ^ 64)
