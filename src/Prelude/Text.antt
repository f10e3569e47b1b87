-- ===== src/Prelude/Text.antt =====
-- What the code takes from `fmt`, `strconv`, `encoding/hex` and `strings` to print numbers and
-- to trim a URL.
use Prim.Native.Char.{code}
use Prim.Native.Nat.{ℕ, zero, suc, ◌/◌, ◌%◌}
use Prim.Native.String.{String, ◌++◌ as str_append}
use mathlib.Core.Bool.{◌&&◌}
use mathlib.Core.List.{List, [], ◌∷◌}
use go_pay.Prelude.Tests.{ltb, eqb, if◌then◌else◌, concat}
use go_pay.Prelude.Int.{ℤ, pos, negsuc}
use text.Mathlib.Text.{◌==◌}

unfoldable pub nth_text : List String → ℕ → String
nth_text [] i = ""
nth_text (s ∷ ss) zero = s
nth_text (s ∷ ss) (suc i) = nth_text ss i

-- The digit of a number below 16.
unfoldable pub digit : ℕ → String
unfolding nth_text
digit = nth_text (
    "0" ∷ "1" ∷ "2" ∷ "3" ∷ "4" ∷ "5" ∷ "6" ∷ "7" ∷ "8" ∷ "9" ∷ "a" ∷ "b" ∷ "c" ∷ "d" ∷ "e" ∷ "f"
    ∷ [])

unfoldable pub digits_on_fuel : ℕ → ℕ → String
digits_on_fuel zero n = ""
digits_on_fuel (suc fuel) n =
    let higher = digits_on_fuel fuel (n / 10) in
    if ltb n 10 then digit n else str_append higher (digit (n % 10))

-- `%d` of a number that is not negative; a number has fewer digits than the fuel.
unfoldable pub show_ℕ : ℕ → String
unfolding digits_on_fuel digit nth_text
show_ℕ n = digits_on_fuel (suc n) n

-- `strconv.FormatInt(a, 10)`, and `%d`.
unfoldable pub show_ℤ : ℤ → String
unfolding show_ℕ
show_ℤ (pos n) = show_ℕ n
show_ℤ (negsuc n) = str_append "-" (show_ℕ (suc n))

-- `%06d` of a number below 1000000.
unfoldable pub show_06 : ℕ → String
unfolding digit
show_06 n = concat (
    digit (n / 100000 % 10)
    ∷ digit (n / 10000 % 10)
    ∷ digit (n / 1000 % 10)
    ∷ digit (n / 100 % 10)
    ∷ digit (n / 10 % 10)
    ∷ digit (n % 10)
    ∷ [])

-- `hex.EncodeToString` of a list of bytes.
unfoldable pub hex : List ℕ → String
unfolding digit
hex [] = ""
hex (b ∷ bs) = concat (digit (b / 16 % 16) ∷ digit (b % 16) ∷ hex bs ∷ [])

-- `strings.TrimRight(s, "/")`
unfoldable pub trim_slashes : String → String
trim_slashes String.[] = ""
trim_slashes (String.◌∷◌ c s) =
    let rest = trim_slashes s in if eqb (code c) b'/' && (rest == "") then "" else String.◌∷◌ c rest
