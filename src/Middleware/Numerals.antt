-- ===== src/Middleware/Numerals.antt =====
-- The text that `strconv.FormatInt` prints is read back by `strconv.ParseInt`.
use Prim.Native.Char.{Char, code}
use Prim.Native.String.{◌++◌ as str_append}
use go_pay.Prelude.{
  ℕ, zero, suc, ◌+◌, ◌-◌, ◌*◌, ◌/◌, ◌%◌, ◌^◌, ◌<◌, ◌≤◌, String, true, false, some, ◌≡◌, refl, sym,
  ap, ◌∙◌, arith, inl, inr, Bool-cases, ltb, eqb,
}
use text.Mathlib.TextLemmas.{append_assoc, append-nil, cons-append, nil-append}
use go_pay.Prelude.Int.{pos}
use go_pay.Prelude.Text.{digit, digits_on_fuel, show_ℕ, show_ℤ}
use go_pay.Middleware.Signature.{is_digit, digits_from, parse_int}

digits_from-cons :
    (n : ℕ) (c : Char) (s : String)
    → is_digit (code c) ≡ true
    → digits_from n (str_append (String.◌∷◌ c "") s) ≡ digits_from (n * 10 + (code c - b'0')) s
digits_from-cons n c s h =
    ap (digits_from n) (cons-append c "" s ∙ ap (λ t. String.◌∷◌ c t) (nil-append s)) ∙ rw h refl

-- One digit is read as its value.
digits_from-digit :
    (n d : ℕ) (s : String)
    → d < 10
    → digits_from n (str_append (digit d) s) ≡ digits_from (n * 10 + d) s
unfolding digit
digits_from-digit n zero s h = digits_from-cons n "0" s refl
digits_from-digit n (suc zero) s h = digits_from-cons n "1" s refl
digits_from-digit n (suc (suc zero)) s h = digits_from-cons n "2" s refl
digits_from-digit n (suc (suc (suc zero))) s h = digits_from-cons n "3" s refl
digits_from-digit n (suc (suc (suc (suc zero)))) s h = digits_from-cons n "4" s refl
digits_from-digit n (suc (suc (suc (suc (suc zero))))) s h = digits_from-cons n "5" s refl
digits_from-digit n (suc (suc (suc (suc (suc (suc zero)))))) s h = digits_from-cons n "6" s refl
digits_from-digit n (suc (suc (suc (suc (suc (suc (suc zero))))))) s h =
    digits_from-cons n "7" s refl
digits_from-digit n (suc (suc (suc (suc (suc (suc (suc (suc zero)))))))) s h =
    digits_from-cons n "8" s refl
digits_from-digit n (suc (suc (suc (suc (suc (suc (suc (suc (suc zero))))))))) s h =
    digits_from-cons n "9" s refl
digits_from-digit n (suc (suc (suc (suc (suc (suc (suc (suc (suc (suc d)))))))))) s h =
    absurd (omega arith)

digits_from-show :
    (fuel n : ℕ) (rest : String)
    → n < fuel
    → digits_from 0 (str_append (digits_on_fuel fuel n) rest) ≡ digits_from n rest
unfolding digits_on_fuel
digits_from-show zero n rest h = absurd (omega arith)
digits_from-show (suc fuel) n rest h = elim (Bool-cases (ltb n 10)) [
  | inl e ↦
      let small : n < 10 = ground arith in
      rw e (digits_from-digit 0 n rest small ∙ ap (λ m. digits_from m rest) (omega arith))
  | inr e ↦
      let big : 10 ≤ n = ground arith in
      let last : n % 10 < 10 = omega arith in
      let higher : n / 10 < fuel = omega arith in
      rw e (
        ap (digits_from 0) (append_assoc (digits_on_fuel fuel (n / 10)) (digit (n % 10)) rest)
        ∙ digits_from-show fuel (n / 10) (str_append (digit (n % 10)) rest) higher
        ∙ digits_from-digit (n / 10) (n % 10) rest last
        ∙ ap (λ m. digits_from m rest) (omega arith))
]

digits_from-positive :
    (s : String) (n : ℕ)
    → digits_from 0 s ≡ some n
    → 0 < n
    → n < 2 ^ 63
    → parse_int s ≡ some (pos n)
unfolding parse_int
digits_from-positive String.[] n h p b = absurd (ground (arith, h))
digits_from-positive (String.◌∷◌ c s) n h p b =
    let numeral : is_digit (code c) ≡ true = ground (arith, h) in
    let minus : eqb (code c) b'-' ≡ false = ground (arith, numeral) in
    let plus : eqb (code c) b'+' ≡ false = ground (arith, numeral) in
    let fits : ltb n (2 ^ 63) ≡ true = ground (arith, b) in rw (minus, plus, h, fits) refl

-- A positive `int64` is read back from its text.
pub parse_int-show_ℤ : (n : ℕ) → 0 < n → n < 2 ^ 63 → parse_int (show_ℤ (pos n)) ≡ some (pos n)
unfolding show_ℤ
parse_int-show_ℤ n p b =
    digits_from-positive (show_ℕ n) n
      (ap (digits_from 0) (sym (append-nil (show_ℕ n)))
        ∙ digits_from-show (suc n) n "" (omega arith))
      p b
