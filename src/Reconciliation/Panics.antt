-- ===== src/Reconciliation/Panics.antt =====
-- The index expressions of `parseBill` in internal/reconciliation/wechat.go and alipay.go.
use go_pay.Prelude.{
  ℕ, zero, suc, ◌-◌, ◌≤◌, ◌≡◌, refl, ◌∙◌, String, true, false, Option, none, some, List, [], ◌∷◌,
  All, length, ltb, arith, ◌<◌, sym, ap, ◌↔◌, Bool-cases, ◌⊎◌, inl, inr,
}
use go_pay.Prelude.Int.{ℤ}
use go_pay.Errors.{Result, ok, err, Result-cases}
use go_pay.Reconciliation.{BillRecord, Call, returned, panicked, ◌>>=◌}
use go_pay.Reconciliation.Bills.{
  Row, Reads, index, wechat_record, alipay_record, parse_rows, parse_wechat_bill, parse_alipay_bill,
  skip_lines,
}

index_in :
    {B : Type 0} (row : Row) (i n : ℕ) (k : String → Call B)
    → n ≤ length row
    → ltb i n ≡ true
    → (x : String) × (index row i k ≡ k x)
index_in [] i n k h l = absurd (ground (arith, h, l))
index_in (x ∷ xs) zero n k h l = (x, refl)
index_in (x ∷ xs) (suc i) n k h l =
    index_in xs i (n - 1) k (ground (arith, h, l)) (ground (arith, h, l))

-- A row of at least `n` fields.
abbrev pub IsWide : ℕ → Result Row → Type 0
IsWide n (err e) = Unit
IsWide n (ok row) = n ≤ length row

wechat_record-wide :
    (parse_amount : String → ℤ) (row : Row)
    → 13 ≤ length row
    → (r : BillRecord) × (wechat_record parse_amount row ≡ returned (ok r))
unfolding wechat_record
wechat_record-wide parse_amount row h =
    let (a, pa) = index_in row 5 13 _ h refl in
    let (b, pb) = index_in row 6 13 _ h refl in
    let (c, pc) = index_in row 12 13 _ h refl in
    let (d, pd) = index_in row 9 13 _ h refl in (_, pa ∙ pb ∙ pc ∙ pd)

alipay_record-wide :
    (parse_amount : String → ℤ) (row : Row)
    → 12 ≤ length row
    → (r : BillRecord) × (alipay_record parse_amount row ≡ returned (ok r))
unfolding alipay_record
alipay_record-wide parse_amount row h =
    let (a, pa) = index_in row 0 12 _ h refl in
    let (b, pb) = index_in row 1 12 _ h refl in
    let (c, pc) = index_in row 9 12 _ h refl in
    let (d, pd) = index_in row 11 12 _ h refl in (_, pa ∙ pb ∙ pc ∙ pd)

cons-panicked :
    (r : BillRecord) (c : Call (List BillRecord))
    → (c >>= λ rs. returned (ok (r ∷ rs))) ≡ panicked
    → c ≡ panicked
cons-panicked r (returned (ok rs)) h = absurd (ground (arith, h))
cons-panicked r (returned (err e)) h = absurd (ground (arith, h))
cons-panicked r panicked h = refl

parse_rows-safe :
    (fields n : ℕ) (to_record : Row → Call BillRecord)
    → ((row : Row) → n ≤ length row → (r : BillRecord) × (to_record row ≡ returned (ok r)))
    → (reads : Reads) → All (IsWide n) reads ⊎ (n ≤ fields)
    → ¬ (parse_rows fields to_record reads ≡ panicked)
unfolding parse_rows
parse_rows-safe fields n to_record safe [] w h = absurd (ground (arith, h))
parse_rows-safe fields n to_record safe (err e ∷ reads) w h = absurd (ground (arith, h))
parse_rows-safe fields n to_record safe (ok row ∷ reads) w h =
    let later = parse_rows-safe fields n to_record safe reads (tail w) in
    elim (Bool-cases (ltb (length row) fields)) [
      | inl e ↦ later (ground (arith, e, h))
      | inr e ↦
          let (r, k) = safe row (wide w e) in
          later (cons-panicked r (parse_rows fields to_record reads) (ground (arith, e, k, h)))
    ]
  where
    tail : All (IsWide n) (ok row ∷ reads) ⊎ (n ≤ fields) → All (IsWide n) reads ⊎ (n ≤ fields)
    tail (inl a) = inl a.1
    tail (inr b) = inr b

    wide :
        All (IsWide n) (ok row ∷ reads) ⊎ (n ≤ fields)
        → ltb (length row) fields ≡ false
        → n ≤ length row
    wide (inl a) e = a.0
    wide (inr b) e = ground (arith, b, e)

-- No bill makes the parser of Alipay's bills panic.
pub parse_alipay_bill-safe :
    (parse_amount : String → ℤ) (bill : Option Reads)
    → ¬ (parse_alipay_bill parse_amount bill ≡ panicked)
unfolding parse_alipay_bill
parse_alipay_bill-safe parse_amount none h = absurd (ground (arith, h))
parse_alipay_bill-safe parse_amount (some reads) h = elim (Result-cases (skip_lines 6 reads)) [
  | inl (e, k) ↦ absurd (ground (arith, h, k))
  | inr (none, k) ↦ absurd (ground (arith, h, k))
  | inr (some rows, k) ↦
      parse_rows-safe 12 12 (alipay_record parse_amount) (alipay_record-wide parse_amount) rows
        (inr (omega arith)) (ground (arith, h, k))
]

index_out :
    {B : Type 0} (row : Row) (i : ℕ) (k : String → Call B)
    → length row ≤ i
    → index row i k ≡ panicked
index_out [] i k h = refl
index_out (x ∷ xs) zero k h = absurd (omega arith)
index_out (x ∷ xs) (suc i) k h = index_out xs i k (omega arith)

wechat_record-narrow :
    (parse_amount : String → ℤ) (row : Row)
    → 8 ≤ length row
    → length row ≤ 12
    → wechat_record parse_amount row ≡ panicked
unfolding wechat_record
wechat_record-narrow parse_amount row h k =
    let (a, pa) = index_in row 5 8 _ h refl in
    let (b, pb) = index_in row 6 8 _ h refl in pa ∙ pb ∙ index_out row 12 _ k

-- Before the first read that fails, a row has from 8 to 12 fields.
abbrev pub Overruns : Reads → Type 0
Overruns [] = ⊥
Overruns (err e ∷ reads) = ⊥
Overruns (ok row ∷ reads) = ((8 ≤ length row) × (length row ≤ 12)) ⊎ Overruns reads

module _ (parse_amount : String → ℤ) where
  abbrev rows_of : Reads → Call (List BillRecord)
  rows_of = parse_rows 8 (wechat_record parse_amount)

  -- A row that is passed over, one that makes the parser panic, or one that is read.
  row-cases :
      (row : Row) (reads : Reads)
      → ((length row < 8) × (rows_of (ok row ∷ reads) ≡ rows_of reads))
        ⊎ ((8 ≤ length row) × (length row ≤ 12) × (rows_of (ok row ∷ reads) ≡ panicked))
        ⊎ ((r : BillRecord) × (12 < length row)
            × (rows_of (ok row ∷ reads) ≡ (rows_of reads >>= λ rs. returned (ok (r ∷ rs)))))
  unfolding parse_rows
  row-cases row reads = elim (Bool-cases (ltb (length row) 8)) [
    | inl e ↦ inl (ground (arith, e), ground (arith, e))
    | inr e ↦ elim (Bool-cases (ltb 12 (length row))) [
      | inl f ↦
          let (r, k) = wechat_record-wide parse_amount row (ground (arith, f)) in
          inr (inr (r, ground (arith, f), ground (arith, e, k)))
      | inr f ↦
          let k = wechat_record-narrow parse_amount row (ground (arith, e)) (ground (arith, f)) in
          inr (inl (ground (arith, e), ground (arith, f), ground (arith, e, k)))
    ]
  ]

  rows-panic : (reads : Reads) → rows_of reads ≡ panicked → Overruns reads
  unfolding parse_rows
  rows-panic [] h = absurd (ground (arith, h))
  rows-panic (err e ∷ reads) h = absurd (ground (arith, h))
  rows-panic (ok row ∷ reads) h = elim (row-cases row reads) [
    | inl (short, same) ↦ inr (rows-panic reads (sym same ∙ h))
    | inr (inl (low, high, out)) ↦ inl (low, high)
    | inr (inr (r, wide, same)) ↦
        inr (rows-panic reads (cons-panicked r (rows_of reads) (sym same ∙ h)))
  ]

  rows-overrun : (reads : Reads) → Overruns reads → rows_of reads ≡ panicked
  unfolding parse_rows
  rows-overrun [] h = absurd h
  rows-overrun (err e ∷ reads) h = absurd h
  rows-overrun (ok row ∷ reads) h = elim (row-cases row reads) [
    | inl (short, same) ↦ elim h [
      | inl (low, high) ↦ absurd (omega arith)
      | inr later ↦ same ∙ rows-overrun reads later
    ]
    | inr (inl (low, high, out)) ↦ out
    | inr (inr (r, wide, same)) ↦ elim h [
      | inl (low, high) ↦ absurd (omega arith)
      | inr later ↦ same ∙ ap (λ c. c >>= λ rs. returned (ok (r ∷ rs))) (rows-overrun reads later)
    ]
  ]

  -- The parser of WeChat's bills panics on a bill with a header just where a row before the first
  -- read that fails has at least 8 and at most 12 fields.
  pub parse_wechat_bill-panics :
      (header : Row) (reads : Reads)
      → (parse_wechat_bill parse_amount (some (ok header ∷ reads)) ≡ panicked) ↔ Overruns reads
  unfolding parse_wechat_bill
  parse_wechat_bill-panics header reads = (rows-panic reads, rows-overrun reads)
