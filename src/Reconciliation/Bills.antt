-- ===== src/Reconciliation/Bills.antt =====
-- `parseBill` of internal/reconciliation/wechat.go and alipay.go. The reads of `csv.Reader` up to
-- `io.EOF` are a list, and the amount in cents of a text (`fmt.Sscanf`, and a product in floating
-- point that is cut to an int64) is a function; both are arguments.
use go_pay.Prelude.{
  ℕ, zero, suc, String, Option, none, some, List, [], ◌∷◌, length, ltb, if◌then◌else◌,
}
use go_pay.Prelude.Int.{ℤ}
use go_pay.Errors.{Result, ok, err}
use go_pay.Reconciliation.{BillRecord, Call, returned, panicked, ◌>>=◌}

abbrev pub Row : Type 0
Row = List String

abbrev pub Reads : Type 0
Reads = List (Result Row)

-- `row[i]`
abbrev pub index : {B : Type 0} → Row → ℕ → (String → Call B) → Call B
index [] i k = panicked
index (x ∷ xs) zero k = k x
index (x ∷ xs) (suc i) k = index xs i k

module _ (parse_amount : String → ℤ) where
  unfoldable pub wechat_record : Row → Call BillRecord
  wechat_record row = index row 5 (λ transaction_id. index row 6 (λ order_no.
      index row 12 (λ amount. index row 9 (λ status. returned (
        ok (record {
          transaction_id = transaction_id;
          order_no = order_no;
          amount = parse_amount amount;
          status = status;
          channel = "wechat";
        }))))))

  unfoldable pub alipay_record : Row → Call BillRecord
  alipay_record row = index row 0 (λ transaction_id. index row 1 (λ order_no. index row 9 (λ amount.
      index row 11 (λ status. returned (
        ok (record {
          transaction_id = transaction_id;
          order_no = order_no;
          amount = parse_amount amount;
          status = status;
          channel = "alipay";
        }))))))

-- The rows up to the end of the bill; those shorter than `fields` are passed over.
unfoldable pub parse_rows : ℕ → (Row → Call BillRecord) → Reads → Call (List BillRecord)
parse_rows fields to_record [] = returned (ok [])
parse_rows fields to_record (err e ∷ reads) = returned (err e)
parse_rows fields to_record (ok row ∷ reads) =
    let rest = parse_rows fields to_record reads in
    if ltb (length row) fields
    then rest
    else to_record row >>= λ r. rest >>= λ rs. returned (ok (r ∷ rs))

-- `data` is empty, or its reads. A bill without a header is an error, `io.EOF`.
unfoldable pub parse_wechat_bill : (String → ℤ) → Option Reads → Call (List BillRecord)
unfolding parse_rows wechat_record
parse_wechat_bill parse_amount none = returned (ok [])
parse_wechat_bill parse_amount (some []) = returned (err (go_pay.Errors.plain "EOF"))
parse_wechat_bill parse_amount (some (err e ∷ reads)) = returned (err e)
parse_wechat_bill parse_amount (some (ok header ∷ reads)) =
    parse_rows 8 (wechat_record parse_amount) reads

-- What stands after the first `n` lines; none where the bill ends before.
abbrev pub skip_lines : ℕ → Reads → Result (Option Reads)
skip_lines zero reads = ok (some reads)
skip_lines (suc n) [] = ok none
skip_lines (suc n) (err e ∷ reads) = err e
skip_lines (suc n) (ok row ∷ reads) = skip_lines n reads

unfoldable pub parse_alipay_bill : (String → ℤ) → Option Reads → Call (List BillRecord)
unfolding parse_rows alipay_record
parse_alipay_bill parse_amount none = returned (ok [])
parse_alipay_bill parse_amount (some reads) = elim (skip_lines 6 reads) [
  | err e ↦ returned (err e)
  | ok none ↦ returned (ok [])
  | ok (some rows) ↦ parse_rows 12 (alipay_record parse_amount) rows
]
