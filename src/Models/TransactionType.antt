-- ===== src/Models/TransactionType.antt =====
-- The values of the column `type` of a transaction (internal/models/models.go).
use go_pay.Prelude.{String}

abbrev pub payment : String
payment = "payment"

abbrev pub refund : String
refund = "refund"
