-- ===== src/Models/OrderStatus.antt =====
-- The values of the column `status` of an order (internal/models/models.go).
use go_pay.Prelude.{String}

abbrev pub pending : String
pending = "pending"

abbrev pub paid : String
paid = "paid"

abbrev pub closed : String
closed = "closed"

abbrev pub refunded : String
refunded = "refunded"
