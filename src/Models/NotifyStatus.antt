-- ===== src/Models/NotifyStatus.antt =====
-- The values of the column `notify_status` of an order (internal/models/models.go).
use go_pay.Prelude.{String}

abbrev pub pending : String
pending = "pending"

abbrev pub notified : String
notified = "notified"

abbrev pub failed_notify : String
failed_notify = "failed_notify"
