-- ===== src/Channel/RefundStatus.antt =====
-- The type `RefundStatus` of the channels (pkg/channel/interface.go).
use go_pay.Prelude.{String}

abbrev pub pending : String
pending = "PENDING"

abbrev pub success : String
success = "SUCCESS"

abbrev pub failed : String
failed = "FAILED"

abbrev pub processing : String
processing = "PROCESSING"
