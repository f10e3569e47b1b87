-- ===== src/Channel/ChannelStatus.antt =====
-- The type `OrderStatus` of the channels, in capitals (pkg/channel/interface.go).
use go_pay.Prelude.{String}

abbrev pub pending : String
pending = "PENDING"

abbrev pub paid : String
paid = "PAID"

abbrev pub closed : String
closed = "CLOSED"

abbrev pub refund : String
refund = "REFUND"
