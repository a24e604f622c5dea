-- ===== src/Net/Message.antt =====
-- The messages of net/internal/protocol/protos/protos.proto, as the handshake code reads them.
use gcluster.Common.Int.{ℤ}
use gcluster.Common.Bytes.{Bytes}

-- HSRejectedReason
pub data Reason : Type 0 where
  node_id_or_token_wrong session_establishing session_established : Reason

-- HSApply, HSAccepted, HSRejected, HSCompleted and HSCompletedAck.
pub data Message : Type 0 where
  apply : Bytes → Bytes → ℤ → Message
  accepted : Bytes → Bytes → Message
  rejected : Reason → Message
  completed completed_ack : Message
