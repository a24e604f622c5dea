-- ===== src/Net/Error.antt =====
-- net/error.go. The sentinel errors of the package; what they wrap or what comes from code outside
-- the repository is `other` with a number that stands for the error value.
use Prim.Native.Nat.{ℕ}

pub data Err : Type 0 where
  service_not_started service_started service_closed : Err
  session_not_started session_started session_closed : Err
  inactive_closed packet_nil packet_length_overflow pending_packets_full : Err
  connect_remote request_handshake reply_handshake read_handshake_resp : Err
  handshake_rejected remote_id_or_token_wrong : Err
  active_handshake_earlier passive_handshake_earlier : Err
  -- establishEnd's fmt.Errorf("unknown end status, ...") with the two states
  unknown_end_status : ℕ → ℕ → Err
  -- an error value of the operating system, of gnet or of a handler
  other : ℕ → Err
