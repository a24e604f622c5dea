-- ===== src/Net/Config.antt =====
-- SessionConfig (net/session.go), HandshakeConfig (net/handshake.go) and ServiceConfig
-- (net/service.go): the configuration and its checks. int and time.Duration are integers; a
-- function or interface value from outside is `none` for nil, or a number that stands for it.
pub mod Laws
use gcluster.Common.{
  ℕ, ◌^◌, ◌-◌, Bool, true, false, Option, none, some, List, [], ◌∷◌, Result, ok, err, ◌>>=◌, ◌>>◌,
  if◌then◌else◌,
}
use gcluster.Common.Int.{ℤ, pos, ltb_ℤ, leb_ℤ, div_ℤ}
use gcluster.Common.Bytes.{Bytes}

pub data ConfigErr : Type 0 where
  config_nil : ConfigErr
  max_packet_length_wrong read_buf_size_wrong write_buf_size_wrong : ConfigErr
  read_write_timeout_wrong tick_interval_wrong heartbeat_timeout_wrong : ConfigErr
  tick_not_below_heartbeat inactive_timeout_wrong : ConfigErr
  token_empty handshake_timeout_wrong : ConfigErr
  node_id_empty addr_empty dialer_nil listener_creator_nil timer_system_nil : ConfigErr
  session_handler_nil : ConfigErr

pub record SessionConfig : Type 0 where
  pub pending_packet_queue_size : ℤ
  pub max_packet_length : ℤ
  pub read_buf_size : ℤ
  pub write_buf_size : ℤ
  pub read_write_timeout : ℤ
  pub batch_write_limit : ℤ
  pub batch_write_time_lmit : ℤ
  pub tick_interval : ℤ
  pub heartbeat_timeout : ℤ
  pub inactive_timeout : ℤ

-- math.MaxInt32
abbrev pub max_int32 : ℕ
max_int32 = 2 ^ 31 - 1

-- time.Millisecond, in nanoseconds
abbrev pub millisecond : ℕ
millisecond = 1_000_000

-- `if v <= 0 { v = d }`
abbrev pub default_to : ℤ → ℤ → ℤ
default_to d v = if leb_ℤ v (pos 0) then d else v

-- `if test { return e }`
abbrev pub check : Bool → ConfigErr → Result ConfigErr (Unit {0})
check test e = if test then err e else ok tt

-- `if v <= 0 { v = d } else if v > d { return e }`
abbrev pub default_or_check : ℤ → ConfigErr → ℤ → Result ConfigErr ℤ
default_or_check d e v = if leb_ℤ v (pos 0) then ok d else if ltb_ℤ d v then err e else ok v

unfoldable pub init_session_config : Option SessionConfig → Result ConfigErr SessionConfig
init_session_config none = err config_nil
init_session_config (some c) = do
  check
      (if leb_ℤ c.max_packet_length (pos 0)
        then true
        else leb_ℤ (pos max_int32) c.max_packet_length)
      max_packet_length_wrong
  check (leb_ℤ c.read_buf_size (pos 0)) read_buf_size_wrong
  check (leb_ℤ c.write_buf_size (pos 0)) write_buf_size_wrong
  check (leb_ℤ c.read_write_timeout (pos 0)) read_write_timeout_wrong
  tick ← default_or_check (div_ℤ c.read_write_timeout 3) tick_interval_wrong c.tick_interval
  beat ← default_or_check (div_ℤ c.read_write_timeout 2) heartbeat_timeout_wrong c.heartbeat_timeout
  check (leb_ℤ beat tick) tick_not_below_heartbeat
  check (leb_ℤ c.inactive_timeout c.read_write_timeout) inactive_timeout_wrong
  ok (record c {
    pending_packet_queue_size = default_to (pos 100) c.pending_packet_queue_size;
    batch_write_limit = default_to (pos 10) c.batch_write_limit;
    batch_write_time_lmit = default_to (pos millisecond) c.batch_write_time_lmit;
    tick_interval = tick;
    heartbeat_timeout = beat;
  })

pub record HandshakeConfig : Type 0 where
  pub token : Bytes
  pub timeout : ℤ

abbrev pub is_empty : Bytes → Bool
is_empty [] = true
is_empty (_ ∷ _) = false

unfoldable pub init_handshake_config : Option HandshakeConfig → Result ConfigErr HandshakeConfig
init_handshake_config none = err config_nil
init_handshake_config (some c) = do
  check (is_empty c.token) token_empty
  check (leb_ℤ c.timeout (pos 0)) handshake_timeout_wrong
  ok c

pub record ServiceConfig : Type 0 where
  pub node_id : Bytes
  pub addr : Bytes
  pub handshake : HandshakeConfig
  pub session : SessionConfig
  pub dialer : Option ℕ
  pub listener_creator : Option ℕ
  pub timer_system : Option ℕ
  pub expected_concurrent_sessions : ℤ

-- Whether a function or interface value is nil.
abbrev pub is_nil {ℓ} : {A : Type ℓ} → Option A → Bool
is_nil none = true
is_nil (some _) = false

unfoldable pub init_service_config : Option ServiceConfig → Result ConfigErr ServiceConfig
unfolding init_session_config init_handshake_config
init_service_config none = err config_nil
init_service_config (some c) = do
  check (is_empty c.node_id) node_id_empty
  check (is_empty c.addr) addr_empty
  handshake ← init_handshake_config (some c.handshake)
  session ← init_session_config (some c.session)
  check (is_nil c.dialer) dialer_nil
  check (is_nil c.listener_creator) listener_creator_nil
  check (is_nil c.timer_system) timer_system_nil
  ok (record c {
    handshake = handshake;
    session = session;
    expected_concurrent_sessions = default_to (pos 10) c.expected_concurrent_sessions;
  })
