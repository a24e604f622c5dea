-- ===== src/Net/Config/Laws.antt =====
-- What the checks of a configuration accept, and what holds of what they return.
use gcluster.Common.{
  ◌≡◌, ◌≢◌, if◌then◌else◌, ◌⊎◌, Option, none, some, ok, sym, >>=-eq-ok, ok-injective, Bool, true,
  false, arith, [],
}
use gcluster.Common.Int.{
  ℤ, pos, ◌≤ℤ◌, ◌<ℤ◌, div_ℤ, leb_ℤ, leb_ℤ_iff, leb_ℤ_false, ltb_ℤ_false, lt→leb_ℤ_false,
  le→ltb_ℤ_false,
}
use gcluster.Common.Bytes.{Bytes}
use gcluster.Net.Config.{
  ConfigErr, SessionConfig, HandshakeConfig, ServiceConfig, init_session_config,
  init_handshake_config, init_service_config, max_int32, default_or_check, default_to, millisecond,
  check, tick_interval_wrong, heartbeat_timeout_wrong, is_empty, is_nil,
}

-- The limits that the documentation of the fields states.
pub record IsSessionConfig (c : SessionConfig) : Type 0 where
  pub queue_size : pos 0 <ℤ c.pending_packet_queue_size
  pub packet_length : pos 0 <ℤ c.max_packet_length
  pub packet_length_fits : c.max_packet_length <ℤ pos max_int32
  pub read_buf : pos 0 <ℤ c.read_buf_size
  pub write_buf : pos 0 <ℤ c.write_buf_size
  pub read_write : pos 0 <ℤ c.read_write_timeout
  pub batch_limit : pos 0 <ℤ c.batch_write_limit
  pub batch_time : pos 0 <ℤ c.batch_write_time_lmit
  pub tick_nonneg : pos 0 ≤ℤ c.tick_interval
  pub tick_default : (pos 0 <ℤ c.tick_interval) ⊎ (c.tick_interval ≡ div_ℤ c.read_write_timeout 3)
  pub tick_below_third : c.tick_interval ≤ℤ div_ℤ c.read_write_timeout 3
  pub heartbeat_below_half : c.heartbeat_timeout ≤ℤ div_ℤ c.read_write_timeout 2
  pub tick_below_heartbeat : c.tick_interval <ℤ c.heartbeat_timeout
  pub inactive : c.read_write_timeout <ℤ c.inactive_timeout

abbrev DefaultOrChecked : ℤ → ℤ → ℤ → Type 0
DefaultOrChecked d v r = ((v ≤ℤ pos 0) × (r ≡ d)) ⊎ ((pos 0 <ℤ v) × (v ≤ℤ d) × (r ≡ v))

default_or_check_ok :
    (d v r : ℤ) (e : ConfigErr) → default_or_check d e v ≡ ok r → DefaultOrChecked d v r
default_or_check_ok d v r e h =
    ground (arith, leb_ℤ_iff v (pos 0), leb_ℤ_false v (pos 0), ltb_ℤ_false d v)

default_to_pos : (d v : ℤ) → pos 0 <ℤ d → pos 0 <ℤ default_to d v
default_to_pos d v h = ground (arith, leb_ℤ_iff v (pos 0), leb_ℤ_false v (pos 0))

-- The tests that a checked configuration has passed, and what it has become.
record Passed (c d : SessionConfig) : Type 0 where
  tick : ℤ
  beat : ℤ
  packet :
      (if leb_ℤ c.max_packet_length (pos 0)
        then true
        else leb_ℤ (pos max_int32) c.max_packet_length)
      ≡ false
  read_buf : leb_ℤ c.read_buf_size (pos 0) ≡ false
  write_buf : leb_ℤ c.write_buf_size (pos 0) ≡ false
  timeout : leb_ℤ c.read_write_timeout (pos 0) ≡ false
  ticks :
      default_or_check (div_ℤ c.read_write_timeout 3) tick_interval_wrong c.tick_interval ≡ ok tick
  beats :
      default_or_check (div_ℤ c.read_write_timeout 2) heartbeat_timeout_wrong c.heartbeat_timeout
      ≡ ok beat
  below : leb_ℤ beat tick ≡ false
  inactive : leb_ℤ c.inactive_timeout c.read_write_timeout ≡ false
  result : d ≡ record c {
    pending_packet_queue_size = default_to (pos 100) c.pending_packet_queue_size;
    batch_write_limit = default_to (pos 10) c.batch_write_limit;
    batch_write_time_lmit = default_to (pos millisecond) c.batch_write_time_lmit;
    tick_interval = tick;
    heartbeat_timeout = beat;
  }

check_ok : (t : Bool) (e : ConfigErr) {u : Unit {0}} → check t e ≡ ok u → t ≡ false
check_ok t e h = ground arith

passes : (c : SessionConfig) {d : SessionConfig} → init_session_config (some c) ≡ ok d → Passed c d
unfolding init_session_config
passes c {d} h =
    let (_, a, h1) = >>=-eq-ok _ _ h in
    let (_, b, h2) = >>=-eq-ok _ _ h1 in
    let (_, w, h3) = >>=-eq-ok _ _ h2 in
    let (_, t, h4) = >>=-eq-ok _ _ h3 in
    let (tick, ticks, h5) = >>=-eq-ok _ _ h4 in
    let (beat, beats, h6) = >>=-eq-ok _ _ h5 in
    let (_, below, h7) = >>=-eq-ok _ _ h6 in
    let (_, inactive, h8) = >>=-eq-ok _ _ h7 in
    record {
      tick = tick;
      beat = beat;
      packet = check_ok _ _ a;
      read_buf = check_ok _ _ b;
      write_buf = check_ok _ _ w;
      timeout = check_ok _ _ t;
      ticks = ticks;
      beats = beats;
      below = check_ok _ _ below;
      inactive = check_ok _ _ inactive;
      result = ok-injective (sym h8);
    }

-- A session configuration that the check accepts keeps every documented limit, with the defaults
-- filled in: tick <= timeout/3, heartbeat <= timeout/2, tick < heartbeat and inactive > timeout.
pub init_session_config-IsSessionConfig :
    (c : SessionConfig) {d : SessionConfig}
    → init_session_config (some c) ≡ ok d
    → IsSessionConfig d
init_session_config-IsSessionConfig c {d} h =
    let p = passes c h in
    let tick = default_or_check_ok _ _ _ _ p.ticks in
    let beat = default_or_check_ok _ _ _ _ p.beats in
    let below = leb_ℤ_false _ _ p.below in
    let timeout = leb_ℤ_false _ _ p.timeout in
    rw p.result (record {
      queue_size = default_to_pos (pos 100) _ (omega arith);
      packet_length = leb_ℤ_false c.max_packet_length (pos 0) (ground (arith, p.packet));
      packet_length_fits =
          leb_ℤ_false (pos max_int32) c.max_packet_length (ground (arith, p.packet));
      read_buf = leb_ℤ_false _ _ p.read_buf;
      write_buf = leb_ℤ_false _ _ p.write_buf;
      read_write = timeout;
      batch_limit = default_to_pos (pos 10) _ (omega arith);
      batch_time = default_to_pos (pos millisecond) _ (omega arith);
      tick_nonneg = ground (arith, tick, timeout);
      tick_default = ground (arith, tick, timeout);
      tick_below_third = ground (arith, tick, timeout);
      heartbeat_below_half = ground (arith, beat, timeout);
      tick_below_heartbeat = below;
      inactive = leb_ℤ_false _ _ p.inactive;
    })

default_or_check_again :
    (d v : ℤ) (e : ConfigErr) → v ≤ℤ d → (v ≤ℤ pos 0 → v ≡ d) → default_or_check d e v ≡ ok v
default_or_check_again d v e h z = ground (arith, leb_ℤ_iff v (pos 0), le→ltb_ℤ_false d v)

default_to_again : (d v : ℤ) → pos 0 <ℤ v → default_to d v ≡ v
default_to_again d v h = rw (lt→leb_ℤ_false v (pos 0) h)

-- A configuration that keeps the limits is accepted as it is; so checking an accepted one again
-- changes nothing.
pub init_session_config_again :
    (c : SessionConfig) → IsSessionConfig c → init_session_config (some c) ≡ ok c
unfolding init_session_config
init_session_config_again c v = rw (
  lt→leb_ℤ_false c.max_packet_length (pos 0) v.packet_length,
  lt→leb_ℤ_false (pos max_int32) c.max_packet_length v.packet_length_fits,
  lt→leb_ℤ_false c.read_buf_size (pos 0) v.read_buf,
  lt→leb_ℤ_false c.write_buf_size (pos 0) v.write_buf,
  lt→leb_ℤ_false c.read_write_timeout (pos 0) v.read_write,
  default_or_check_again (div_ℤ c.read_write_timeout 3) c.tick_interval tick_interval_wrong
      v.tick_below_third (λ h. ground (arith, h, v.tick_default)),
  default_or_check_again (div_ℤ c.read_write_timeout 2) c.heartbeat_timeout heartbeat_timeout_wrong
      v.heartbeat_below_half (λ h. absurd (omega (arith, v.tick_below_heartbeat, v.tick_nonneg))),
  lt→leb_ℤ_false c.heartbeat_timeout c.tick_interval v.tick_below_heartbeat,
  lt→leb_ℤ_false c.inactive_timeout c.read_write_timeout v.inactive,
  lt→leb_ℤ_false c.pending_packet_queue_size (pos 0) v.queue_size,
  lt→leb_ℤ_false c.batch_write_limit (pos 0) v.batch_limit,
  lt→leb_ℤ_false c.batch_write_time_lmit (pos 0) v.batch_time,
)

is_empty-false : (b : Bytes) → is_empty b ≡ false → b ≢ []
is_empty-false b h = ground arith

is_nil-false {ℓ} : {A : Type ℓ} (o : Option A) → is_nil o ≡ false → o ≢ none
is_nil-false o h = ground arith

init_handshake_config-IsHandshakeConfig :
    (c : HandshakeConfig) {d : HandshakeConfig}
    → init_handshake_config (some c) ≡ ok d
    → (d.token ≢ []) × (pos 0 <ℤ d.timeout)
unfolding init_handshake_config
init_handshake_config-IsHandshakeConfig c h = ground (arith, leb_ℤ_false c.timeout (pos 0))

pub record IsServiceConfig (c : ServiceConfig) : Type 0 where
  pub node_named : c.node_id ≢ []
  pub addressed : c.addr ≢ []
  pub token_set : c.handshake.token ≢ []
  pub handshake_timeout : pos 0 <ℤ c.handshake.timeout
  pub session_limits : IsSessionConfig c.session
  pub dials : c.dialer ≢ none
  pub listens : c.listener_creator ≢ none
  pub times : c.timer_system ≢ none
  pub room : pos 0 <ℤ c.expected_concurrent_sessions

-- A service configuration that the check accepts names its node and address, has a token, a
-- positive handshake timeout, a session configuration within the limits, all three collaborators
-- and room for at least one session.
pub init_service_config-IsServiceConfig :
    (c : ServiceConfig) {d : ServiceConfig}
    → init_service_config (some c) ≡ ok d
    → IsServiceConfig d
unfolding init_service_config
init_service_config-IsServiceConfig c {d} h =
    let (_, n, h1) = >>=-eq-ok _ _ h in
    let (_, a, h2) = >>=-eq-ok _ _ h1 in
    let (hs, handshake, h3) = >>=-eq-ok _ _ h2 in
    let (se, session, h4) = >>=-eq-ok _ _ h3 in
    let (_, di, h5) = >>=-eq-ok _ _ h4 in
    let (_, li, h6) = >>=-eq-ok _ _ h5 in
    let (_, ti, h7) = >>=-eq-ok _ _ h6 in
    let handshaken = init_handshake_config-IsHandshakeConfig c.handshake handshake in
    let e : d ≡ record c {
      handshake = hs;
      session = se;
      expected_concurrent_sessions = default_to (pos 10) c.expected_concurrent_sessions;
    } =
      ok-injective (sym h7) in
    rw e (record {
      node_named = is_empty-false _ (check_ok _ _ n);
      addressed = is_empty-false _ (check_ok _ _ a);
      token_set = handshaken.0;
      handshake_timeout = handshaken.1;
      session_limits = init_session_config-IsSessionConfig c.session session;
      dials = is_nil-false _ (check_ok _ _ di);
      listens = is_nil-false _ (check_ok _ _ li);
      times = is_nil-false _ (check_ok _ _ ti);
      room = default_to_pos (pos 10) _ (omega arith);
    })
