-- ===== src/Net/Session.antt =====
-- net/session.go, the record session and the methods that touch nothing but it. The time of a call
-- of time.Now is an argument. The write lock of the session's mutex is a field, and its other
-- fields are read and written by one method at a time.
pub mod Send
pub mod Pending
pub mod Wakeup
use gcluster.Common.{
  ℕ, ◌-◌, ◌<◌, Bool, true, false, Option, none, some, not, ◌&&◌, ltb, length, ◌==◌, if◌then◌else◌,
}
use gcluster.Common.Int.{ℤ, pos, ◌-ℤ◌, ltb_ℤ, leb_ℤ, eqb_ℤ, wrap64}
use gcluster.Common.Bytes.{Bytes}
use gcluster.Common.Chan.{Chan, opened}
use gcluster.Net.Const.{LifeState, state_init, state_started, state_closed}
use gcluster.Net.Error.{
  Err, session_not_started, session_started, session_closed, packet_nil, packet_length_overflow,
  pending_packets_full,
}
use gcluster.Net.Config.{SessionConfig}
use gcluster.Net.Packet.{Packet, packet_data}
use gcluster.Net.PacketQueue.{PacketQueue}
use gcluster.Net.Ref.{Conn}

-- TimerIdNone
abbrev pub timer_id_none : ℕ
timer_id_none = 0

-- `core` is the gnet session over the connection, none for nil; `notify` is whether the buffered
-- channel pendingPacketsNotify holds its one signal.
pub record Session (I : PacketQueue) : Type 0 where
  pub remote_node_id : Bytes
  pub active_end : Bool
  pub write_locked : Bool
  pub state : LifeState
  pub ch_close : Chan
  pub core : Option Conn
  pub pending : I.Queue
  pub notify : Bool
  pub wait_notify : Bool
  pub tick_timer_id : ℕ
  pub last_active_time : ℤ
  pub last_heartbeat_time : ℤ

abbrev pub same_state : LifeState → LifeState → Bool
same_state state_init state_init = true
same_state state_started state_started = true
same_state state_closed state_closed = true
same_state _ _ = false

-- The error for a state that is not the one needed.
abbrev pub session_state_err : LifeState → Err
session_state_err state_init = session_not_started
session_state_err state_started = session_started
session_state_err state_closed = session_closed

module _ {I : PacketQueue} where
  unfoldable pub check_state : LifeState → Session I → Option Err
  check_state need s = if same_state need s.state then none else some (session_state_err s.state)

  -- lockState(need, false): the write lock is kept only if the state is the one needed.
  unfoldable pub lock_state : LifeState → Session I → Session I × Option Err
  unfolding check_state
  lock_state need s = elim (check_state need s) [
    | none ↦ (record s { write_locked = true }, none)
    | some e ↦ (s, some e)
  ]

  -- unlockState(false)
  unfoldable pub unlock_state : Session I → Session I
  unlock_state s = record s { write_locked = false }

  -- The loop ends by its first test or by a compare-and-swap that nothing disturbs.
  unfoldable pub refresh_active_time : ℤ → Session I → Session I
  refresh_active_time now s =
      if leb_ℤ now s.last_active_time then s else record s { last_active_time = now }

  unfoldable pub keep_active : ℤ → Session I → Session I × Option Err
  unfolding check_state refresh_active_time
  keep_active now s = elim (check_state state_started s) [
    | none ↦ (refresh_active_time now s, none)
    | some e ↦ (s, some e)
  ]

  unfoldable pub inactive : SessionConfig → ℤ → Session I → Bool
  inactive cfg now s = leb_ℤ cfg.inactive_timeout (wrap64 (now -ℤ s.last_active_time))

  -- The reader that waits is woken: `select { case notify <- struct{}{}: default: }`.
  abbrev pub wake : Session I → Session I
  wake s = if s.wait_notify then record s { notify = true } else s

  unfoldable pub send_direct : Packet → Bool → ℤ → Session I → Session I × Option Err
  unfolding refresh_active_time
  send_direct p refresh now s =
      let (q, stored) = I.enqueue p s.pending in
      let s' = record s { pending = q } in
      if stored
      then (wake (if refresh then refresh_active_time now s' else s'), none)
      else (s', some pending_packets_full)

  unfoldable pub send :
      SessionConfig → Option Packet → Bool → ℤ → Session I → Session I × Option Err
  unfolding check_state send_direct packet_data
  send cfg none refresh now s = (s, some packet_nil)
  send cfg (some p) refresh now s =
      let sent = send_direct p refresh now s in
      if ltb_ℤ cfg.max_packet_length (pos (length (packet_data p)))
      then (s, some packet_length_overflow)
      else elim (check_state state_started s) [ none ↦ sent | some e ↦ (s, some e) ]
