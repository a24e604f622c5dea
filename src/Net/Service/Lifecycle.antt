-- ===== src/Net/Service/Lifecycle.antt =====
-- net/session.go and net/session_packet_handler.go: the methods of a session that use its service,
-- on the session behind the pointer `i`; and Close of net/service.go.
use gcluster.Common.{
  ℕ, Bool, true, false, Option, none, some, List, [], ◌∷◌, ◌++◌, not, ◌&&◌, length, if◌then◌else◌,
}
use gcluster.Common.Int.{ℤ, pos, ◌-ℤ◌, ltb_ℤ, eqb_ℤ, wrap64}
use gcluster.Common.Bytes.{Bytes}
use gcluster.Common.Chan.{opened, close_chan}
use gcluster.Net.Const.{state_init, state_started, state_closed}
use gcluster.Net.Error.{Err}
use gcluster.Net.Config.{SessionConfig}
use gcluster.Net.Packet.{
  Packet, heartbeat_packet, close_req_packet, close_resp_packet, raw_packet, ping, pass, set_ping,
  set_pong, set_pass,
}
use gcluster.Net.PacketQueue.{PacketQueue}
use gcluster.Net.Ref.{Conn, SessionRef, local_session, remote_session}
use gcluster.Net.Session.{
  Session, same_state, lock_state, unlock_state, refresh_active_time, inactive, send_direct, send,
}
use gcluster.Net.Session
use gcluster.Net.Service.{
  Service, core_started, core_closed, listener_closed, bytes_handled, check_state, add_effect,
  session_at, put_session, compare_and_delete, on_session_closed, start_session_ticker,
  stop_session_ticker,
}

module _ {I : PacketQueue} where
  -- newSession: a new pointer, and the session behind it.
  unfoldable pub new_session : Bytes → Bool → Conn → Service I → Service I × ℕ
  new_session node_id active_end conn w =
      let s : Session I = record {
        remote_node_id = node_id;
        active_end = active_end;
        write_locked = false;
        state = state_init;
        ch_close = opened;
        core = some conn;
        pending = I.new_queue 512 w.cfg.session.pending_packet_queue_size;
        notify = false;
        wait_notify = false;
        tick_timer_id = 0;
        last_active_time = pos 0;
        last_heartbeat_time = pos 0;
      } in
      (record w { session_heap = w.session_heap ++ s ∷ [] }, length w.session_heap)

  -- What closeBaseLocked leaves of a session; a lock that the caller holds is given back.
  unfoldable pub closed_session : Bool → Session I → Session I
  closed_session locked s = record s {
    state = state_closed;
    write_locked = if locked then false else s.write_locked;
    ch_close = close_chan s.ch_close;
    core = none;
    pending = I.close_queue s.pending;
    tick_timer_id = 0;
  }

  -- `s.core.Close()`
  unfoldable pub close_core : Option Conn → Service I → Service I
  unfolding add_effect
  close_core none w = w
  close_core (some c) w = add_effect (core_closed c) w

  -- `s.core.Start()`
  unfoldable pub start_core : Option Conn → Service I → Service I
  unfolding add_effect
  start_core none w = w
  start_core (some c) w = add_effect (core_started c) w

  -- closeBaseLocked after the switch to the closed state, which only one caller makes.
  unfoldable pub close_open : Bool → ℕ → Session I → Service I → Service I
  unfolding closed_session close_core put_session stop_session_ticker on_session_closed
  close_open locked i s w = on_session_closed (remote_session i) (
      stop_session_ticker s.tick_timer_id
        (close_core s.core (put_session i (closed_session locked s) w)))

  -- closeBaseLocked; the error is only logged.
  unfoldable pub close_base_locked : Bool → ℕ → Service I → Service I
  unfolding session_at close_open
  close_base_locked locked i w = elim (session_at i w) [
    | none ↦ w
    | some s ↦ if same_state state_closed s.state then w else close_open locked i s w
  ]

  -- close
  unfoldable pub close_session : ℕ → Service I → Service I
  unfolding close_base_locked
  close_session i w = close_base_locked false i w

  -- What start does to the session between its lock and the start of its core.
  unfoldable pub started_session : ℤ → ℕ → Session I → Session I
  unfolding refresh_active_time
  started_session now tid s = record (refresh_active_time now s) {
    tick_timer_id = tid;
    state = state_started;
  }

  -- start, in which `tid` is the timer's id and `core_err` the error of core.Start.
  unfoldable pub start_session : ℤ → ℕ → Option Err → ℕ → Service I → Service I × Option Err
  unfolding session_at put_session start_core start_session_ticker started_session close_session
      Session.check_state
  start_session now tid core_err i w = elim (session_at i w) [
    | none ↦ (w, none)
    | some s ↦ elim (Session.check_state state_init s) [
      | some e ↦ (w, some e)
      | none ↦
          let (w1, id) = start_session_ticker tid s.remote_node_id w in
          let w2 = start_core s.core (put_session i (started_session now id s) w1) in
          elim core_err [ none ↦ (w2, none) | some e ↦ (close_session i w2, some e) ]
    ]
  ]

  -- tickActiveEnd; a failed send is only logged.
  unfoldable pub tick_active_end : SessionConfig → ℤ → Session I → Session I
  unfolding send_direct
  tick_active_end cfg now s =
      if ltb_ℤ (wrap64 (now -ℤ s.last_active_time)) cfg.heartbeat_timeout
      then record s { last_heartbeat_time = pos 0 }
      else if not (eqb_ℤ s.last_heartbeat_time (pos 0))
          && ltb_ℤ (wrap64 (now -ℤ s.last_heartbeat_time)) cfg.heartbeat_timeout
      then s
      else (send_direct (heartbeat_packet set_ping) false now
          (record s { last_heartbeat_time = now })).0

  -- tickPassiveEnd
  unfoldable pub tick_passive_end : SessionConfig → ℤ → Session I → Session I
  unfolding inactive send_direct
  tick_passive_end cfg now s =
      if not (inactive cfg now s) then s else (send_direct close_req_packet false now s).0

  -- tick
  unfoldable pub tick : SessionConfig → ℤ → Session I → Session I
  unfolding Session.check_state tick_active_end tick_passive_end
  tick cfg now s = elim (Session.check_state state_started s) [
    | some e ↦ s
    | none ↦ if s.active_end then tick_active_end cfg now s else tick_passive_end cfg now s
  ]

  -- sessionHandleHeartbeat
  unfoldable pub handle_heartbeat : ℕ → SessionConfig → ℤ → Session I → Session I
  unfolding ping send
  handle_heartbeat b cfg now s =
      if ping b then (send cfg (some (heartbeat_packet set_pong)) false now s).0 else s

  -- sessionHandleCloseReq
  unfoldable pub handle_close_req : ℤ → ℕ → Service I → Service I
  unfolding session_at put_session lock_state unlock_state inactive send_direct close_base_locked
      set_pass
  handle_close_req now i w = elim (session_at i w) [
    | none ↦ w
    | some s ↦
        let (s1, failed) = lock_state state_started s in
        elim failed [
          | some e ↦ w
          | none ↦
              if not (inactive w.cfg.session now s1)
              then put_session i
                  (unlock_state (send_direct (close_resp_packet (set_pass false)) false now s1).0) w
              else close_base_locked true i (put_session i s1 w)
        ]
  ]

  -- sessionHandleCloseResp
  unfoldable pub handle_close_resp : ℕ → ℕ → Service I → Service I
  unfolding pass close_session
  handle_close_resp b i w = if not (pass b) then w else close_session i w

  -- sessionHandleRaw; `answer` is what the session handler returns.
  unfoldable pub handle_raw : ℤ → Bytes → Option Err → ℕ → Service I → Service I × Option Err
  unfolding session_at put_session refresh_active_time add_effect
  handle_raw now bytes answer i w = elim (session_at i w) [
    | none ↦ (w, none)
    | some s ↦ (
      add_effect (bytes_handled (remote_session i) bytes)
          (put_session i (refresh_active_time now s) w),
      answer,
    )
  ]

  -- SessionOnPacket, through sessionPacketHandlers.
  unfoldable pub session_on_packet :
      ℤ → Option Err → Packet → ℕ → Service I → Service I × Option Err
  unfolding session_at put_session handle_heartbeat handle_close_req handle_close_resp handle_raw
  session_on_packet now answer (heartbeat_packet b) i w = elim (session_at i w) [
    | none ↦ (w, none)
    | some s ↦ (put_session i (handle_heartbeat b w.cfg.session now s) w, none)
  ]
  session_on_packet now answer close_req_packet i w = (handle_close_req now i w, none)
  session_on_packet now answer (close_resp_packet b) i w = (handle_close_resp b i w, none)
  session_on_packet now answer (raw_packet bytes) i w = handle_raw now bytes answer i w

  -- close of a pointer's session; sessionLocal does nothing.
  unfoldable pub close_ref : SessionRef → Service I → Service I
  unfolding close_session
  close_ref local_session w = w
  close_ref (remote_session i) w = close_session i w

  -- sessionMap.close: Range over the entries that the map has when it begins.
  unfoldable pub close_sessions : List (Bytes × SessionRef) → Service I → Service I
  close_sessions [] w = w
  close_sessions ((k, r) ∷ rest) w = close_sessions rest (compare_and_delete k r (close_ref r w))

  -- `if s.listener != nil { _ = s.listener.Close() }`
  unfoldable pub close_listener : Service I → Service I
  unfolding add_effect
  close_listener w = if w.listening then add_effect listener_closed w else w

  -- Close
  unfoldable pub close_service : Service I → Service I × Option Err
  unfolding check_state close_listener
  close_service w =
      let w1 =
        close_listener (record w { state = state_closed; c_closed = close_chan w.c_closed }) in
      elim (check_state state_started w) [
        | some e ↦ (w, some e)
        | none ↦ (close_sessions w1.sessions w1, none)
      ]
