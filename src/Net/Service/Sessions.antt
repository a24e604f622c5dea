-- ===== src/Net/Service/Sessions.antt =====
-- net/session.go and net/session_packet_handler.go: heartbeats, and the request to close a session
-- that is inactive.
use gcluster.Common.{
  ◌⊎◌, inl, inr, ℕ, ◌≡◌, ◌≢◌, refl, ◌∙◌, ap, Bool, true, false, some, arith, if◌then◌else◌,
}
use gcluster.Common.Int.{ℤ, pos, ◌-ℤ◌, ◌<ℤ◌, wrap64, ltb_ℤ_iff, eqb_ℤ_iff}
use gcluster.Net.Const.{state_started, state_closed}
use gcluster.Net.Config.{SessionConfig}
use gcluster.Net.Packet.{close_resp_packet, set_pass, heartbeat_packet, set_ping}
use gcluster.Net.PacketQueue.{PacketQueue}
use gcluster.Net.Session.{Session, lock_state, unlock_state, inactive, send_direct}
use gcluster.Net.Service.{Service, session_at, put_session}
use gcluster.Net.Service.Lifecycle.{
  closed_session, close_base_locked, close_session, close_open, tick_active_end, handle_close_req,
}
use gcluster.Net.Service.Heap.{session_at-put_session_self}
use gcluster.Net.Service.Closing.{close_session_opened, close_open_at, close_base_locked_closed}
use gcluster.Net.Service.Shutdown.{IsClosedAt, closing_closes}

module _ {I : PacketQueue} where
  locked_at :
      (i : ℕ) (s : Session I) (w : Service I)
      → session_at i w ≡ some s
      → session_at i (put_session i (record s { write_locked = true }) w)
        ≡ some (record s { write_locked = true })
  locked_at i s w h = session_at-put_session_self i (record s { write_locked = true }) s w h

  lock_state_of_started :
      (s : Session I)
      → s.state ≡ state_started
      → (lock_state state_started s).0 ≡ record s { write_locked = true }
  unfolding lock_state
  lock_state_of_started s st = ground arith

  -- What the closed session keeps of its lock.
  closed_lock :
      (locked : Bool) (s : Session I)
      → ((closed_session locked s).state ≡ state_closed)
        × ((closed_session locked s).write_locked ≡ (if locked then false else s.write_locked))
  unfolding closed_session
  closed_lock locked s = (refl, refl)

  -- The handler of a close request holds the write lock of a started session. Closing it then gives
  -- the lock back; but where another goroutine closes the session in between, closeBaseLocked
  -- returns at its first test and the lock is never given back.
  pub close_req_race :
      (i : ℕ) (s : Session I) (w : Service I)
      → session_at i w ≡ some s
      → s.state ≡ state_started
      → let locked = put_session i (lock_state state_started s).0 w in
        ((t : Session I) × (session_at i (close_base_locked true i locked) ≡ some t)
          × (t.state ≡ state_closed)
          × (t.write_locked ≡ false))
        × ((t : Session I) × (session_at i (close_base_locked true i (close_session i locked))
              ≡ some t)
            × (t.state ≡ state_closed)
            × (t.write_locked ≡ true))
  unfolding close_session
  close_req_race i s w h st =
      let held : Session I = record s { write_locked = true } in
      let wl = put_session i held w in
      let at : session_at i wl ≡ some held = locked_at i s w h in
      let alive : held.state ≢ state_closed = λ e. ground (arith, e, st) in
      let gone = closed_session false held in
      let (fine, freed) = closed_lock true held in
      let (shut, kept) = closed_lock false held in
      rw (lock_state_of_started s st) (
        (
          closed_session true held,
          ap (session_at i) (close_session_opened true i held wl at alive)
              ∙ close_open_at true i held wl at,
          fine,
          freed,
        ),
        (
          gone,
          ap (λ u. session_at i (close_base_locked true i u))
                (close_session_opened false i held wl at alive)
              ∙ ap (session_at i) (
                  close_base_locked_closed true i gone (close_open false i held wl)
                    (close_open_at false i held wl at) shut)
              ∙ close_open_at false i held wl at,
          shut,
          kept,
        ),
      )

  tick_spaced :
      (cfg : SessionConfig) (t u : ℤ) (r : Session I)
      → t ≢ pos 0
      → wrap64 (u -ℤ t) <ℤ cfg.heartbeat_timeout
      → r.last_heartbeat_time ≡ t
      → (tick_active_end cfg u r).pending ≡ r.pending
  unfolding tick_active_end
  tick_spaced cfg t u r nz near sent = ground (
    arith,
    eqb_ℤ_iff r.last_heartbeat_time (pos 0),
    ltb_ℤ_iff (wrap64 (u -ℤ t)) cfg.heartbeat_timeout,
  )

  -- What a tick does to the queue and to the time of the last heartbeat.
  tick_quiet_or_beat :
      (cfg : SessionConfig) (t : ℤ) (s : Session I)
      → ((tick_active_end cfg t s).pending ≡ s.pending)
        ⊎ (((tick_active_end cfg t s).pending ≡ (I.enqueue (heartbeat_packet set_ping) s.pending).0)
            × ((tick_active_end cfg t s).last_heartbeat_time ≡ t))
  unfolding tick_active_end send_direct
  tick_quiet_or_beat cfg t s = ground arith

  -- Of two ticks of an active session, the second less than one heartbeat timeout after the first,
  -- at most one gives a heartbeat to the queue: either the first leaves the queue as it is, or it
  -- gives a ping to the queue and the second leaves the queue as it is. The first tick is not at
  -- the time zero, which stands for no heartbeat.
  pub heartbeat_spacing :
      (cfg : SessionConfig) (t u : ℤ) (s : Session I)
      → t ≢ pos 0
      → wrap64 (u -ℤ t) <ℤ cfg.heartbeat_timeout
      → let s' = tick_active_end cfg t s in
        (s'.pending ≡ s.pending)
        ⊎ ((s'.pending ≡ (I.enqueue (heartbeat_packet set_ping) s.pending).0)
            × ((tick_active_end cfg u s').pending ≡ s'.pending))
  heartbeat_spacing cfg t u s nz near = elim (tick_quiet_or_beat cfg t s) [
    | inl quiet ↦ inl quiet
    | inr (beat, sent) ↦ inr (beat, tick_spaced cfg t u (tick_active_end cfg t s) nz near sent)
  ]

-- A tick of an active session on which something was sent or received within the heartbeat timeout
-- sends nothing, and forgets the last heartbeat.
pub tick_active_end_busy :
    {I : PacketQueue} (cfg : SessionConfig) (now : ℤ) (s : Session I)
    → wrap64 (now -ℤ s.last_active_time) <ℤ cfg.heartbeat_timeout
    → tick_active_end cfg now s ≡ record s { last_heartbeat_time = pos 0 }
unfolding tick_active_end
tick_active_end_busy cfg now s h =
    ground (arith, ltb_ℤ_iff (wrap64 (now -ℤ s.last_active_time)) cfg.heartbeat_timeout)

module _ {I : PacketQueue} where
  -- The answer to a close request that comes too early.
  abbrev pub refused : ℤ → Session I → Session I
  refused now s =
      unlock_state
        (send_direct (close_resp_packet (set_pass false)) false now
          (record s { write_locked = true })).0

  handle_close_req-refused :
      (now : ℤ) (i : ℕ) (s : Session I) (w : Service I)
      → session_at i w ≡ some s
      → s.state ≡ state_started
      → inactive w.cfg.session now s ≡ false
      → handle_close_req now i w ≡ put_session i (refused now s) w
  unfolding handle_close_req
  handle_close_req-refused now i s w h st busy = ground arith

  handle_close_req_accepted :
      (now : ℤ) (i : ℕ) (s : Session I) (w : Service I)
      → session_at i w ≡ some s
      → s.state ≡ state_started
      → inactive w.cfg.session now s ≡ true
      → handle_close_req now i w
        ≡ close_base_locked true i (put_session i (record s { write_locked = true }) w)
  unfolding handle_close_req
  handle_close_req_accepted now i s w h st idle = ground arith

  refused_keeps :
      (now : ℤ) (s : Session I)
      → ((refused now s).state ≡ s.state)
        × ((refused now s).write_locked ≡ false)
        × ((refused now s).last_active_time ≡ s.last_active_time)
        × ((refused now s).pending ≡ (I.enqueue (close_resp_packet 0) s.pending).0)
  unfolding unlock_state send_direct set_pass
  refused_keeps now s = ground arith

  -- A close request to a started session that is still active: the session stays started and
  -- unlocked, its time of last activity stays, and a refusal is given to the queue.
  pub close_req_of_active :
      (now : ℤ) (i : ℕ) (s : Session I) (w : Service I)
      → session_at i w ≡ some s
      → s.state ≡ state_started
      → inactive w.cfg.session now s ≡ false
      → (t : Session I) × (session_at i (handle_close_req now i w) ≡ some t)
        × (t.state ≡ state_started)
        × (t.write_locked ≡ false)
        × (t.last_active_time ≡ s.last_active_time)
        × (t.pending ≡ (I.enqueue (close_resp_packet 0) s.pending).0)
  close_req_of_active now i s w h st busy =
      let (same, free, time, queue) = refused_keeps now s in
      (
        refused now s,
        ap (session_at i) (handle_close_req-refused now i s w h st busy)
            ∙ session_at-put_session_self i (refused now s) s w h,
        same ∙ st,
        free,
        time,
        queue,
      )

  -- A close request to a started session that is inactive closes it.
  pub close_req_of_inactive :
      (now : ℤ) (i : ℕ) (s : Session I) (w : Service I)
      → session_at i w ≡ some s
      → s.state ≡ state_started
      → inactive w.cfg.session now s ≡ true
      → IsClosedAt i (handle_close_req now i w)
  close_req_of_inactive now i s w h st idle = rw (handle_close_req_accepted now i s w h st idle) (
      closing_closes true i (put_session i (record s { write_locked = true }) w)
        (record s { write_locked = true }, locked_at i s w h))
