-- ===== src/Net/Service/Timers.antt =====
-- net/service.go, stopSessionTicker: which closes of a session stop its timer.
use gcluster.Common.{
  ℕ, ◌≡◌, ◌≢◌, refl, ◌∙◌, ap, Bool, false, Option, none, some, List, [], ◌∷◌, arith, Option-cases,
  Bool-cases, inl, inr,
}
use gcluster.Common.Bytes.{Bytes}
use gcluster.Net.Const.{state_started, state_closed}
use gcluster.Net.PacketQueue.{PacketQueue}
use gcluster.Net.Ref.{Conn, SessionRef, local_session, remote_session}
use gcluster.Net.Session.{Session, same_state}
use gcluster.Net.Service.{
  Service, Effect, conn_closed, core_started, core_closed, timer_started, timer_stopped,
  listener_created, listener_closed, bytes_handled, session_at, put_session, stop_session_ticker,
}
use gcluster.Net.Service.Lifecycle.{
  close_core, closed_session, close_open, close_base_locked, close_session, close_ref,
  close_sessions, close_listener, close_service,
}
use gcluster.Net.Service.Heap.{
  close_core-SameHeap, compare_and_delete-SameHeap, on_session_closed-SameHeap,
}
use gcluster.Net.Service.Closing.{
  close_open-SameHeap, close_base_locked_closed, close_session_dangling, close_session_opened,
}
use gcluster.Net.Service.Entries.{closed_entry}
use gcluster.Net.Service.Shutdown.{closing, close_service_started}

-- The calls on the timer system, the latest first.
abbrev pub timer_calls : List Effect → List Effect
timer_calls [] = []
timer_calls (timer_started tid d n ∷ es) = timer_started tid d n ∷ timer_calls es
timer_calls (timer_stopped tid ∷ es) = timer_stopped tid ∷ timer_calls es
timer_calls (conn_closed _ ∷ es) = timer_calls es
timer_calls (core_started _ ∷ es) = timer_calls es
timer_calls (core_closed _ ∷ es) = timer_calls es
timer_calls (listener_created ∷ es) = timer_calls es
timer_calls (listener_closed ∷ es) = timer_calls es
timer_calls (bytes_handled _ _ ∷ es) = timer_calls es

module _ {I : PacketQueue} where
  close_core_timers :
      (c : Option Conn) (w : Service I)
      → timer_calls (close_core c w).effects ≡ timer_calls w.effects
  unfolding close_core
  close_core_timers none w = refl
  close_core_timers (some c) w = refl

  -- The session's timer is stopped in a service that is started, and in no other.
  stop_session_ticker_started :
      (tid : ℕ) (w : Service I)
      → w.state ≡ state_started
      → (stop_session_ticker tid w).effects ≡ timer_stopped tid ∷ w.effects
  unfolding stop_session_ticker
  stop_session_ticker_started tid w h = ground arith

  stop_session_ticker_closed :
      (tid : ℕ) (w : Service I) → w.state ≡ state_closed → stop_session_ticker tid w ≡ w
  unfolding stop_session_ticker
  stop_session_ticker_closed tid w h = ground arith

  -- The service in which close_open stops the timer.
  abbrev core_stopped : Bool → ℕ → Session I → Service I → Service I
  core_stopped locked i s w = close_core s.core (put_session i (closed_session locked s) w)

  core_stopped_keeps :
      (locked : Bool) (i : ℕ) (s : Session I) (w : Service I)
      → ((core_stopped locked i s w).state ≡ w.state)
        × (timer_calls (core_stopped locked i s w).effects ≡ timer_calls w.effects)
  unfolding put_session
  core_stopped_keeps locked i s w =
      let w0 = put_session i (closed_session locked s) w in
      ground (arith, close_core-SameHeap s.core w0, close_core_timers s.core w0)

  close_open_effects :
      (locked : Bool) (i : ℕ) (s : Session I) (w : Service I)
      → (close_open locked i s w).effects
        ≡ (stop_session_ticker s.tick_timer_id (core_stopped locked i s w)).effects
  unfolding close_open
  close_open_effects locked i s w =
      (on_session_closed-SameHeap (remote_session i)
        (stop_session_ticker s.tick_timer_id (core_stopped locked i s w))).1

  -- Closing an open session of a started service stops its timer, once.
  pub close_session_stops_timer :
      (i : ℕ) (s : Session I) (w : Service I)
      → session_at i w ≡ some s
      → s.state ≢ state_closed
      → w.state ≡ state_started
      → timer_calls (close_session i w).effects
        ≡ timer_stopped s.tick_timer_id ∷ timer_calls w.effects
  unfolding close_session
  close_session_stops_timer i s w h o st =
      let (same, calls) = core_stopped_keeps false i s w in
      ap (λ u. timer_calls u.effects) (close_session_opened false i s w h o)
      ∙ ap timer_calls (close_open_effects false i s w)
      ∙ ap timer_calls
          (stop_session_ticker_started s.tick_timer_id (core_stopped false i s w) (same ∙ st))
      ∙ ap (λ l. timer_stopped s.tick_timer_id ∷ l) calls

  close_open_timers :
      (locked : Bool) (i : ℕ) (s : Session I) (w : Service I)
      → w.state ≡ state_closed
      → timer_calls (close_open locked i s w).effects ≡ timer_calls w.effects
  close_open_timers locked i s w st =
      let (same, calls) = core_stopped_keeps locked i s w in
      ap timer_calls (close_open_effects locked i s w)
      ∙ ap (λ u. timer_calls u.effects)
          (stop_session_ticker_closed s.tick_timer_id (core_stopped locked i s w) (same ∙ st))
      ∙ calls

  -- A step after which the timers run as before and the service is still closed.
  abbrev Leaks : Service I → Service I → Type 0
  Leaks w w' = (timer_calls w'.effects ≡ timer_calls w.effects) × (w'.state ≡ state_closed)

  closing_timers :
      (locked : Bool) (i : ℕ) (w : Service I)
      → w.state ≡ state_closed
      → Leaks w (close_base_locked locked i w)
  closing_timers locked i w st = elim (Option-cases (session_at i w)) [
    | inl e ↦ rw (close_session_dangling locked i w e) (refl, st)
    | inr (s, e) ↦ elim (Bool-cases (same_state state_closed s.state)) [
      | inl c ↦ rw (close_base_locked_closed locked i s w e (ground arith)) (refl, st)
      | inr o ↦
          rw (close_session_opened locked i s w e (ground arith))
            (close_open_timers locked i s w st, (close_open-SameHeap locked i s w).2 ∙ st)
    ]
  ]

  close_ref_timers :
      (r : SessionRef) (w : Service I) → w.state ≡ state_closed → Leaks w (close_ref r w)
  unfolding close_ref
  close_ref_timers local_session w st = (refl, st)
  close_ref_timers (remote_session i) w st = closing_timers false i w st

  close_sessions_timers :
      (l : List (Bytes × SessionRef)) (w : Service I)
      → w.state ≡ state_closed
      → timer_calls (close_sessions l w).effects ≡ timer_calls w.effects
  unfolding close_sessions
  close_sessions_timers [] w st = refl
  close_sessions_timers ((k, r) ∷ l) w st =
      let (calls, st1) = close_ref_timers r w st in
      let (same, kept) = compare_and_delete-SameHeap k r (close_ref r w) in
      close_sessions_timers l (closed_entry k r w) (same.2 ∙ st1) ∙ ap timer_calls kept ∙ calls

  -- Closing a started service stops the timer of none of its sessions, although it closes them all:
  -- the calls on the timer system stay those made before, since stopSessionTicker does nothing once
  -- the service's state is closed.
  pub close_service_leaks_timers :
      (w : Service I)
      → w.state ≡ state_started
      → timer_calls (close_service w).0.effects ≡ timer_calls w.effects
  unfolding close_listener
  close_service_leaks_timers w st =
      let listener : timer_calls (closing w).effects ≡ timer_calls w.effects = ground arith in
      ap (λ r. timer_calls r.0.effects) (close_service_started w st)
      ∙ close_sessions_timers (closing w).sessions (closing w) (ground arith)
      ∙ listener
