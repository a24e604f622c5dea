-- ===== src/Net/Examples/Services.antt =====
-- The theorems on the service, on the services of the examples.
use gcluster.Common.{◌≡◌, refl, true, false, none, some, [], ◌∷◌, arith}
use gcluster.Common.Int.{pos, wrap64, ◌-ℤ◌, leb_ℤ, ltb_ℤ}
use gcluster.Common.Bytes.{Bytes, bytes_eq}
use gcluster.Common.Assoc.{lookup}
use gcluster.Net.Const.{state_started, state_closed}
use gcluster.Net.Packet.{close_resp_packet, heartbeat_packet, set_ping}
use gcluster.Net.Session.{Session, lock_state, inactive}
use gcluster.Net.Service.{timer_stopped, put_session, session_at}
use gcluster.Net.Service.Lifecycle.{
  close_session, close_base_locked, close_open, close_service, tick, tick_active_end,
  handle_close_req,
}
use gcluster.Net.Service.Closing.{close_session_twice, close_open_unmaps, IsOwnEntry}
use gcluster.Net.Service.Shutdown.{close_service_closes, IsClosedAt}
use gcluster.Net.Service.Timers.{timer_calls, close_session_stops_timer, close_service_leaks_timers}
use gcluster.Net.Service.Sessions.{close_req_race, heartbeat_spacing, close_req_of_active}
use gcluster.Net.Service.Ticks.{
  waits, queue_tick, on_session_ticker, loop, on_session_ticker_returns,
}
use gcluster.Net.Service.Draining.{loop_drains}
use gcluster.Net.Service.{Service}
use gcluster.Common.{inr, ◌≢◌, ◌⊎◌}
use gcluster.Net.Examples.{ListQueue, limits, session_with, service_a, node_b}

session_a : session_at 0 service_a ≡ some (session_with [])
unfolding session_at
session_a = refl

close_session_twice_example :
    close_session 0 (close_session 0 service_a) ≡ close_session 0 service_a
close_session_twice_example = close_session_twice 0 service_a

close_open_unmaps_example :
    let w = close_open false 0 (session_with []) service_a in
    (IsOwnEntry 0 (session_with []) node_b service_a × (lookup node_b w.sessions ≡ none))
    ⊎ (¬ IsOwnEntry 0 (session_with []) node_b service_a
        × (lookup node_b w.sessions ≡ lookup node_b service_a.sessions))
close_open_unmaps_example = close_open_unmaps false 0 (session_with []) service_a node_b session_a

close_service_closes_example :
    let (w, e) = close_service service_a in
    (e ≡ none) × ((j : Bytes) → lookup j w.sessions ≡ none) × IsClosedAt 0 w
unfolding lookup bytes_eq
close_service_closes_example =
    close_service_closes service_a node_b 0 refl refl (session_with [], session_a)

close_session_stops_timer_example :
    timer_calls (close_session 0 service_a).effects ≡ timer_stopped 5 ∷ []
close_session_stops_timer_example =
    close_session_stops_timer 0 (session_with []) service_a session_a (λ e. absurd (cc)) refl

close_service_leaks_timers_example : timer_calls (close_service service_a).0.effects ≡ []
close_service_leaks_timers_example = close_service_leaks_timers service_a refl

close_req_race_example :
    let locked = put_session 0 (lock_state state_started (session_with [])).0 service_a in
    ((t : Session ListQueue) × (session_at 0 (close_base_locked true 0 locked) ≡ some t)
      × (t.state ≡ state_closed)
      × (t.write_locked ≡ false))
    × ((t : Session ListQueue) × (session_at 0 (close_base_locked true 0 (close_session 0 locked))
          ≡ some t)
        × (t.state ≡ state_closed)
        × (t.write_locked ≡ true))
close_req_race_example = close_req_race 0 (session_with []) service_a session_a refl

-- The session was last active at 1000; ticks at 1040 and 1060 are less than 30 apart.
heartbeat_spacing_example :
    let s' = tick_active_end limits (pos 1040) (session_with []) in
    (s'.pending ≡ record { limit = pos 2; items = [] })
    ⊎ ((s'.pending
          ≡ (ListQueue.enqueue
              (heartbeat_packet set_ping)
              (record { limit = pos 2; items = [] })).0)
        × ((tick_active_end limits (pos 1060) s').pending ≡ s'.pending))
unfolding ltb_ℤ wrap64 ◌-ℤ◌
heartbeat_spacing_example =
    heartbeat_spacing limits (pos 1040) (pos 1060) (session_with []) (λ e. ground (arith, e))
      (omega arith)

close_req_of_active_example :
    (t : Session ListQueue) × (session_at 0 (handle_close_req (pos 1050) 0 service_a) ≡ some t)
    × (t.state ≡ state_started)
    × (t.write_locked ≡ false)
    × (t.last_active_time ≡ pos 1000)
    × (t.pending ≡ record { limit = pos 2; items = close_resp_packet 0 ∷ [] })
unfolding inactive leb_ℤ ltb_ℤ wrap64 ◌-ℤ◌
close_req_of_active_example =
    close_req_of_active (pos 1050) 0 (session_with []) service_a session_a refl refl

-- The service of the example with two ticks that wait, one of them for a node without a session.
abbrev ticking : Service ListQueue
ticking = record service_a { c_tick_sessions = node_b ∷ (120 ∷ []) ∷ [] }

loop_drains_example :
    let (v, end) = loop 3 false (pos 1100) ticking in
    (end ≡ waits)
    × (v.c_tick_sessions ≡ [])
    × (v.state ≡ state_started)
    × (session_at 0 v ≡ some (tick limits (pos 1100) (session_with [])))
unfolding session_at lookup bytes_eq
loop_drains_example = loop_drains 3 false (pos 1100) 0 ticking (omega arith) refl

on_session_ticker_returns_example :
    (queue_tick false node_b ticking ≢ none) × (on_session_ticker false node_b ticking ≢ none)
on_session_ticker_returns_example =
    on_session_ticker_returns false node_b ticking (inr (omega arith))
