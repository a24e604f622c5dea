-- ===== src/Net/Service/Ticks.antt =====
-- net/service.go, onSessionTicker and loop: the timer of a session hands its node to the service's
-- own goroutine, which ticks the session.
use gcluster.Common.{
  ℕ, zero, suc, ◌≡◌, ◌≢◌, ◌⊎◌, Bool, Option, none, some, List, [], ◌∷◌, ◌++◌, ◌&&◌, length,
  length-append, arith, if◌then◌else◌, Option-cases, inl, inr,
}
use gcluster.Common.Int.{ℤ, pos, ◌≤ℤ◌, ◌<ℤ◌, ltb_ℤ, ltb_ℤ_iff}
use gcluster.Common.Bytes.{Bytes}
use gcluster.Common.Chan.{closed, is_closed_chan}
use gcluster.Net.Const.{state_started}
use gcluster.Net.PacketQueue.{PacketQueue}
use gcluster.Net.Ref.{SessionRef, local_session, remote_session}
use gcluster.Net.Service.{Service, check_state, get_ref, session_at, put_session}
use gcluster.Net.Service.Lifecycle.{tick}

-- How a pass of the loop ends: it ticked a session, the service is closed, or nothing is ready.
-- `out_of_fuel` stands for a loop that was cut short.
pub data LoopEnd : Type 0 where
  ticked stopped waits out_of_fuel : LoopEnd

module _ {I : PacketQueue} where
  -- The select of onSessionTicker; `none` where it blocks. If both cases are ready, `prefer_close`
  -- chooses.
  unfoldable pub queue_tick : Bool → Bytes → Service I → Option (Service I)
  queue_tick prefer_close k w =
      if ltb_ℤ (pos (length w.c_tick_sessions)) w.cfg.expected_concurrent_sessions
      then if is_closed_chan w.c_closed && prefer_close
        then some w
        else some (record w { c_tick_sessions = w.c_tick_sessions ++ k ∷ [] })
      else if is_closed_chan w.c_closed
      then some w
      else none

  -- onSessionTicker
  unfoldable pub on_session_ticker : Bool → Bytes → Service I → Option (Service I)
  unfolding check_state queue_tick
  on_session_ticker prefer_close k w = elim (check_state state_started w) [
    | some e ↦ some w
    | none ↦ queue_tick prefer_close k w
  ]

  -- `session.tick()`; sessionLocal's does nothing.
  unfoldable pub tick_ref : ℤ → SessionRef → Service I → Service I
  unfolding session_at put_session tick
  tick_ref now local_session w = w
  tick_ref now (remote_session i) w = elim (session_at i w) [
    | none ↦ w
    | some s ↦ put_session i (tick w.cfg.session now s) w
  ]

  -- `if session := s.sessions.get(nodeId); session != nil { session.tick() }`
  unfoldable pub tick_node : ℤ → Bytes → Service I → Service I
  unfolding get_ref tick_ref
  tick_node now k w = elim (get_ref k w) [ none ↦ w | some r ↦ tick_ref now r w ]

  -- The select of loop, on the nodes that wait.
  unfoldable pub take_tick : Bool → ℤ → List Bytes → Service I → Service I × LoopEnd
  unfolding tick_node
  take_tick prefer_close now [] w = (w, if is_closed_chan w.c_closed then stopped else waits)
  take_tick prefer_close now (k ∷ ks) w =
      if is_closed_chan w.c_closed && prefer_close
      then (w, stopped)
      else (tick_node now k (record w { c_tick_sessions = ks }), ticked)

  -- loop, until it returns or nothing is ready.
  unfoldable pub loop : ℕ → Bool → ℤ → Service I → Service I × LoopEnd
  unfolding take_tick
  loop zero prefer_close now w = (w, out_of_fuel)
  loop (suc fuel) prefer_close now w =
      let pass = take_tick prefer_close now w.c_tick_sessions w in
      let rest = loop fuel prefer_close now pass.0 in
      elim pass.1 [ ticked ↦ rest | stopped ↦ pass | waits ↦ pass | out_of_fuel ↦ pass ]

  queue_tick_room :
      (p : Bool) (k : Bytes) (w v : Service I)
      → pos (length w.c_tick_sessions) ≤ℤ w.cfg.expected_concurrent_sessions
      → queue_tick p k w ≡ some v
      → pos (length v.c_tick_sessions) ≤ℤ v.cfg.expected_concurrent_sessions
  unfolding queue_tick
  queue_tick_room p k w v h e = ground (
    arith,
    ltb_ℤ_iff (pos (length w.c_tick_sessions)) w.cfg.expected_concurrent_sessions,
    length-append w.c_tick_sessions (k ∷ []),
  )

  -- The callback of a session's timer never puts more nodes in the channel than it has room for.
  pub on_session_ticker_bounded :
      (prefer_close : Bool) (k : Bytes) (w v : Service I)
      → pos (length w.c_tick_sessions) ≤ℤ w.cfg.expected_concurrent_sessions
      → on_session_ticker prefer_close k w ≡ some v
      → pos (length v.c_tick_sessions) ≤ℤ v.cfg.expected_concurrent_sessions
  unfolding on_session_ticker
  on_session_ticker_bounded p k w v h e = elim (Option-cases (check_state state_started w)) [
    | inl c ↦ queue_tick_room p k w v h (ground (arith, c, e))
    | inr (x, c) ↦ ground (arith, c, e)
  ]

  -- The callback of a session's timer never blocks once the service is closed, not even when it has
  -- passed its check of the state before; nor while there is room in the channel.
  pub on_session_ticker_returns :
      (prefer_close : Bool) (k : Bytes) (w : Service I)
      → (w.c_closed ≡ closed)
        ⊎ (pos (length w.c_tick_sessions) <ℤ w.cfg.expected_concurrent_sessions)
      → (queue_tick prefer_close k w ≢ none) × (on_session_ticker prefer_close k w ≢ none)
  unfolding on_session_ticker queue_tick
  on_session_ticker_returns p k w h =
      ground
        (arith, h, ltb_ℤ_iff (pos (length w.c_tick_sessions)) w.cfg.expected_concurrent_sessions)
