-- ===== src/Net/Service.antt =====
-- net/service.go and the sessionMap of net/net.go: the service, with the heap of the sessions and
-- establishments that its maps point to, and the calls that it makes on things outside, the latest
-- first.
pub mod Lifecycle
pub mod Heap
pub mod Closing
pub mod Entries
pub mod Ticks
pub mod Draining
pub mod Shutdown
pub mod Timers
pub mod Sessions
use gcluster.Common.{
  ℕ, ◌≡◌, Bool, true, false, Option, none, some, List, [], ◌∷◌, ◌++◌, Result, ok, err, ◌>>=◌, ◌>>◌,
  get_elem?, set, length, ◌==◌, if◌then◌else◌,
}
use gcluster.Common.Int.{ℤ}
use gcluster.Common.Bytes.{Bytes}
use gcluster.Common.Assoc.{lookup, insert, delete}
use gcluster.Common.Chan.{Chan, opened, close_chan}
use gcluster.Net.Const.{LifeState, state_init, state_started, state_closed}
use gcluster.Net.Error.{Err, service_not_started, service_started, service_closed}
use gcluster.Net.Config.{
  ServiceConfig, ConfigErr, init_service_config, check, is_nil, session_handler_nil,
}
use gcluster.Net.Establishment.{Establishment}
use gcluster.Net.PacketQueue.{PacketQueue}
use gcluster.Net.Ref.{Conn, SessionRef, local_session, remote_session}
use gcluster.Net.Session.{Session, same_state, keep_active}

-- Calls on connections, gnet sessions, the timer system, the listener and the session handler.
pub data Effect : Type 0 where
  conn_closed core_started core_closed : Conn → Effect
  timer_started : ℕ → ℤ → Bytes → Effect
  timer_stopped : ℕ → Effect
  listener_created listener_closed : Effect
  bytes_handled : SessionRef → Bytes → Effect

pub record Service (I : PacketQueue) : Type 0 where
  pub cfg : ServiceConfig
  pub state : LifeState
  pub listening : Bool
  pub sessions : List (Bytes × SessionRef)
  pub establishments : List (Bytes × ℕ)
  pub c_tick_sessions : List Bytes
  pub c_closed : Chan
  pub session_heap : List (Session I)
  pub establishment_heap : List Establishment
  pub effects : List Effect

abbrev pub service_state_err : LifeState → Err
service_state_err state_init = service_not_started
service_state_err state_started = service_started
service_state_err state_closed = service_closed

abbrev pub same_ref : SessionRef → SessionRef → Bool
same_ref local_session local_session = true
same_ref (remote_session i) (remote_session j) = i == j
same_ref _ _ = false

module _ {I : PacketQueue} where
  -- The check of lockState; the lock is not kept, since each method here runs in one step.
  unfoldable pub check_state : LifeState → Service I → Option Err
  check_state need w = if same_state need w.state then none else some (service_state_err w.state)

  unfoldable pub is_closed : Service I → Bool
  is_closed w = same_state state_closed w.state

  unfoldable pub add_effect : Effect → Service I → Service I
  add_effect e w = record w { effects = e ∷ w.effects }

  -- The session behind a pointer, and a write through it.
  unfoldable pub session_at : ℕ → Service I → Option (Session I)
  session_at i w = get_elem? w.session_heap i

  unfoldable pub put_session : ℕ → Session I → Service I → Service I
  put_session i s w = record w { session_heap = set w.session_heap i s }

  -- sessionMap.get
  unfoldable pub get_ref : Bytes → Service I → Option SessionRef
  get_ref node_id w = lookup node_id w.sessions

  -- RemoteNodeId of a pointer's session; sessionLocal has the service's own id.
  unfoldable pub ref_node_id : SessionRef → Service I → Option Bytes
  unfolding session_at
  ref_node_id local_session w = some w.cfg.node_id
  ref_node_id (remote_session i) w = elim (session_at i w) [
    | none ↦ none
    | some s ↦ some s.remote_node_id
  ]

  -- sessionMap.add
  unfoldable pub add_session : SessionRef → Service I → Service I
  unfolding ref_node_id
  add_session r w = elim (ref_node_id r w) [
    | none ↦ w
    | some k ↦ record w { sessions = insert k r w.sessions }
  ]

  -- sync.Map.CompareAndDelete on the sessions
  unfoldable pub compare_and_delete : Bytes → SessionRef → Service I → Service I
  compare_and_delete k r w = elim (lookup k w.sessions) [
    | none ↦ w
    | some r' ↦ if same_ref r' r then record w { sessions = delete k w.sessions } else w
  ]

  -- onSessionClosed, sessionMap.compareAndDelete
  unfoldable pub on_session_closed : SessionRef → Service I → Service I
  unfolding ref_node_id compare_and_delete
  on_session_closed r w = elim (ref_node_id r w) [ none ↦ w | some k ↦ compare_and_delete k r w ]

  -- keepActive of a pointer's session, and the session refreshed.
  unfoldable pub keep_ref_active : ℤ → SessionRef → Service I → Service I × Bool
  unfolding session_at put_session keep_active
  keep_ref_active now local_session w = (w, true)
  keep_ref_active now (remote_session i) w = elim (session_at i w) [
    | none ↦ (w, false)
    | some s ↦ (put_session i (keep_active now s).0 w, is_nil (keep_active now s).1)
  ]

  -- getSession
  unfoldable pub get_session_unlocked : ℤ → Bytes → Service I → Service I × Option SessionRef
  unfolding get_ref keep_ref_active
  get_session_unlocked now node_id w = elim (get_ref node_id w) [
    | none ↦ (w, none)
    | some r ↦
        if (keep_ref_active now r w).1
        then ((keep_ref_active now r w).0, some r)
        else ((keep_ref_active now r w).0, none)
  ]

  -- GetSession
  unfoldable pub get_session : ℤ → Bytes → Service I → Service I × Option SessionRef
  unfolding check_state get_session_unlocked
  get_session now node_id w = elim (check_state state_started w) [
    | some e ↦ (w, none)
    | none ↦ get_session_unlocked now node_id w
  ]

  -- startSessionTicker; `tid` is the id that the timer system gives.
  unfoldable pub start_session_ticker : ℕ → Bytes → Service I → Service I × ℕ
  unfolding check_state add_effect
  start_session_ticker tid node_id w = elim (check_state state_started w) [
    | some e ↦ (w, 0)
    | none ↦ (add_effect (timer_started tid w.cfg.session.tick_interval node_id) w, tid)
  ]

  -- stopSessionTicker
  unfoldable pub stop_session_ticker : ℕ → Service I → Service I
  unfolding check_state add_effect
  stop_session_ticker tid w = elim (check_state state_started w) [
    | some e ↦ w
    | none ↦ add_effect (timer_stopped tid) w
  ]

  -- Start; `created` is the error of the listener's creator.
  unfoldable pub start : Option Err → Service I → Service I × Option Err
  unfolding check_state add_effect
  start created w = elim (check_state state_init w) [
    | some e ↦ (w, some e)
    | none ↦ elim created [
      | some e ↦ (w, some e)
      | none ↦
          (record (add_effect listener_created w) { listening = true; state = state_started }, none)
    ]
  ]

-- CreateService, without the options and the loggers: a service in its first state, whose map of
-- sessions holds the local session under its own id. `handler` is nil or the session handler.
unfoldable pub create_service :
    {I : PacketQueue} → Option ServiceConfig → Option ℕ → Result ConfigErr (Service I)
create_service cfg handler = do
  c ← init_service_config cfg
  check (is_nil handler) session_handler_nil
  ok (record {
    cfg = c;
    state = state_init;
    listening = false;
    sessions = (c.node_id, local_session) ∷ [];
    establishments = [];
    c_tick_sessions = [];
    c_closed = opened;
    session_heap = [];
    establishment_heap = [];
    effects = [];
  })
