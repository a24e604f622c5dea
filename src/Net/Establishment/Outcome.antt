-- ===== src/Net/Establishment/Outcome.antt =====
-- net/service_establish.go, the decision of establishEnd: which attempt, if any, becomes the session.
pub mod Laws
use gcluster.Common.{ℕ, Bool, true, false, Option, none, some, not, ◌&&◌, ◌||◌, ◌==◌, if◌then◌else◌}
use gcluster.Common.Bytes.{Bytes, bytes_ltb}
use gcluster.Net.Error.{Err, unknown_end_status}
use gcluster.Net.Ref.{Conn}
use gcluster.Net.Establishment.{
  Establishment, is_active_started, is_active_success, is_active_fail, is_passive_started,
  is_passive_success, is_passive_fail, active_conn, passive_conn, active_err, passive_err,
  active_state, passive_state, which_start_earlier,
}

-- The variables that the switch of establishEnd sets, and the connection that it closes.
pub record Decision : Type 0 where
  pub conn : Option Conn
  pub active : Bool
  pub err : Option Err
  pub closes : Option Conn

abbrev pub decision : Option Conn → Bool → Option Err → Option Conn → Decision
decision conn active err closes = record {
  conn = conn;
  active = active;
  err = err;
  closes = closes;
}

-- The switch of establishEnd, on the node `node_id`.
unfoldable pub decide : Bytes → Establishment → Decision
unfolding is_active_started is_active_success is_active_fail is_passive_started is_passive_success
    is_passive_fail active_conn passive_conn active_err passive_err active_state passive_state
decide node_id es =
    let earlier = which_start_earlier (bytes_ltb node_id es.remote_node_id) es in
    if is_active_success es && (not (is_passive_started es) || is_passive_fail es)
    then decision (active_conn es) true none none
    else if is_passive_success es && (not (is_active_started es) || is_active_fail es)
    then decision (passive_conn es) false none none
    else if is_active_success es && is_passive_success es
    then if earlier == 1
      then decision (active_conn es) true none (passive_conn es)
      else decision (passive_conn es) false none (active_conn es)
    else if is_active_fail es && not (is_passive_started es)
    then decision none false (active_err es) none
    else if is_passive_fail es && not (is_active_started es)
    then decision none false (passive_err es) none
    else if is_active_fail es && is_passive_fail es
    then decision none false (if earlier == 1 then active_err es else passive_err es) none
    else decision none false (some (unknown_end_status (active_state es) (passive_state es))) none
