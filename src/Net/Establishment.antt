-- ===== src/Net/Establishment.antt =====
-- net/service_establish.go, the types establishing and establishment: the context in which an
-- active and a passive attempt to establish one session run side by side. A method that mutates
-- its receiver returns the new record; nil is `none`.
pub mod Attempt
pub mod Laws
pub mod Outcome
use gcluster.Common.{
  ℕ, Bool, true, false, Option, none, some, not, ◌&&◌, ◌||◌, ltb, leb, ◌==◌, if◌then◌else◌,
}
use gcluster.Common.Int.{ℤ, pos, ltb_ℤ, eqb_ℤ}
use gcluster.Common.Bytes.{Bytes}
use gcluster.Common.Chan.{Chan, opened, close_chan}
use gcluster.Net.Error.{Err}
use gcluster.Net.Ref.{Conn, SessionRef}
use Attempt.{
  Establishing, new_establishing, establish_connect, establish_handshake, establish_about_success,
}
use Attempt

abbrev pub establishment_started : ℕ
establishment_started = 1

abbrev pub establishment_end : ℕ
establishment_end = 2

pub record Establishment : Type 0 where
  pub remote_node_id : Bytes
  pub state : ℕ
  pub active : Option Establishing
  pub passive : Option Establishing
  pub session : Option SessionRef
  pub err : Option Err
  pub ch_end : Chan

-- `establishment{remoteNodeId: ..., chEnd: make(chan struct{})}`
unfoldable pub new_establishment : Bytes → Establishment
new_establishment node_id = record {
  remote_node_id = node_id;
  state = 0;
  active = none;
  passive = none;
  session = none;
  err = none;
  ch_end = opened;
}

unfoldable pub change_state : ℕ → Establishment → Establishment × Bool
change_state state es =
    if leb state es.state then (es, false) else (record es { state = state }, true)

unfoldable pub is_end : Establishment → Bool
is_end es = es.state == establishment_end

unfoldable pub end : Option SessionRef → Option Err → Establishment → Establishment
unfolding change_state
end session err es =
    let (es', changed) = change_state establishment_end es in
    if changed
    then record es' { session = session; err = err; ch_end = close_chan es.ch_end }
    else es'

-- A test or a transition of an attempt that may be nil.
abbrev pub test : (Establishing → Bool) → Option Establishing → Bool
test p none = false
test p (some a) = p a

abbrev pub on_active :
    (Establishing → Establishing × Bool)
    → Establishment
    → Option Establishing
    → Establishment × Bool
on_active f es none = (es, false)
on_active f es (some a) = let (a', done) = f a in (record es { active = some a' }, done)

abbrev pub on_passive :
    (Establishing → Establishing × Bool)
    → Establishment
    → Option Establishing
    → Establishment × Bool
on_passive f es none = (es, false)
on_passive f es (some a) = let (a', done) = f a in (record es { passive = some a' }, done)

abbrev pub or_new : Option Establishing → Establishing
or_new none = new_establishing
or_new (some a) = a

unfoldable pub is_active_started : Establishment → Bool
unfolding Attempt.is_started
is_active_started es = test Attempt.is_started es.active

unfoldable pub is_active_establishing : Establishment → Bool
unfolding Attempt.is_establishing
is_active_establishing es = test Attempt.is_establishing es.active

unfoldable pub is_active_success : Establishment → Bool
unfolding Attempt.is_success
is_active_success es = test Attempt.is_success es.active

unfoldable pub is_active_fail : Establishment → Bool
unfolding Attempt.is_fail
is_active_fail es = test Attempt.is_fail es.active

unfoldable pub is_passive_started : Establishment → Bool
unfolding Attempt.is_started
is_passive_started es = test Attempt.is_started es.passive

unfoldable pub is_passive_establishing : Establishment → Bool
unfolding Attempt.is_establishing
is_passive_establishing es = test Attempt.is_establishing es.passive

unfoldable pub is_passive_success : Establishment → Bool
unfolding Attempt.is_success
is_passive_success es = test Attempt.is_success es.passive

unfoldable pub is_passive_fail : Establishment → Bool
unfolding Attempt.is_fail
is_passive_fail es = test Attempt.is_fail es.passive

abbrev state_of : Option Establishing → ℕ
state_of none = 0
state_of (some a) = a.state

abbrev start_time_of : Option Establishing → ℤ
start_time_of none = pos 0
start_time_of (some a) = a.start_time

abbrev conn_of : Option Establishing → Option Conn
conn_of none = none
conn_of (some a) = a.conn

abbrev err_of : Option Establishing → Option Err
err_of none = none
err_of (some a) = a.err

unfoldable pub active_state : Establishment → ℕ
active_state es = state_of es.active

unfoldable pub passive_state : Establishment → ℕ
passive_state es = state_of es.passive

unfoldable pub active_start_time : Establishment → ℤ
active_start_time es = start_time_of es.active

unfoldable pub passive_start_time : Establishment → ℤ
passive_start_time es = start_time_of es.passive

unfoldable pub active_conn : Establishment → Option Conn
active_conn es = conn_of es.active

unfoldable pub passive_conn : Establishment → Option Conn
passive_conn es = conn_of es.passive

unfoldable pub active_err : Establishment → Option Err
active_err es = err_of es.active

unfoldable pub passive_err : Establishment → Option Err
passive_err es = err_of es.passive

unfoldable pub start_active : ℤ → Establishment → Establishment × Bool
unfolding is_end is_passive_started change_state Attempt.start_at
start_active t es =
    if is_end es || is_passive_started es
    then (es, false)
    else let es' = (change_state establishment_started es).0 in
      on_active (Attempt.start_at establish_connect t) es' (some (or_new es.active))

unfoldable pub start_active_handshake : Establishment → Establishment × Bool
unfolding is_end Attempt.change_state
start_active_handshake es =
    if is_end es
    then (es, false)
    else on_active (Attempt.change_state establish_handshake) es es.active

unfoldable pub active_about_success : Establishment → Establishment × Bool
unfolding Attempt.change_state
active_about_success es = on_active (Attempt.change_state establish_about_success) es es.active

unfoldable pub active_success : Conn → Establishment → Establishment × Bool
unfolding Attempt.success
active_success conn es = on_active (Attempt.success conn) es es.active

unfoldable pub active_fail : Err → Establishment → Establishment × Bool
unfolding Attempt.fail
active_fail err es = on_active (Attempt.fail err) es es.active

unfoldable pub start_passive : ℤ → Establishment → Establishment × Bool
unfolding is_end change_state Attempt.start_at
start_passive t es =
    if is_end es
    then (es, false)
    else let es' = (change_state establishment_started es).0 in
      on_passive (Attempt.start_at establish_handshake t) es' (some (or_new es.passive))

unfoldable pub passive_success : Conn → Establishment → Establishment × Bool
unfolding Attempt.success
passive_success conn es = on_passive (Attempt.success conn) es es.passive

unfoldable pub passive_fail : Err → Establishment → Establishment × Bool
unfolding Attempt.fail
passive_fail err es = on_passive (Attempt.fail err) es es.passive

-- 1 for the active attempt, 2 for the passive one, 0 if neither has started; `same_time` settles a tie.
unfoldable pub which_start_earlier : Bool → Establishment → ℕ
unfolding is_active_started is_passive_started active_start_time passive_start_time
which_start_earlier same_time es =
    if is_active_started es && is_passive_started es
    then (let a = active_start_time es in
        let p = passive_start_time es in if ltb_ℤ a p || (eqb_ℤ a p && same_time) then 1 else 2)
    else if is_active_started es
    then 1
    else if is_passive_started es
    then 2
    else 0
