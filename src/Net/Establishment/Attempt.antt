-- ===== src/Net/Establishment/Attempt.antt =====
-- net/service_establish.go, the type establishing: one attempt, active or passive.
use gcluster.Common.{
  ℕ, Bool, true, false, Option, none, some, not, ◌&&◌, ltb, leb, ◌==◌, if◌then◌else◌,
}
use gcluster.Common.Int.{ℤ, pos}
use gcluster.Net.Error.{Err}
use gcluster.Net.Ref.{Conn}

abbrev pub establish_connect : ℕ
establish_connect = 1

abbrev pub establish_handshake : ℕ
establish_handshake = 2

abbrev pub establish_about_success : ℕ
establish_about_success = 3

abbrev pub establish_success : ℕ
establish_success = 4

abbrev pub establish_fail : ℕ
establish_fail = 5

pub record Establishing : Type 0 where
  pub state : ℕ
  pub start_time : ℤ
  pub conn : Option Conn
  pub err : Option Err

-- `&establishing{}`
abbrev pub new_establishing : Establishing
new_establishing = record { state = 0; start_time = pos 0; conn = none; err = none }

unfoldable pub change_state : ℕ → Establishing → Establishing × Bool
change_state state es =
    if leb state es.state then (es, false) else (record es { state = state }, true)

unfoldable pub is_started : Establishing → Bool
is_started es = ltb 0 es.state

unfoldable pub is_end : Establishing → Bool
is_end es = ltb establish_about_success es.state

unfoldable pub is_establishing : Establishing → Bool
unfolding is_started is_end
is_establishing es = is_started es && not (is_end es)

unfoldable pub is_success : Establishing → Bool
is_success es = es.state == establish_success

unfoldable pub is_fail : Establishing → Bool
is_fail es = es.state == establish_fail

unfoldable pub success : Conn → Establishing → Establishing × Bool
unfolding change_state
success conn es =
    let (es', changed) = change_state establish_success es in
    if changed then (record es' { conn = some conn }, true) else (es', false)

unfoldable pub fail : Err → Establishing → Establishing × Bool
unfolding change_state
fail err es =
    let (es', changed) = change_state establish_fail es in
    if changed then (record es' { err = some err }, true) else (es', false)

-- An attempt enters `state` at time `t`, unless it is there already: the end of startActive and of
-- startPassive.
unfoldable pub start_at : ℕ → ℤ → Establishing → Establishing × Bool
unfolding change_state
start_at state t es =
    let (es', changed) = change_state state es in
    if changed then (record es' { start_time = t }, true) else (es', false)
