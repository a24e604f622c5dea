-- ===== src/Net/Establish.antt =====
-- net/service_establish.go, the parts of the establishing goroutines that run under a mutex: each
-- is a function on the service. `id` is a pointer to an establishment.
pub mod Programs
pub mod Passive
pub mod Heap
pub mod Invariant
pub mod Interleaved
pub mod Accepting
pub mod Stale
pub mod Waiting
use gcluster.Common.{
  ℕ, Bool, true, false, Option, none, some, List, [], ◌∷◌, ◌++◌, get_elem?, set, length, ◌==◌,
  if◌then◌else◌,
}
use gcluster.Common.Int.{ℤ}
use gcluster.Common.Bytes.{Bytes}
use gcluster.Common.Assoc.{lookup, insert, delete}
use gcluster.Net.Const.{LifeState, state_started}
use gcluster.Net.Error.{Err}
use gcluster.Net.Establishment.Outcome.{Decision, decide}
use gcluster.Net.Establishment.{
  Establishment, new_establishment, is_end, end, active_success, active_fail, passive_success,
  passive_fail, is_active_establishing, is_passive_establishing,
}
use gcluster.Net.PacketQueue.{PacketQueue}
use gcluster.Net.Prog.{Answers}
use gcluster.Net.Ref.{Conn, SessionRef, remote_session}
use gcluster.Net.Session.{Session}
use gcluster.Net.Session
use gcluster.Net.Service.{Service, conn_closed, add_effect, session_at, add_session, check_state}
use gcluster.Net.Service.Lifecycle.{new_session, start_session, close_session}

module _ {I : PacketQueue} where
  unfoldable pub establishment_at : ℕ → Service I → Option Establishment
  establishment_at id w = get_elem? w.establishment_heap id

  -- A method that mutates the establishment behind a pointer.
  unfoldable pub on_establishment :
      (Establishment → Establishment × Bool) → ℕ → Service I → Service I × Bool
  unfolding establishment_at
  on_establishment f id w = elim (establishment_at id w) [
    | none ↦ (w, false)
    | some es ↦ (record w { establishment_heap = set w.establishment_heap id (f es).0 }, (f es).1)
  ]

  -- `es.end(session, err)`
  unfoldable pub end_establishment : Option SessionRef → Option Err → ℕ → Service I → Service I
  unfolding on_establishment
  end_establishment session err id w = (on_establishment (λ es. (end session err es, true)) id w).0

  -- A test on the establishment behind a pointer.
  unfoldable pub test_establishment : (Establishment → Bool) → ℕ → Service I → Bool
  unfolding establishment_at
  test_establishment p id w = elim (establishment_at id w) [ none ↦ false | some es ↦ p es ]

  -- sync.Map.CompareAndDelete on the establishments
  unfoldable pub forget_establishment : Bytes → ℕ → Service I → Service I
  forget_establishment k id w = elim (lookup k w.establishments) [
    | none ↦ w
    | some id' ↦ if id' == id then record w { establishments = delete k w.establishments } else w
  ]

  -- `_ = conn.Close()`, where there is a connection.
  unfoldable pub close_conn : Option Conn → Service I → Service I
  unfolding add_effect
  close_conn none w = w
  close_conn (some c) w = add_effect (conn_closed c) w

  -- getOrCreateEstablishment: its Load, and its LoadOrStore of a new establishment.
  unfoldable pub load_establishment : Bytes → Service I → Service I × Option ℕ
  load_establishment k w = (w, lookup k w.establishments)

  unfoldable pub load_or_store_establishment : Bytes → Service I → Service I × ℕ
  unfolding new_establishment
  load_or_store_establishment k w = elim (lookup k w.establishments) [
    | some id ↦ (w, id)
    | none ↦ (
      record w {
        establishments = insert k (length w.establishment_heap) w.establishments;
        establishment_heap = w.establishment_heap ++ new_establishment k ∷ [];
      },
      length w.establishment_heap,
    )
  ]

  -- establishEndFailed
  unfoldable pub establish_end_failed : ℕ → Bytes → Err → Service I → Service I
  unfolding end_establishment forget_establishment
  establish_end_failed id k e w = forget_establishment k id (end_establishment none (some e) id w)

  -- The state check of session.lockState(stateStarted, false).
  unfoldable pub session_lock_err : ℕ → Service I → Option Err
  unfolding session_at Session.check_state
  session_lock_err i w = elim (session_at i w) [
    | none ↦ none
    | some s ↦ Session.check_state state_started s
  ]

  -- The end of establishEndCreateSession, once the session has started: both states are checked,
  -- and the session is entered in the map.
  unfoldable pub establish_end_locked : ℕ → Bytes → ℕ → Service I → Service I
  unfolding session_lock_err check_state close_session establish_end_failed add_session
      forget_establishment end_establishment
  establish_end_locked id k i w = elim (session_lock_err i w) [
    | some e ↦ establish_end_failed id k e w
    | none ↦ elim (check_state state_started w) [
      | some e ↦ establish_end_failed id k e (close_session i w)
      | none ↦
          end_establishment (some (remote_session i)) none id
            (forget_establishment k id (add_session (remote_session i) w))
    ]
  ]

  -- establishEndCreateSession
  unfoldable pub establish_end_create_session :
      Answers → ℕ → Bytes → Conn → Bool → Service I → Service I
  unfolding new_session start_session close_conn establish_end_failed establish_end_locked
      close_session
  establish_end_create_session a id k conn active w =
      let (w1, i) = new_session k active conn w in
      let (w2, failed) = start_session a.now a.tid a.core_err i w1 in
      let w3 = if a.died then close_session i w2 else w2 in
      elim failed [
        | some e ↦ establish_end_failed id k e (close_conn (some conn) w2)
        | none ↦ establish_end_locked id k i w3
      ]

  -- The end of establishEnd, from its decision on; a session over a nil connection does not occur.
  unfoldable pub establish_end_decided : Answers → ℕ → Bytes → Decision → Service I → Service I
  unfolding close_conn establish_end_failed establish_end_create_session
  establish_end_decided a id k d w =
      let w1 = close_conn d.closes w in
      elim d.err [
        | some e ↦ establish_end_failed id k e w1
        | none ↦ elim d.conn [
          | none ↦ w1
          | some c ↦ establish_end_create_session a id k c d.active w1
        ]
      ]

  -- establishEnd
  unfoldable pub establish_end : Answers → ℕ → Bytes → Service I → Service I
  unfolding establishment_at is_end decide establish_end_decided
  establish_end a id k w = elim (establishment_at id w) [
    | none ↦ w
    | some es ↦ if is_end es then w else establish_end_decided a id k (decide w.cfg.node_id es) w
  ]

  -- activeEstablishSuccess
  unfoldable pub active_establish_success : Answers → ℕ → Bytes → Conn → Service I → Service I
  unfolding on_establishment active_success close_conn test_establishment is_passive_establishing
      establish_end
  active_establish_success a id k conn w =
      let (w1, done) = on_establishment (active_success conn) id w in
      if done
      then if test_establishment is_passive_establishing id w1 then w1 else establish_end a id k w1
      else close_conn (some conn) w1

  -- activeEstablishFail, after it has closed the connection.
  unfoldable pub active_establish_fail : Answers → ℕ → Bytes → Err → Service I → Service I
  unfolding on_establishment active_fail test_establishment is_passive_establishing establish_end
  active_establish_fail a id k e w =
      let (w1, done) = on_establishment (active_fail e) id w in
      if done
      then if test_establishment is_passive_establishing id w1 then w1 else establish_end a id k w1
      else w1

  -- passiveEstablishSuccess
  unfoldable pub passive_establish_success : Answers → ℕ → Bytes → Conn → Service I → Service I
  unfolding on_establishment passive_success test_establishment is_active_establishing establish_end
  passive_establish_success a id k conn w =
      let (w1, done) = on_establishment (passive_success conn) id w in
      if done
      then if test_establishment is_active_establishing id w1 then w1 else establish_end a id k w1
      else w1

  -- passiveEstablishFail, after it has closed the connection.
  unfoldable pub passive_establish_fail : Answers → ℕ → Bytes → Err → Service I → Service I
  unfolding on_establishment passive_fail test_establishment is_active_establishing establish_end
  passive_establish_fail a id k e w =
      let (w1, done) = on_establishment (passive_fail e) id w in
      if done
      then if test_establishment is_active_establishing id w1 then w1 else establish_end a id k w1
      else w1
