-- ===== src/Net/Establish/Programs.antt =====
-- net/service_establish.go, the goroutines that establish sessions: Connect, and onPassiveConn for
-- each accepted connection. `id` is a pointer to an establishment and `k` its remoteNodeId.
use gcluster.Common.{ℕ, Bool, true, false, Option, none, some, ◌&&◌, if◌then◌else◌}
use gcluster.Common.Int.{ℤ, pos}
use gcluster.Common.Bytes.{Bytes, bytes_eq}
use gcluster.Common.Chan.{is_closed_chan}
use gcluster.Net.Const.{state_started}
use gcluster.Net.Error.{
  Err, connect_remote, request_handshake, read_handshake_resp, reply_handshake,
  remote_id_or_token_wrong, handshake_rejected,
}
use gcluster.Net.Establishment.{
  start_active, start_active_handshake, active_about_success, active_start_time,
}
use gcluster.Net.Message.{
  Message, apply, accepted, rejected, completed, completed_ack, node_id_or_token_wrong,
}
use gcluster.Net.PacketQueue.{PacketQueue}
use gcluster.Net.Prog.{
  Prog, ret, ◌>>=◌, ◌>>◌, action, effect, time_now, answers, dial_addr, write_message, read_message,
  wait_for,
}
use gcluster.Net.Ref.{Conn, SessionRef}
use gcluster.Net.Service.{Service, check_state, get_session}
use gcluster.Net.Establish.{
  establishment_at, on_establishment, end_establishment, test_establishment, close_conn,
  load_establishment, load_or_store_establishment, active_establish_success, active_establish_fail,
}

abbrev pub Go : PacketQueue → Type 0 → Type 0
Go I A = Prog (Service I) A

-- The test of readHandshakeProto[*pb.HSCompletedAck].
abbrev pub is_completed_ack : Option Message → Bool
is_completed_ack (some completed_ack) = true
is_completed_ack _ = false

module _ {I : PacketQueue} where
  -- A value read from the service in one step.
  unfoldable pub reads : {A : Type 0} → (Service I → A) → Go I A
  reads f = action (λ w. (w, f w))

  -- `conn.Close()`
  unfoldable pub closes : Option Conn → Go I (Unit {0})
  closes c = effect (close_conn c)

  -- The handshake's token of this node, and its id.
  unfoldable pub own_token : Go I Bytes
  own_token = reads (λ w. w.cfg.handshake.token)

  unfoldable pub own_node_id : Go I Bytes
  own_node_id = reads (λ w. w.cfg.node_id)

  -- getOrCreateEstablishment
  unfoldable pub get_or_create_establishment : Bytes → Go I ℕ
  get_or_create_establishment k = do
    found ← action (load_establishment k)
    elim found [ some id ↦ ret id | none ↦ action (load_or_store_establishment k) ]

  -- What `wait` reads once the channel is closed.
  unfoldable pub result_of : ℕ → Service I → Option SessionRef × Option Err
  result_of id w = elim (establishment_at id w) [
    | none ↦ (none, none)
    | some es ↦ (es.session, es.err)
  ]

  -- wait
  unfoldable pub wait : ℕ → Go I (Option SessionRef × Option Err)
  wait id = do
    wait_for (test_establishment (λ es. is_closed_chan es.ch_end) id)
    reads (result_of id)

  -- activeEstablishFail
  unfoldable pub active_fails : ℕ → Bytes → Option Conn → Err → Go I (Unit {0})
  active_fails id k c e = do closes c; a ← answers; effect (active_establish_fail a id k e)

  -- activeEstablishSuccess
  unfoldable pub active_succeeds : ℕ → Bytes → Conn → Go I (Unit {0})
  active_succeeds id k c = do a ← answers; effect (active_establish_success a id k c)

  -- activeEstablishAboutSuccess
  unfoldable pub active_about_succeeds : ℕ → Bytes → Conn → Go I (Unit {0})
  active_about_succeeds id k c = do
    _ ← action (on_establishment active_about_success id)
    written ← write_message c completed
    if written
        then (do
          ack ← read_message c
          if is_completed_ack ack
              then active_succeeds id k c
              else active_fails id k (some c) read_handshake_resp)
        else active_fails id k (some c) reply_handshake

  -- The answers to HSApply: accepted by the right node with the right token, or else.
  unfoldable pub active_answered : ℕ → Bytes → Conn → Option Message → Go I (Unit {0})
  active_answered id k c none = active_fails id k (some c) read_handshake_resp
  active_answered id k c (some (accepted node_id token)) = do
    own ← own_token
    if bytes_eq node_id k && bytes_eq token own then active_about_succeeds id k c else (do
      _ ← write_message c (rejected node_id_or_token_wrong)
      active_fails id k (some c) remote_id_or_token_wrong)
  active_answered id k c (some (rejected reason)) = active_fails id k (some c) handshake_rejected
  active_answered id k c (some (apply _ _ _)) = active_fails id k (some c) read_handshake_resp
  active_answered id k c (some completed) = active_fails id k (some c) read_handshake_resp
  active_answered id k c (some completed_ack) = active_fails id k (some c) read_handshake_resp

  -- `es.activeStartTime()`
  unfoldable pub start_time_at : ℕ → Service I → ℤ
  start_time_at id w = elim (establishment_at id w) [
    | none ↦ pos 0
    | some es ↦ active_start_time es
  ]

  -- activeEstablishHandshake
  unfoldable pub active_handshake : ℕ → Bytes → Conn → Go I (Unit {0})
  active_handshake id k c = do
    begun ← action (on_establishment start_active_handshake id)
    if begun
        then (do
          me ← own_node_id
          token ← own_token
          t ← reads (start_time_at id)
          written ← write_message c (apply me token t)
          if written
              then (do m ← read_message c; active_answered id k c m)
              else active_fails id k (some c) request_handshake)
        else ret tt

  -- activeEstablishConnect
  unfoldable pub active_connect : ℕ → Bytes → Bytes → Go I (Unit {0})
  active_connect id k addr = do
    c ← dial_addr addr
    elim c [ none ↦ active_fails id k none connect_remote | some c ↦ active_handshake id k c ]

  -- startActiveEstablish
  unfoldable pub start_active_establish : ℕ → Bytes → Bytes → Go I Bool
  start_active_establish id k addr = do
    t ← time_now
    begun ← action (on_establishment (start_active t) id)
    if begun
        then (do
          now ← time_now
          session ← action (get_session now k)
          elim session [
            | some r ↦ do effect (end_establishment (some r) none id); ret true
            | none ↦ do active_connect id k addr; ret true
          ])
        else ret false

  -- The retry at the end of Connect: a session that came by another way is as good.
  unfoldable pub connected :
      Bytes → Option SessionRef × Option Err → Go I (Option SessionRef × Option Err)
  connected k (session, none) = ret (session, none)
  connected k (session, some e) = do
    now ← time_now
    found ← action (get_session now k)
    elim found [ some r ↦ ret (some r, none) | none ↦ ret (none, some e) ]

  -- Connect
  unfoldable pub connect : Bytes → Bytes → Go I (Option SessionRef × Option Err)
  connect k addr = do
    now ← time_now
    session ← action (get_session now k)
    elim session [
      | some r ↦ ret (some r, none)
      | none ↦ do
        refused ← reads (check_state state_started)
        elim refused [
          | some e ↦ ret (none, some e)
          | none ↦ do
            id ← get_or_create_establishment k
            _ ← start_active_establish id k addr
            result ← wait id
            connected k result
        ]
    ]
