-- ===== src/Net/Establish/Passive.antt =====
-- net/service_establish.go, the goroutines of accepted connections: onPassiveConn and what it runs.
use gcluster.Common.{ℕ, Bool, true, false, Option, none, some, if◌then◌else◌}
use gcluster.Common.Int.{ℤ}
use gcluster.Common.Bytes.{Bytes, bytes_eq}
use gcluster.Net.Const.{state_started}
use gcluster.Net.Error.{Err, read_handshake_resp, reply_handshake, handshake_rejected}
use gcluster.Net.Establishment.{start_passive}
use gcluster.Net.Message.{
  Message, apply, accepted, rejected, completed, completed_ack, node_id_or_token_wrong,
  session_establishing, session_established,
}
use gcluster.Net.PacketQueue.{PacketQueue}
use gcluster.Net.Prog.{
  ret, ◌>>=◌, ◌>>◌, action, effect, time_now, answers, write_message, read_message,
}
use gcluster.Net.Ref.{Conn}
use gcluster.Net.Service.{check_state, get_session, get_session_unlocked}
use gcluster.Net.Establish.{
  on_establishment, end_establishment, passive_establish_success, passive_establish_fail,
}
use gcluster.Net.Establish.Programs.{
  Go, reads, closes, own_token, own_node_id, get_or_create_establishment, wait,
}

module _ {I : PacketQueue} where
  -- passiveEstablishFail
  unfoldable pub passive_fails : ℕ → Bytes → Conn → Err → Go I (Unit {0})
  passive_fails id k c e = do closes (some c); a ← answers; effect (passive_establish_fail a id k e)

  -- passiveEstablishSuccess
  unfoldable pub passive_succeeds : ℕ → Bytes → Conn → Go I (Unit {0})
  passive_succeeds id k c = do a ← answers; effect (passive_establish_success a id k c)

  -- The answers to HSAccepted.
  unfoldable pub passive_answered : ℕ → Bytes → Conn → Option Message → Go I (Unit {0})
  passive_answered id k c none = passive_fails id k c read_handshake_resp
  passive_answered id k c (some completed) = do
    written ← write_message c completed_ack
    if written then passive_succeeds id k c else passive_fails id k c reply_handshake
  passive_answered id k c (some (rejected reason)) = passive_fails id k c handshake_rejected
  passive_answered id k c (some (apply _ _ _)) = passive_fails id k c read_handshake_resp
  passive_answered id k c (some (accepted _ _)) = passive_fails id k c read_handshake_resp
  passive_answered id k c (some completed_ack) = passive_fails id k c read_handshake_resp

  -- passiveEstablishHandshake
  unfoldable pub passive_handshake : ℕ → Bytes → Conn → Go I (Unit {0})
  passive_handshake id k c = do
    me ← own_node_id
    token ← own_token
    written ← write_message c (accepted me token)
    if written
        then (do m ← read_message c; passive_answered id k c m)
        else passive_fails id k c reply_handshake

  -- startPassiveEstablish
  unfoldable pub start_passive_establish : ℕ → Bytes → Conn → ℤ → Go I Bool
  start_passive_establish id k c apply_time = do
    begun ← action (on_establishment (start_passive apply_time) id)
    if begun
        then (do
          now ← time_now
          session ← action (get_session now k)
          elim session [
            | some r ↦ do effect (end_establishment (some r) none id); ret true
            | none ↦ do passive_handshake id k c; ret true
          ])
        else ret false

  -- A refusal, and the end of the connection.
  unfoldable pub refuse : Conn → Message → Go I (Unit {0})
  refuse c m = do _ ← write_message c m; closes (some c)

  -- onPassiveConn from its lock on, for an HSApply with the right token.
  unfoldable pub passive_applied : Conn → Bytes → ℤ → Go I (Unit {0})
  passive_applied c k apply_time = do
    refused ← reads (check_state state_started)
    elim refused [
      | some e ↦ closes (some c)
      | none ↦ do
        now ← time_now
        session ← action (get_session_unlocked now k)
        elim session [
          | some r ↦ refuse c (rejected session_established)
          | none ↦ do
            id ← get_or_create_establishment k
            begun ← start_passive_establish id k c apply_time
            if begun then (do _ ← wait id; ret tt) else refuse c (rejected session_establishing)
        ]
    ]

  -- onPassiveConn
  unfoldable pub on_passive_message : Conn → Option Message → Go I (Unit {0})
  on_passive_message c none = closes (some c)
  on_passive_message c (some (apply node_id token apply_time)) = do
    own ← own_token
    if bytes_eq token own
        then passive_applied c node_id apply_time
        else refuse c (rejected node_id_or_token_wrong)
  on_passive_message c (some (accepted _ _)) = closes (some c)
  on_passive_message c (some (rejected _)) = closes (some c)
  on_passive_message c (some completed) = closes (some c)
  on_passive_message c (some completed_ack) = closes (some c)

  unfoldable pub on_passive_conn : Conn → Go I (Unit {0})
  on_passive_conn c = do m ← read_message c; on_passive_message c m
