-- ===== src/Cluster.antt =====
-- cluster.go: an Agent finds the address of a node by the centre, and sends to nodes over the
-- sessions of its service. The centre, an interface of center/center.go, is a parameter: the address
-- of a node, or none for an error.
pub mod Sending
pub mod Examples
use gcluster.Common.{ℕ, Bool, true, false, Option, none, some, Result, ok, err, if◌then◌else◌}
use gcluster.Common.Int.{ℤ}
use gcluster.Common.Bytes.{Bytes}
use gcluster.Net.Config.{ServiceConfig, ConfigErr, is_nil}
use gcluster.Net.Error.{Err}
use gcluster.Net.Packet.{raw_packet}
use gcluster.Net.PacketQueue.{PacketQueue}
use gcluster.Net.Prog.{Prog, ret, action, time_now, ◌>>=◌}
use gcluster.Net.Ref.{SessionRef, local_session, remote_session}
use gcluster.Net.Session.{send}
use gcluster.Net.Service.{
  Service, bytes_handled, add_effect, session_at, put_session, get_session, create_service,
}
use gcluster.Net.Establish.Programs.{Go, connect}

pub data AgentErr : Type 0 where
  get_node_info : AgentErr
  service_err : Err → AgentErr

-- What the methods of an agent return with an error: nil, or the error.
abbrev pub of_net : Option SessionRef × Option Err → Option SessionRef × Option AgentErr
of_net (r, none) = (r, none)
of_net (r, some e) = (r, some (service_err e))

abbrev pub of_err : Option Err → Option AgentErr
of_err none = none
of_err (some e) = some (service_err e)

-- AgentConfig, in which a centre and a handler that are not nil are numbers, and its init.
pub record AgentConfig : Type 0 where
  pub center : Option ℕ
  pub net : Option ServiceConfig
  pub handler : Option ℕ

pub data AgentConfigErr : Type 0 where
  agent_config_nil center_not_specified net_not_specified handler_not_specified : AgentConfigErr
  create_service_err : ConfigErr → AgentConfigErr

unfoldable pub init_agent_config : Option AgentConfig → Option AgentConfigErr
init_agent_config none = some agent_config_nil
init_agent_config (some c) =
    if is_nil c.center
    then some center_not_specified
    else if is_nil c.net
    then some net_not_specified
    else if is_nil c.handler
    then some handler_not_specified
    else none

module _ {I : PacketQueue} where
  -- The service of the agent that CreateAgent returns; the agent is its handler.
  unfoldable pub create_agent : Option AgentConfig → Result AgentConfigErr (Service I)
  unfolding init_agent_config create_service
  create_agent none = err agent_config_nil
  create_agent (some c) = elim (init_agent_config (some c)) [
    | some e ↦ err e
    | none ↦ elim (create_service c.net (some 0)) [
      | err e ↦ err (create_service_err e)
      | ok s ↦ ok s
    ]
  ]

  -- Send of a sessionLocal, with onSessionBytes of its service: it hands the bytes to the handler,
  -- whose error is `handled`.
  unfoldable pub send_local : Option Err → Bytes → Service I → Service I × Option Err
  unfolding add_effect
  send_local handled bytes w = (add_effect (bytes_handled local_session bytes) w, handled)

  -- Send of a session, at time `now`.
  unfoldable pub send_remote : ℤ → ℕ → Bytes → Service I → Service I × Option Err
  unfolding session_at put_session send
  send_remote now i bytes w = elim (session_at i w) [
    | none ↦ (w, none)
    | some s ↦
        let (s', e) = send w.cfg.session (some (raw_packet bytes)) true now s in
        (put_session i s' w, e)
  ]

  -- The call of Send by its interface, Session.
  unfoldable pub send_bytes :
      ℤ → Option Err → SessionRef → Bytes → Service I → Service I × Option Err
  unfolding send_local send_remote
  send_bytes now handled local_session bytes w = send_local handled bytes w
  send_bytes now handled (remote_session i) bytes w = send_remote now i bytes w

  -- ConnectNode
  unfoldable pub connect_node :
      (Bytes → Option Bytes) → Bytes → Go I (Option SessionRef × Option AgentErr)
  unfolding connect get_session
  connect_node center k = do
    now ← time_now
    session ← action (get_session now k)
    elim session [
      | some r ↦ ret (some r, none)
      | none ↦ elim (center k) [
        | none ↦ ret (none, some get_node_info)
        | some addr ↦ do result ← connect k addr; ret (of_net result)
      ]
    ]

  -- Send2Node once the node is connected; a nil session with a nil error does not occur.
  unfoldable pub sent_to :
      Option Err → Bytes → Option SessionRef × Option AgentErr → Go I (Option AgentErr)
  unfolding send_bytes
  sent_to handled bytes (r, some e) = ret (some e)
  sent_to handled bytes (none, none) = ret none
  sent_to handled bytes (some r, none) = do
    now ← time_now
    e ← action (send_bytes now handled r bytes)
    ret (of_err e)

  -- Send2Node
  unfoldable pub send_to_node :
      (Bytes → Option Bytes) → Option Err → Bytes → Bytes → Go I (Option AgentErr)
  unfolding connect_node sent_to
  send_to_node center handled k bytes = do r ← connect_node center k; sent_to handled bytes r
