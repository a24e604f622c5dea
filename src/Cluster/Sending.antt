-- ===== src/Cluster/Sending.antt =====
-- cluster.go: what CreateAgent, ConnectNode and Send2Node do.
use gcluster.Common.{ℕ, true, arith, ap, ◌≡◌, ◌∙◌, refl, Option, none, some}
use gcluster.Common.Int.{ℤ}
use gcluster.Common.Bytes.{Bytes}
use gcluster.Common.Assoc.{lookup}
use gcluster.Net.Const.{state_started}
use gcluster.Net.Error.{Err}
use gcluster.Net.Packet.{raw_packet}
use gcluster.Net.PacketQueue.{PacketQueue, IsFifo}
use gcluster.Net.Prog.{action, time_now}
use gcluster.Net.Ref.{SessionRef, remote_session}
use gcluster.Net.Session
use gcluster.Net.Session.{Session, refresh_active_time, keep_active, send}
use gcluster.Net.Session.Send.{IsSent, send_lem}
use gcluster.Net.Service.{
  Service, check_state, get_session, get_session_unlocked, get_ref, keep_ref_active, session_at,
  put_session,
}
use gcluster.Net.Service.Heap.{session_at-put_session_self}
use gcluster.Net.Establish.Stale.{run_alone, run_alone-bind, run_alone-action, get_session_missing}
use gcluster.Cluster.{
  get_node_info, of_err, send_bytes, send_remote, connect_node, sent_to, send_to_node,
}

module _ {I : PacketQueue} where
  connect_node_known :
      (t : ℤ) (center : Bytes → Option Bytes) (k : Bytes) (r : SessionRef) (w u : Service I)
      → get_session t k w ≡ (u, some r)
      → run_alone t (connect_node center k) w ≡ some ((some r, none), u)
  unfolding connect_node
  connect_node_known t center k r w u h =
      run_alone-bind t time_now _ w w t (unfold run_alone time_now in refl)
      ∙ run_alone-bind t (action (get_session t k)) _ w u (some r)
          (run_alone-action t _ w u (some r) h)
      ∙ (unfold run_alone in refl)

  -- Without a session with the node, and with a centre that does not know it, ConnectNode of a
  -- started service returns the centre's error and changes nothing: it dials nobody.
  pub connect_node_unknown :
      (t : ℤ) (center : Bytes → Option Bytes) (k : Bytes) (w : Service I)
      → check_state state_started w ≡ none
      → lookup k w.sessions ≡ none
      → center k ≡ none
      → run_alone t (connect_node center k) w ≡ some ((none, some get_node_info), w)
  unfolding connect_node
  connect_node_unknown t center k w st m h =
      run_alone-bind t time_now _ w w t (unfold run_alone time_now in refl)
      ∙ run_alone-bind t (action (get_session t k)) _ w w none
          (run_alone-action t _ w w none (get_session_missing t k w st m))
      ∙ (unfold run_alone in rw h refl)

  sent_to_known :
      (t : ℤ) (handled : Option Err) (bytes : Bytes) (r : SessionRef) (u : Service I)
      → run_alone t (sent_to handled bytes (some r, none)) u
        ≡ some (of_err (send_bytes t handled r bytes u).1, (send_bytes t handled r bytes u).0)
  unfolding sent_to
  sent_to_known t handled bytes r u =
      let v = (send_bytes t handled r bytes u).0 in
      let e = (send_bytes t handled r bytes u).1 in
      run_alone-bind t time_now _ u u t (unfold run_alone time_now in refl)
      ∙ run_alone-bind t (action (send_bytes t handled r bytes)) _ u v e
          (run_alone-action t _ u v e refl)
      ∙ (unfold run_alone in refl)

  send_to_node_found :
      (t : ℤ) (center : Bytes → Option Bytes) (handled : Option Err) (k bytes : Bytes)
      (r : SessionRef) (w u : Service I)
      → get_session t k w ≡ (u, some r)
      → run_alone t (send_to_node center handled k bytes) w
        ≡ some (of_err (send_bytes t handled r bytes u).1, (send_bytes t handled r bytes u).0)
  unfolding send_to_node
  send_to_node_found t center handled k bytes r w u h =
      run_alone-bind t (connect_node center k) _ w u (some r, none)
        (connect_node_known t center k r w u h)
      ∙ sent_to_known t handled bytes r u

  -- The service once the session behind a pointer is marked as active.
  abbrev refreshed : ℤ → ℕ → Session I → Service I → Service I
  refreshed t i s w = put_session i (refresh_active_time t s) w

  get_session_live :
      (t : ℤ) (k : Bytes) (i : ℕ) (s : Session I) (w : Service I)
      → check_state state_started w ≡ none
      → lookup k w.sessions ≡ some (remote_session i)
      → session_at i w ≡ some s
      → s.state ≡ state_started
      → get_session t k w ≡ (refreshed t i s w, some (remote_session i))
  unfolding get_session get_session_unlocked get_ref keep_ref_active keep_active Session.check_state
  get_session_live t k i s w hs hl at st = ground (arith, hs, hl, at, st)

  -- Both ends of a call of Send: what the session becomes, and the service with it.
  send_remote_sent :
      (t : ℤ) (i : ℕ) (bytes : Bytes) (s : Session I) (u : Service I)
      → session_at i u ≡ some s
      → let r = send u.cfg.session (some (raw_packet bytes)) true t s in
        send_remote t i bytes u ≡ (put_session i r.0 u, r.1)
  unfolding send_remote
  send_remote_sent t i bytes s u at = rw (at, send_remote) refl

-- Send2Node of a started service to a node whose entry of the map is a session that is started: the
-- session is marked as active, and sending the bytes over it ends as a call of send ends: they are
-- queued last on that session, or one of the errors of send is returned and nothing is queued. The
-- error is the result; the map and the effects stay, so neither the centre nor the network is asked.
pub send_to_node_known :
    (I : PacketQueue) (F : IsFifo I) (t : ℤ) (center : Bytes → Option Bytes) (handled : Option Err)
    (k bytes : Bytes) (i : ℕ) (s : Session I) (w : Service I)
    → check_state state_started w ≡ none
    → lookup k w.sessions ≡ some (remote_session i)
    → session_at i w ≡ some s
    → s.state ≡ state_started
    → (s' : Session I) × (e : Option Err) × (v : Service I) × (run_alone t
          (send_to_node center handled k bytes)
          w
        ≡ some (of_err e, v))
      × (session_at i v ≡ some s')
      × (v.sessions ≡ w.sessions)
      × (v.effects ≡ w.effects)
      × IsSent I F w.cfg.session (some (raw_packet bytes)) true t (refresh_active_time t s) (s', e)
send_to_node_known I F t center handled k bytes i s w hs hl at st =
    let s0 = refresh_active_time t s in
    let u = refreshed t i s w in
    let here : session_at i u ≡ some s0 = session_at-put_session_self i s0 s w at in
    let r = send w.cfg.session (some (raw_packet bytes)) true t s0 in
    let sent : send_bytes t handled (remote_session i) bytes u ≡ (put_session i r.0 u, r.1) =
      unfold send_bytes put_session in send_remote_sent t i bytes s0 u here in
    (
      r.0,
      r.1,
      put_session i r.0 u,
      send_to_node_found t center handled k bytes (remote_session i) w u
            (get_session_live t k i s w hs hl at st)
          ∙ ap (λ q. some (of_err q.1, q.0)) sent,
      session_at-put_session_self i r.0 s0 u here,
      unfold put_session in refl,
      unfold put_session in refl,
      send_lem I F w.cfg.session (some (raw_packet bytes)) true t s0,
    )
