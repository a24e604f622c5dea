-- ===== src/Cluster/Examples.antt =====
-- The theorems on agents, on the service of the examples.
use gcluster.Common.{◌≡◌, refl, Option, none, some, [], ◌∷◌}
use gcluster.Common.Int.{pos}
use gcluster.Common.Bytes.{Bytes, bytes_eq}
use gcluster.Common.Assoc.{lookup}
use gcluster.Net.Examples.{ListQueue, ListQueue-IsFifo, limits, service_a, session_with, node_b}
use gcluster.Net.Establish.Stale.{run_alone}
use gcluster.Common.{true}
use gcluster.Net.Error.{Err}
use gcluster.Net.Packet.{raw_packet}
use gcluster.Net.Session.{Session, refresh_active_time}
use gcluster.Net.Session.Send.{IsSent}
use gcluster.Net.Service.{Service, check_state, session_at}
use gcluster.Cluster.{send_to_node, of_err}
use gcluster.Cluster.Sending.{send_to_node_known}

-- A centre that knows no node.
abbrev empty_center : Bytes → Option Bytes
empty_center k = none

send_to_node_known_example :
    (s' : Session ListQueue) × (e : Option Err) × (v : Service ListQueue) × (run_alone
        (pos 2000)
        (send_to_node empty_center none node_b (104 ∷ []))
        service_a
      ≡ some (of_err e, v))
    × (session_at 0 v ≡ some s')
    × (v.sessions ≡ service_a.sessions)
    × (v.effects ≡ service_a.effects)
    × IsSent ListQueue ListQueue-IsFifo limits
        (some (raw_packet (104 ∷ [])))
        true
        (pos 2000)
        (refresh_active_time (pos 2000) (session_with []))
        (s', e)
unfolding session_at check_state lookup bytes_eq
send_to_node_known_example =
    send_to_node_known ListQueue ListQueue-IsFifo (pos 2000) empty_center none node_b (104 ∷ []) 0
      (session_with []) service_a refl refl refl refl
