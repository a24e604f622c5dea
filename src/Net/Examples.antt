-- ===== src/Net/Examples.antt =====
-- Concrete values on which the theorems are run: a bounded queue of packets as a list, sessions, and
-- services of the nodes "a" (1 byte, 97) and "b".
pub mod Sessions
pub mod Services
pub mod Establishments
pub mod Configs
pub mod Goroutines
pub mod Handshakes
pub mod Heaps
pub mod Timers
pub mod Pipes
pub mod Transports
use gcluster.Common.{
  ℕ, ◌≡◌, ap, refl, Bool, true, false, Option, none, some, some-injective, List, [], ◌∷◌, ◌++◌,
  length, arith, if◌then◌else◌,
}
use gcluster.Common.Int.{ℤ, pos, ltb_ℤ}
use gcluster.Common.Bytes.{Bytes}
use gcluster.Common.Chan.{Chan, opened}
use gcluster.Net.Const.{LifeState, state_started}
use gcluster.Net.Config.{SessionConfig, HandshakeConfig, ServiceConfig}
use gcluster.Net.Packet.{Packet, raw_packet}
use gcluster.Net.PacketQueue.{PacketQueue, IsFifo}
use gcluster.Net.Ref.{SessionRef, local_session, remote_session}
use gcluster.Net.Session.{Session}
use gcluster.Net.Service.{Service}

pub record Bounded : Type 0 where
  pub limit : ℤ
  pub items : List Packet

abbrev pub put : Packet → Bounded → Bounded × Bool
put p q =
    if ltb_ℤ (pos (length q.items)) q.limit
    then (record q { items = q.items ++ p ∷ [] }, true)
    else (q, false)

abbrev pub get_items : ℤ → List Packet → Bounded × Option Packet
get_items limit [] = (record { limit = limit; items = [] }, none)
get_items limit (p ∷ ps) = (record { limit = limit; items = ps }, some p)

-- A queue that refuses a packet when it holds `limit` of them.
abbrev pub ListQueue : PacketQueue
ListQueue = record {
  Queue = Bounded;
  new_queue = λ n m. record { limit = m; items = [] };
  enqueue = put;
  dequeue = λ q. get_items q.limit q.items;
  ready = λ q. length q.items;
  close_queue = λ q. q;
}

pub put-stored :
    (p : Packet) (q : Bounded) → (put p q).1 ≡ true → (put p q).0.items ≡ q.items ++ p ∷ []
put-stored p q h = ground arith

pub put-refused : (p : Packet) (q : Bounded) → (put p q).1 ≡ false → (put p q).0.items ≡ q.items
put-refused p q h = ground arith

pub get_items-front :
    (limit : ℤ) (p : Packet) (ps : List Packet)
    → (get_items limit ps).1 ≡ some p
    → ps ≡ p ∷ (get_items limit ps).0.items
get_items-front limit p [] h = absurd (cc)
get_items-front limit p (x ∷ ps) h = ap (λ y. y ∷ ps) (some-injective _ _ h)

pub get_items-empty :
    (limit : ℤ) (ps : List Packet)
    → (get_items limit ps).1 ≡ none
    → (ps ≡ []) × ((get_items limit ps).0.items ≡ [])
get_items-empty limit [] h = (refl, refl)
get_items-empty limit (x ∷ ps) h = absurd (cc)

abbrev pub ListQueue-IsFifo : IsFifo ListQueue
ListQueue-IsFifo = record {
  contents = λ q. q.items;
  contents-new = λ n m. refl;
  enqueue_stored = put-stored;
  enqueue_refused = put-refused;
  dequeue_front = λ p q. get_items-front q.limit p q.items;
  dequeue_empty = λ q. get_items-empty q.limit q.items;
}

abbrev pub node_a : Bytes
node_a = 97 ∷ []

abbrev pub node_b : Bytes
node_b = 98 ∷ []

abbrev pub limits : SessionConfig
limits = record {
  pending_packet_queue_size = pos 2;
  max_packet_length = pos 8;
  read_buf_size = pos 16;
  write_buf_size = pos 16;
  read_write_timeout = pos 60;
  batch_write_limit = pos 10;
  batch_write_time_lmit = pos 1000;
  tick_interval = pos 20;
  heartbeat_timeout = pos 30;
  inactive_timeout = pos 100;
}

abbrev pub node_config : ServiceConfig
node_config = record {
  node_id = node_a;
  addr = 49 ∷ [];
  handshake = record { token = 116 ∷ []; timeout = pos 5 };
  session = limits;
  dialer = some 1;
  listener_creator = some 2;
  timer_system = some 3;
  expected_concurrent_sessions = pos 10;
}

-- A started session with the node "b", on which `packets` wait to be written.
abbrev pub session_with : List Packet → Session ListQueue
session_with packets = record {
  remote_node_id = node_b;
  active_end = true;
  write_locked = false;
  state = state_started;
  ch_close = opened;
  core = some 7;
  pending = record { limit = pos 2; items = packets };
  notify = false;
  wait_notify = true;
  tick_timer_id = 5;
  last_active_time = pos 1000;
  last_heartbeat_time = pos 0;
}

abbrev pub hello : Packet
hello = raw_packet (104 ∷ 105 ∷ [])

-- A started service on node "a" with one session, with the node "b".
abbrev pub service_a : Service ListQueue
service_a = record {
  cfg = node_config;
  state = state_started;
  listening = true;
  sessions = (node_b, remote_session 0) ∷ (node_a, local_session) ∷ [];
  establishments = [];
  c_tick_sessions = [];
  c_closed = opened;
  session_heap = session_with [] ∷ [];
  establishment_heap = [];
  effects = [];
}
