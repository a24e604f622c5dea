-- ===== src/Net/Examples/Sessions.antt =====
-- The theorems on sessions and packets, on the sessions of the examples.
use gcluster.Common.{◌≡◌, refl, true, false, some, [], ◌∷◌, length, arith}
use gcluster.Common.Int.{pos}
use gcluster.Common.Chan.{opened}
use gcluster.Net.Packet.{make_head, head_proto_type, payload_len}
use gcluster.Net.Packet.Laws.{read-make_head}
use gcluster.Net.ProtoType.{raw}
use gcluster.Net.Session.{send}
use gcluster.Net.Session.Send.{send_lem, IsSent}
use gcluster.Net.Session.Pending.{
  packet, pending_packet, pending_packet_found, pending_packet_empty, Quiet,
}
use gcluster.Net.Session.Wakeup.{
  Protocol, Step, Reach, here, next, start, first, selecting, call, miss_first, announce,
  miss_second, enqueue, load, signal, no_lost_wakeup,
}
use gcluster.Net.Examples.{ListQueue, ListQueue-IsFifo, limits, session_with, hello}

read-make_head_example :
    (head_proto_type (make_head raw 70000) ≡ raw)
    × (payload_len (make_head raw 70000) ≡ 70000)
    × (length (make_head raw 70000) ≡ 6)
read-make_head_example = read-make_head raw 70000 (omega arith, omega arith) (omega arith)

send_lem_example :
    IsSent ListQueue ListQueue-IsFifo limits
      (some hello)
      true
      (pos 1200)
      (session_with [])
      (send limits (some hello) true (pos 1200) (session_with []))
send_lem_example =
    send_lem ListQueue ListQueue-IsFifo limits (some hello) true (pos 1200) (session_with [])

pending_packet_found_example :
    let r = pending_packet 1 false (session_with (hello ∷ hello ∷ [])) in
    (r.1 ≡ packet hello true) × (r.0.pending.items ≡ hello ∷ []) × (r.0.wait_notify ≡ false)
unfolding pending_packet
pending_packet_found_example =
    pending_packet_found ListQueue ListQueue-IsFifo 0 false (session_with (hello ∷ hello ∷ []))
      hello (hello ∷ []) refl

pending_packet_empty_example :
    Quiet ListQueue ListQueue-IsFifo opened (pending_packet 2 false (session_with []))
pending_packet_empty_example =
    pending_packet_empty ListQueue ListQueue-IsFifo 0 false (session_with []) refl

-- A sender that comes while the reader goes to wait.
abbrev waiting_reader : Protocol
waiting_reader = record {
  queued = 1;
  wait_notify = true;
  notify = true;
  reader = selecting;
  enqueued = 0;
  notifying = 0;
}

waiting_reader-Reach : Reach start waiting_reader
waiting_reader-Reach =
    next
      (next
        (next
          (next (next (next (next here (call refl)) (miss_first refl refl)) (announce refl))
            (miss_second refl refl))
          enqueue)
        (load 0 refl))
      (signal 0 refl)

no_lost_wakeup_example :
    (u : Protocol) × Step waiting_reader u × (u.reader ≡ first) × (u.queued ≡ 1)
no_lost_wakeup_example = no_lost_wakeup waiting_reader-Reach refl (omega arith) refl
