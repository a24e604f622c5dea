-- ===== src/Net/Session/Send.antt =====
-- What sending does on every branch, over any queue that is a FIFO.
use gcluster.Common.{
  ◌≡◌, ◌≢◌, ◌⊎◌, Bool, true, false, Option, none, some, [], ◌∷◌, ◌++◌, arith, length, if◌then◌else◌,
}
use gcluster.Common.Int.{ℤ, leb_ℤ, pos, ◌≤ℤ◌, ◌<ℤ◌, leb_ℤ_iff, leb_ℤ_false, ltb_ℤ_iff, ltb_ℤ_false}
use gcluster.Net.Const.{state_started}
use gcluster.Net.Error.{Err, packet_nil, packet_length_overflow, pending_packets_full}
use gcluster.Net.Config.{SessionConfig}
use gcluster.Net.Packet.{Packet, packet_data}
use gcluster.Net.PacketQueue.{PacketQueue, IsFifo}
use gcluster.Net.Session.{Session, session_state_err, refresh_active_time, send_direct, send}

-- The time of the last activity never goes back, and is not before the time of the call.
pub refresh_active_time_latest :
    {I : PacketQueue} (now : ℤ) (s : Session I)
    → let s' = refresh_active_time now s in
      (s.last_active_time ≤ℤ s'.last_active_time)
      × (now ≤ℤ s'.last_active_time)
      × ((s'.last_active_time ≡ now) ⊎ (s'.last_active_time ≡ s.last_active_time))
unfolding refresh_active_time
refresh_active_time_latest now s =
    ground (arith, leb_ℤ_iff now s.last_active_time, leb_ℤ_false now s.last_active_time)

module _ (I : PacketQueue) (F : IsFifo I) where
  -- What a call leaves alone.
  abbrev pub SameSession : Session I → Session I → Type 0
  SameSession s t =
      (t.remote_node_id ≡ s.remote_node_id)
      × (t.active_end ≡ s.active_end)
      × (t.state ≡ s.state)
      × (t.core ≡ s.core)
      × (t.ch_close ≡ s.ch_close)
      × (t.tick_timer_id ≡ s.tick_timer_id)
      × (t.write_locked ≡ s.write_locked)
      × (t.wait_notify ≡ s.wait_notify)
      × (t.last_heartbeat_time ≡ s.last_heartbeat_time)

  send_direct_stored :
      (p : Packet) (r : Bool) (now : ℤ) (s : Session I)
      → (I.enqueue p s.pending).1 ≡ true
      → F.contents (send_direct p r now s).0.pending ≡ F.contents s.pending ++ p ∷ []
  unfolding send_direct
  send_direct_stored p r now s h = ground (arith, F.enqueue_stored p s.pending h)

  send_direct_refused :
      (p : Packet) (r : Bool) (now : ℤ) (s : Session I)
      → (I.enqueue p s.pending).1 ≡ false
      → F.contents (send_direct p r now s).0.pending ≡ F.contents s.pending
  unfolding send_direct
  send_direct_refused p r now s h = ground (arith, F.enqueue_refused p s.pending h)

  -- What a call that fails leaves alone.
  abbrev pub Unsent : Session I → Session I → Type 0
  Unsent s t =
      (F.contents t.pending ≡ F.contents s.pending)
      × (t.last_active_time ≡ s.last_active_time)
      × (t.notify ≡ s.notify)

  abbrev pub Fits : SessionConfig → Packet → Type 0
  Fits cfg p = pos (length (packet_data p)) ≤ℤ cfg.max_packet_length

  -- The time of the last activity after a call that sends.
  abbrev pub activity : Bool → ℤ → Session I → ℤ
  activity refresh now s =
      if refresh
      then (if leb_ℤ now s.last_active_time then s.last_active_time else now)
      else s.last_active_time

  -- How a call of send ends: without an error, or with one of four.
  abbrev pub IsSent :
      SessionConfig → Option Packet → Bool → ℤ → Session I → Session I × Option Err → Type 0
  IsSent cfg none r now s (s', e) = (e ≡ some packet_nil) × Unsent s s' × SameSession s s'
  IsSent cfg (some p) r now s (s', e) =
      (((e ≡ none)
          × Fits cfg p
          × (s.state ≡ state_started)
          × (F.contents s'.pending ≡ F.contents s.pending ++ p ∷ [])
          × (s'.notify ≡ (if s.wait_notify then true else s.notify))
          × (s'.last_active_time ≡ activity r now s))
        ⊎ ((e ≡ some packet_length_overflow)
            × (cfg.max_packet_length <ℤ pos (length (packet_data p)))
            × Unsent s s')
        ⊎ ((e ≡ some (session_state_err s.state))
            × Fits cfg p
            × (s.state ≢ state_started)
            × Unsent s s')
        ⊎ ((e ≡ some pending_packets_full)
            × Fits cfg p
            × (s.state ≡ state_started)
            × ((I.enqueue p s.pending).1 ≡ false)
            × Unsent s s'))
      × SameSession s s'

  -- A call sends the packet and returns no error: the packet fits, the session is started, the
  -- packet is queued last, a reader that waits is signalled, and if the call is to refresh it, the
  -- time of the last activity is that of the call unless it is later already. Or it returns one of
  -- four errors, by the first that applies: the packet is nil, the packet is too long, the session
  -- is not started, the queue refuses the packet; then the queued packets, the signal and the time
  -- of the last activity stay as they were. In each case the rest of the session stays as it was,
  -- and so does the flag of the reader that waits.
  pub send_lem :
      (cfg : SessionConfig) (p : Option Packet) (r : Bool) (now : ℤ) (s : Session I)
      → IsSent cfg p r now s (send cfg p r now s)
  unfolding send
  send_lem cfg none r now s = ground arith
  send_lem cfg (some p) r now s = ground (
    arith,
    F.enqueue_stored p s.pending,
    F.enqueue_refused p s.pending,
    ltb_ℤ_iff cfg.max_packet_length (pos (length (packet_data p))),
    ltb_ℤ_false cfg.max_packet_length (pos (length (packet_data p))),
  )
