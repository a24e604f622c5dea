-- ===== src/Net/Session/Pending.antt =====
-- net/session.go, SessionPendingPacket: the writer of the connection takes the next packet.
use gcluster.Common.{
  ℕ, zero, suc, ◌≡◌, refl, Bool, true, false, Option, none, some, List, [], ◌∷◌, arith, ltb, inl,
  inr, Option-cases, if◌then◌else◌,
}
use gcluster.Common.Chan.{Chan, is_closed_chan}
use gcluster.Net.Error.{Err, session_closed}
use gcluster.Net.Packet.{Packet}
use gcluster.Net.PacketQueue.{PacketQueue, IsFifo}
use gcluster.Net.Session.{Session}

-- How the call ends when nobody else runs: with a packet and whether more are ready, with an
-- error, or waiting for a signal. `out_of_fuel` stands for a loop that was cut short.
pub data Pending : Type 0 where
  packet : Packet → Bool → Pending
  failed : Err → Pending
  waits : Pending
  out_of_fuel : Pending

module _ {I : PacketQueue} where
  -- Dequeue, and on success clear waitNotify.
  unfoldable pub take_pending : Session I → Session I × Option Packet
  take_pending s =
      let (q, p) = I.dequeue s.pending in
      elim p [
        | none ↦ (record s { pending = q }, none)
        | some x ↦ (record s { pending = q; wait_notify = false }, some x)
      ]

  abbrev pub more : Session I → Bool
  more s = ltb 0 (I.ready s.pending)

  -- One pass of the loop up to the select: dequeue, announce the wait, dequeue again.
  unfoldable pub pending_pass : Session I → Session I × Option Packet
  unfolding take_pending
  pending_pass s =
      let (s1, p) = take_pending s in
      elim p [ some x ↦ (s1, some x) | none ↦ take_pending (record s1 { wait_notify = true }) ]

  -- The loop. Where both the signal and the close are ready, `prefer_close` chooses.
  unfoldable pub pending_packet : ℕ → Bool → Session I → Session I × Pending
  unfolding pending_pass
  pending_packet zero prefer_close s = (s, out_of_fuel)
  pending_packet (suc fuel) prefer_close s =
      let s1 = (pending_pass s).0 in
      let again = pending_packet fuel prefer_close (record s1 { notify = false }) in
      let closes = is_closed_chan s1.ch_close in
      elim (pending_pass s).1 [
        | some x ↦ (s1, packet x (more s1))
        | none ↦
            if s1.notify
            then if closes
              then if prefer_close then (s1, failed session_closed) else again
              else again
            else if closes
            then (s1, failed session_closed)
            else (s1, waits)
      ]

module _ (I : PacketQueue) (F : IsFifo I) where
  pending_pass_found :
      (s : Session I) (x : Packet) (xs : List Packet)
      → F.contents s.pending ≡ x ∷ xs
      → ((pending_pass s).1 ≡ some x)
        × (F.contents (pending_pass s).0.pending ≡ xs)
        × ((pending_pass s).0.wait_notify ≡ false)
  unfolding pending_pass
  pending_pass_found s x xs h = elim (Option-cases (I.dequeue s.pending).1) [
    | inl e ↦ ground (arith, F.dequeue_empty s.pending e)
    | inr (y, e) ↦ ground (arith, F.dequeue_front y s.pending e)
  ]

  pending_pass_empty :
      (s : Session I)
      → F.contents s.pending ≡ []
      → ((pending_pass s).1 ≡ none)
        × (F.contents (pending_pass s).0.pending ≡ [])
        × ((pending_pass s).0.wait_notify ≡ true)
        × ((pending_pass s).0.notify ≡ s.notify)
        × ((pending_pass s).0.ch_close ≡ s.ch_close)
  unfolding pending_pass
  pending_pass_empty s h = elim (Option-cases (I.dequeue s.pending).1) [
    | inr (y, e) ↦ ground (arith, F.dequeue_front y s.pending e)
    | inl e ↦ elim (Option-cases (I.dequeue (I.dequeue s.pending).0).1) [
      | inr (y, k) ↦
          ground (arith, F.dequeue_empty s.pending e, F.dequeue_front y (I.dequeue s.pending).0 k)
      | inl k ↦
          ground (arith, F.dequeue_empty s.pending e, F.dequeue_empty (I.dequeue s.pending).0 k)
    ]
  ]

  -- Where packets are queued the writer gets the oldest, at once and whatever else is signalled;
  -- the others stay queued in their order, and it no longer waits.
  pub pending_packet_found :
      (fuel : ℕ) (prefer_close : Bool) (s : Session I) (x : Packet) (xs : List Packet)
      → F.contents s.pending ≡ x ∷ xs
      → let r = pending_packet (suc fuel) prefer_close s in
        (r.1 ≡ packet x (ltb 0 (I.ready r.0.pending)))
        × (F.contents r.0.pending ≡ xs)
        × (r.0.wait_notify ≡ false)
  unfolding pending_packet
  pending_packet_found fuel c s x xs h = ground (arith, pending_pass_found s x xs h)

  abbrev pub Quiet : Chan → Session I × Pending → Type 0
  Quiet c r =
      (r.1 ≡ (if is_closed_chan c then failed session_closed else waits))
      × (F.contents r.0.pending ≡ [])
      × (r.0.wait_notify ≡ true)

  pending_packet-Quiet :
      (fuel : ℕ) (prefer_close : Bool) (s : Session I)
      → F.contents s.pending ≡ []
      → s.notify ≡ false
      → Quiet s.ch_close (pending_packet (suc fuel) prefer_close s)
  unfolding pending_packet
  pending_packet-Quiet fuel c s h q = ground (arith, pending_pass_empty s h)

  -- Where nothing is queued two rounds are enough: the writer ends by the close of the session if
  -- its channel is closed, and otherwise waits, announced as waiting and with the signal consumed.
  pub pending_packet_empty :
      (fuel : ℕ) (prefer_close : Bool) (s : Session I)
      → F.contents s.pending ≡ []
      → Quiet s.ch_close (pending_packet (suc (suc fuel)) prefer_close s)
  unfolding pending_packet
  pending_packet_empty fuel c s h =
      let first = pending_pass_empty s h in
      let s1 = (pending_pass s).0 in
      ground (arith, first, pending_packet-Quiet fuel c (record s1 { notify = false }) first.1 refl)
