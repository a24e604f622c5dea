-- ===== src/Net/SessionIo/Sequences.antt =====
-- SessionWritePacket at one end of a connection and SessionReadPacket at the other, one packet after
-- another.
use mathlib.Core.List.{append_assoc, append-nil}
use gcluster.Common.{
  ℕ, zero, suc, ◌<◌, ◌≡◌, ◌∙◌, sym, ap, refl, Bool, false, List, [], ◌∷◌, ◌++◌, inl, inr,
}
use gcluster.Common.Bytes.{Bytes}
use gcluster.Net.BufferIo.{BufferIo, IsBuffer, IsWriter}
use gcluster.Net.Config.{SessionConfig}
use gcluster.Net.Packet.{Packet}
use gcluster.Net.SessionIo.{encode, Input, IoEnd, got, failed, out_of_fuel, session_read_packet}
use gcluster.Net.SessionIo.Reading.{IsAllowed, length_allowed}
use gcluster.Net.SessionIo.Output.{Output, session_write_packet}
use gcluster.Net.SessionIo.Flushing.{laid}
use gcluster.Net.SessionIo.Delivery.{IsDelivered, session_write_packet-IsDelivered}

abbrev pub encode_all : List Packet → Bytes
encode_all [] = []
encode_all (p ∷ ps) = encode p ++ encode_all ps

abbrev pub AllAllowed : SessionConfig → List Packet → Type 0
AllAllowed cfg [] = Unit
AllAllowed cfg (p ∷ ps) = IsAllowed cfg p × AllAllowed cfg ps

-- The packets of a queue, with whether more packets follow, and then the last one.
abbrev pub queued : List (Packet × Bool) → Packet → List Packet
queued [] p = p ∷ []
queued ((q, _) ∷ qs) p = q ∷ queued qs p

module _ {B : BufferIo} where
  -- What is written next, unless there was an error.
  abbrev then_write :
      (Output B → Output B × IoEnd (Unit {0}))
      → Output B × IoEnd (Unit {0})
      → Output B × IoEnd (Unit {0})
  then_write next (o, got _) = next o
  then_write next (o, failed e) = (o, failed e)
  then_write next (o, out_of_fuel) = (o, out_of_fuel)

  -- Packets that are written one after another, up to the first error.
  unfoldable pub write_packets :
      SessionConfig → List (Packet × Bool) → Packet → Output B → Output B × IoEnd (Unit {0})
  unfolding session_write_packet
  write_packets cfg [] p o = session_write_packet cfg p false o
  write_packets cfg ((q, more) ∷ qs) p o =
      then_write (write_packets cfg qs p) (session_write_packet cfg q more o)

  -- A packet in front of those that are read later.
  abbrev pub then_read :
      (Input B → Input B × List Packet × IoEnd (Unit {0}))
      → Input B × IoEnd Packet
      → Input B × List Packet × IoEnd (Unit {0})
  then_read next (s, got p) = let (s', ps, e) = next s in (s', p ∷ ps, e)
  then_read next (s, failed e) = (s, [], failed e)
  then_read next (s, out_of_fuel) = (s, [], out_of_fuel)

  -- As many packets as are asked for, up to the first error.
  unfoldable pub read_packets :
      SessionConfig → ℕ → Input B → Input B × List Packet × IoEnd (Unit {0})
  unfolding session_read_packet
  read_packets cfg zero s = (s, [], got tt)
  read_packets cfg (suc n) s = then_read (read_packets cfg n) (session_read_packet cfg s)

module _ {B : BufferIo} (F : IsBuffer B) (W : IsWriter B F) where
  then_write-IsDelivered :
      (next : Output B → Output B × IoEnd (Unit {0})) (m more : Bool) (xs ys : Bytes) (o : Output B)
      (r : Output B × IoEnd (Unit {0}))
      → IsDelivered F W xs m o r
      → ((o' : Output B)
          → F.size o'.buffer ≡ F.size o.buffer
          → IsDelivered F W ys more o' (next o'))
      → IsDelivered F W (xs ++ ys) more o (then_write next r)
  then_write-IsDelivered next m more xs ys o (o', got _) (bs, left, split, l, z, inl (e, gone, _))
        later =
      let (bs', left', split', l', z', c) = later o' z in
      let whole : xs ≡ bs = split ∙ ap (λ x. bs ++ x) gone ∙ append-nil bs in
      (
        bs ++ bs',
        left',
        ap (λ x. x ++ ys) whole ∙ ap (λ x. bs ++ x) split' ∙ sym (append_assoc bs bs' left'),
        l' ∙ ap (λ x. x ++ bs') l ∙ append_assoc (laid F W o) bs bs',
        z' ∙ z,
        c,
      )
  then_write-IsDelivered next m more xs ys o (o', got _) (bs, left, split, l, z, inr (err, e))
        later =
      absurd (cc)
  then_write-IsDelivered next m more xs ys o (o', failed err) (bs, left, split, l, z, c) later =
      (bs, left ++ ys, ap (λ x. x ++ ys) split ∙ append_assoc bs left ys, l, z, inr (err, refl))
  then_write-IsDelivered next m more xs ys o (o', out_of_fuel)
        (bs, left, split, l, z, inl (e, _, _)) later =
      absurd (cc)
  then_write-IsDelivered next m more xs ys o (o', out_of_fuel) (bs, left, split, l, z, inr (err, e))
        later =
      absurd (cc)

  -- What is written of the packets, whatever becomes of the connection, is a prefix of what they are on
  -- the wire, in their order; without an error it is all of it, and all of it has left the buffer.
  pub write_packets-IsDelivered :
      (cfg peer : SessionConfig) (qs : List (Packet × Bool)) (p : Packet) (o : Output B)
      → AllAllowed peer (queued qs p)
      → 0 < F.size o.buffer
      → IsDelivered F W (encode_all (queued qs p)) false o (write_packets cfg qs p o)
  unfolding write_packets
  write_packets-IsDelivered cfg peer [] p o (h, _) some_size =
      rw (append-nil (encode p))
        (session_write_packet-IsDelivered F W cfg p false o (length_allowed peer p h) some_size)
  write_packets-IsDelivered cfg peer ((q, more) ∷ qs) p o (h, hs) some_size =
      then_write-IsDelivered (write_packets cfg qs p) more false (encode q)
        (encode_all (queued qs p)) o (session_write_packet cfg q more o)
        (session_write_packet-IsDelivered F W cfg q more o (length_allowed peer q h) some_size)
        (λ o' z. write_packets-IsDelivered cfg peer qs p o' hs (rw z some_size))
