-- ===== src/Net/SessionIo/Delivery.antt =====
-- SessionWritePacket: what it lays on the connection.
use mathlib.Core.List.{append_assoc, append-nil}
use gcluster.Common.{
  ◌%◌, ◌^◌, ◌<◌, ◌≡◌, ◌⊎◌, ◌∙◌, sym, ap, refl, Bool, true, false, [], ◌++◌, ltb, length, arith,
  Bool-cases, inl, inr,
}
use gcluster.Common.Int.{eqb_ℤ}
use gcluster.Common.Bytes.{Bytes}
use gcluster.Net.BufferIo.{BufferIo, IsBuffer, IsWriter}
use gcluster.Net.Config.{SessionConfig}
use gcluster.Net.Packet.{
  Packet, heartbeat_packet, close_req_packet, close_resp_packet, raw_packet, packet_data,
  packet_proto_type, make_head,
}
use gcluster.Net.ProtoType.{for_communicating}
use gcluster.Net.SessionIo.{
  encode, IoErr, IoEnd, got, failed, LoopEnd, complete, stopped, cut_short, write_packet_head,
  write_packet_payload, write_from_buffer_failed,
}
use gcluster.Net.SessionIo.Rounds.{empty_of_length}
use gcluster.Net.SessionIo.Output.{
  Output, write_from_buffer, write_full, and_then, finish_write, write_payload,
  session_write_packet,
}
use gcluster.Net.SessionIo.Flushing.{laid, IsFlushed, write_from_buffer-IsFlushed}
use gcluster.Net.SessionIo.Writing.{IsTaken, write_full-IsTaken}

-- Each packet that a session has is of a type for communicating.
for_communicating-packet : (p : Packet) → for_communicating (packet_proto_type p) ≡ true
unfolding for_communicating packet_proto_type eqb_ℤ
for_communicating-packet (heartbeat_packet b) = refl
for_communicating-packet close_req_packet = refl
for_communicating-packet (close_resp_packet b) = refl
for_communicating-packet (raw_packet bs) = refl

module _ {B : BufferIo} (F : IsBuffer B) (W : IsWriter B F) where
  -- How a call that writes `bs` ends. Without an error all of it is taken in, and unless more packets
  -- follow the buffer is empty; with one, a part from its front.
  abbrev pub IsDelivered : Bytes → Bool → Output B → Output B × IoEnd (Unit {0}) → Type 0
  IsDelivered bs more o (o', end) =
      (some_bytes : Bytes) × (left : Bytes) × (bs ≡ some_bytes ++ left)
      × (laid F W o' ≡ laid F W o ++ some_bytes)
      × (F.size o'.buffer ≡ F.size o.buffer)
      × (((end ≡ got tt) × (left ≡ []) × ((more ≡ true) ⊎ (F.contents o'.buffer ≡ [])))
          ⊎ ((e : IoErr) × (end ≡ failed e)))

  IsFlushed-IsDelivered :
      (o : Output B) (r : Output B × LoopEnd)
      → IsFlushed F W o r
      → IsDelivered [] false o (and_then write_from_buffer_failed (λ o1. (o1, got tt)) r)
  IsFlushed-IsDelivered o (o', complete) (l, z, inl (e, none_left)) =
      ([], [], refl, l ∙ sym (append-nil (laid F W o)), z, inl (refl, refl, inr none_left))
  IsFlushed-IsDelivered o (o', stopped) (l, z, c) =
      ([], [], refl, l ∙ sym (append-nil (laid F W o)), z, inr (write_from_buffer_failed, refl))
  IsFlushed-IsDelivered o (o', complete) (l, z, inr e) = absurd (cc)
  IsFlushed-IsDelivered o (o', cut_short) (l, z, c) = absurd (ground (arith, c))

  finish_write-IsDelivered :
      (cfg : SessionConfig) (more : Bool) (o : Output B)
      → IsDelivered [] more o (finish_write cfg more o)
  unfolding finish_write
  finish_write-IsDelivered cfg true o =
      ([], [], refl, sym (append-nil (laid F W o)), refl, inl (refl, refl, inl refl))
  finish_write-IsDelivered cfg false o =
      let same = sym (append-nil (laid F W o)) in
      elim (Bool-cases (ltb 0 (B.readable o.buffer))) [
        | inr k ↦ rw k (
          [],
          [],
          refl,
          same,
          refl,
          inl (
            refl,
            refl,
            inr (
                empty_of_length (F.contents o.buffer) (ground (arith, k, F.readable_lem o.buffer))),
          ),
        )
        | inl k ↦ rw k (
            IsFlushed-IsDelivered o (write_from_buffer cfg.read_write_timeout o)
              (write_from_buffer-IsFlushed F W cfg.read_write_timeout o))
      ]

  same_bytes :
      (xs ys : Bytes) (more : Bool) (o : Output B) (r : Output B × IoEnd (Unit {0}))
      → ys ≡ xs
      → IsDelivered xs more o r
      → IsDelivered ys more o r
  same_bytes xs ys more o (o', end) e (bs, left, split, l, z, c) = (bs, left, e ∙ split, l, z, c)

  and_then-IsDelivered :
      (err : IoErr) (next : Output B → Output B × IoEnd (Unit {0})) (more : Bool) (xs ys : Bytes)
      (o : Output B) (r : Output B × LoopEnd)
      → IsTaken F W xs o r
      → ((o' : Output B) → F.size o'.buffer ≡ F.size o.buffer → IsDelivered ys more o' (next o'))
      → IsDelivered (xs ++ ys) more o (and_then err next r)
  and_then-IsDelivered err next more xs ys o (o', complete) (bs, left, split, l, z, inl (e, gone))
        later =
      let (bs', left', split', l', z', c) = later o' z in
      let whole : xs ≡ bs = split ∙ ap (λ x. bs ++ x) gone ∙ append-nil bs in
      (
        bs ++ bs',
        left',
        ap (λ x. x ++ ys) whole ∙ ap (λ x. bs ++ x) split' ∙ sym (append_assoc bs bs' left'),
        l' ∙ ap (λ x. x ++ bs') l ∙ append_assoc (laid F W o) bs bs',
        z' ∙ z,
        c,
      )
  and_then-IsDelivered err next more xs ys o (o', complete) (bs, left, split, l, z, inr e) later =
      absurd (cc)
  and_then-IsDelivered err next more xs ys o (o', stopped) (bs, left, split, l, z, c) later =
      (bs, left ++ ys, ap (λ x. x ++ ys) split ∙ append_assoc bs left ys, l, z, inr (err, refl))
  and_then-IsDelivered err next more xs ys o (o', cut_short) (bs, left, split, l, z, c) later =
      absurd (ground (arith, c))

  write_payload-IsDelivered :
      (cfg : SessionConfig) (payload : Bytes) (more : Bool) (o : Output B)
      → length payload < 2 ^ 32
      → 0 < F.size o.buffer
      → IsDelivered payload more o (write_payload cfg payload more o)
  unfolding write_payload
  write_payload-IsDelivered cfg payload more o h some_size =
      elim (Bool-cases (ltb 0 (length payload % 2 ^ 32))) [
        | inl k ↦ rw k (
            same_bytes (payload ++ []) payload more o
              (and_then write_packet_payload (finish_write cfg more) (write_full cfg payload o))
              (sym (append-nil payload))
              (and_then-IsDelivered write_packet_payload (finish_write cfg more) more payload [] o
                (write_full cfg payload o) (write_full-IsTaken F W cfg payload o some_size)
                (λ o' z. finish_write-IsDelivered cfg more o')))
        | inr k ↦
            let nothing : payload ≡ [] = empty_of_length payload (ground (arith, k, h)) in
            rw (k, nothing) (finish_write-IsDelivered cfg more o)
      ]

  -- SessionWritePacket always returns. Without an error the whole packet as it is on the wire has been
  -- taken in behind what was taken in before, and unless more packets follow all of it is sent; with
  -- an error, a part from its front has.
  pub session_write_packet-IsDelivered :
      (cfg : SessionConfig) (p : Packet) (more : Bool) (o : Output B)
      → length (packet_data p) < 2 ^ 32
      → 0 < F.size o.buffer
      → IsDelivered (encode p) more o (session_write_packet cfg p more o)
  unfolding session_write_packet encode
  session_write_packet-IsDelivered cfg p more o h some_size =
      let head = make_head (packet_proto_type p) (length (packet_data p) % 2 ^ 32) in
      rw (for_communicating-packet p) (
        and_then-IsDelivered write_packet_head (write_payload cfg (packet_data p) more) more head
          (packet_data p) o (write_full cfg head o) (write_full-IsTaken F W cfg head o some_size)
          (λ o' z. write_payload-IsDelivered cfg (packet_data p) more o' h (rw z some_size)))
