-- ===== src/Net/SessionIo/Transport.antt =====
-- The two ends of a connection together.
use mathlib.Core.List.{append_assoc, append-nil}
use gcluster.Common.{◌<◌, ◌≡◌, ◌∙◌, sym, ap, Bool, false, List, [], ◌++◌, length, arith, inl, inr}
use gcluster.Common.Int.{ℤ, pos, negsuc, ◌<ℤ◌}
use gcluster.Common.Bytes.{Bytes}
use gcluster.Net.BufferIo.{BufferIo, IsBuffer, IsReader, IsWriter}
use gcluster.Net.Config.{SessionConfig}
use gcluster.Net.Config.Laws.{IsSessionConfig}
use gcluster.Net.Packet.{Packet}
use gcluster.Net.SessionIo.{Input, new_input, IoEnd, got}
use gcluster.Net.SessionIo.Rounds.{pending}
use gcluster.Net.SessionIo.Output.{Output, new_output}
use gcluster.Net.SessionIo.Flushing.{laid}
use gcluster.Net.SessionIo.Delivery.{IsDelivered}
use gcluster.Net.SessionIo.Sequences.{
  encode_all, AllAllowed, queued, write_packets, read_packets, write_packets-IsDelivered,
}
use gcluster.Net.SessionIo.Fifo.{IsPrefix, read_packets-IsPrefix, GivesAll, read_packets-GivesAll}

module _ {B : BufferIo} (F : IsBuffer B) (W : IsWriter B F) (R : IsReader B F) where
  IsDelivered-IsPrefix :
      (peer : SessionConfig) (ps : List Packet) (lost : Bytes) (more : Bool) (o : Output B)
      (r : Output B × IoEnd (Unit {0})) (s : Input B)
      → AllAllowed peer ps
      → laid F W o ≡ []
      → pending F R s ++ lost ≡ laid F W r.0
      → IsDelivered F W (encode_all ps) more o r
      → (left : Bytes) × IsPrefix F R (lost ++ left) ps [] (read_packets peer (length ps) s)
  IsDelivered-IsPrefix peer ps lost more o (o', end) s ok fresh arrives (bs, left, split, l, z, c) =
      (
        left,
        read_packets-IsPrefix F R (lost ++ left) peer ps [] s ok (
            sym (append_assoc (pending F R s) lost left)
            ∙ ap (λ x. x ++ left) (arrives ∙ l ∙ ap (λ x. x ++ bs) fresh)
            ∙ sym split
            ∙ sym (append-nil (encode_all ps))),
      )

  new_buffer-size : (z : ℤ) → pos 0 <ℤ z → 0 < F.size (B.new_buffer z)
  new_buffer-size (pos n) h = let e = F.new_size n in omega (arith, e, h)
  new_buffer-size (negsuc n) h = absurd (omega (arith, h))

  new_buffer-contents : (z : ℤ) → pos 0 <ℤ z → F.contents (B.new_buffer z) ≡ []
  new_buffer-contents (pos n) h = F.new_contents n
  new_buffer-contents (negsuc n) h = absurd (omega (arith, h))

  new_output-laid :
      (cfg : SessionConfig) (w : B.Writer)
      → IsSessionConfig cfg
      → W.sent w ≡ []
      → laid F W (new_output {B = B} cfg w) ≡ []
  new_output-laid cfg w c fresh =
      ap (λ x. x ++ F.contents (B.new_buffer cfg.write_buf_size)) fresh
      ∙ new_buffer-contents cfg.write_buf_size c.write_buf

  new_input-pending :
      (cfg : SessionConfig) (r : B.Reader)
      → IsSessionConfig cfg
      → pending F R (new_input {B = B} cfg r) ≡ R.stream r
  new_input-pending cfg r c =
      ap (λ x. x ++ R.stream r) (new_buffer-contents cfg.read_buf_size c.read_buf)

  -- Packets are written on a new connection, whatever becomes of it, and all that arrives at the other
  -- end is a prefix of the bytes sent: then the packets that are read are a prefix of those written,
  -- in their order. The packets are allowed at the other end, and both configurations keep their
  -- limits.
  pub write_packets-IsPrefix :
      (cfg peer : SessionConfig) (qs : List (Packet × Bool)) (p : Packet) (w : B.Writer)
      (r : B.Reader) (lost : Bytes)
      → IsSessionConfig cfg
      → IsSessionConfig peer
      → AllAllowed peer (queued qs p)
      → W.sent w ≡ []
      → R.stream r ++ lost ≡ W.sent (write_packets cfg qs p (new_output {B = B} cfg w)).0.writer
      → (missing : Bytes) × IsPrefix F R missing
          (queued qs p)
          []
          (read_packets peer (length (queued qs p)) (new_input {B = B} peer r))
  write_packets-IsPrefix cfg peer qs p w r lost c c' ok fresh arrives =
      let o = new_output {B = B} cfg w in
      let unsent = F.contents (write_packets cfg qs p o).0.buffer in
      let (left, h) =
        IsDelivered-IsPrefix peer (queued qs p) (lost ++ unsent) false o (write_packets cfg qs p o)
          (new_input {B = B} peer r) ok (new_output-laid cfg w c fresh)
          (ap (λ x. x ++ (lost ++ unsent)) (new_input-pending peer r c')
            ∙ sym (append_assoc (R.stream r) lost unsent)
            ∙ ap (λ x. x ++ unsent) arrives)
          (write_packets-IsDelivered F W cfg peer qs p o ok
            (new_buffer-size cfg.write_buf_size c.write_buf)) in
      ((lost ++ unsent) ++ left, h)

  IsDelivered-sent :
      (bs : Bytes) (o : Output B) (r : Output B × IoEnd (Unit {0}))
      → laid F W o ≡ []
      → r.1 ≡ got tt
      → IsDelivered F W bs false o r
      → W.sent r.0.writer ≡ bs
  IsDelivered-sent bs o (o', end) fresh e
        (some_bytes, left, split, l, z, inl (_, gone, inr none_left)) =
      sym (append-nil (W.sent o'.writer))
      ∙ ap (λ x. W.sent o'.writer ++ x) (sym none_left)
      ∙ l
      ∙ ap (λ x. x ++ some_bytes) fresh
      ∙ sym (append-nil some_bytes)
      ∙ ap (λ x. some_bytes ++ x) (sym gone)
      ∙ sym split
  IsDelivered-sent bs o (o', end) fresh e (some_bytes, left, split, l, z, inl (_, gone, inl k)) =
      absurd (ground (arith, k))
  IsDelivered-sent bs o (o', end) fresh e (some_bytes, left, split, l, z, inr (err, k)) =
      absurd (cc)

  -- Packets that are written without an error on a new connection, the last of them with no more to
  -- follow, are read at the other end, all of them and in their order, where the connection hands over
  -- what was sent and does not fail. The packets are allowed there, and both configurations keep their
  -- limits.
  pub write_packets-read_packets :
      (cfg peer : SessionConfig) (qs : List (Packet × Bool)) (p : Packet) (w : B.Writer)
      (r : B.Reader)
      → IsSessionConfig cfg
      → IsSessionConfig peer
      → AllAllowed peer (queued qs p)
      → W.sent w ≡ []
      → (write_packets cfg qs p (new_output {B = B} cfg w)).1 ≡ got tt
      → R.stream r ≡ W.sent (write_packets cfg qs p (new_output {B = B} cfg w)).0.writer
      → R.alive r
      → GivesAll F R
          (queued qs p)
          []
          (read_packets peer (length (queued qs p)) (new_input {B = B} peer r))
  write_packets-read_packets cfg peer qs p w r c c' ok fresh written arrives alive =
      let o = new_output {B = B} cfg w in
      let sent =
        IsDelivered-sent (encode_all (queued qs p)) o (write_packets cfg qs p o)
          (new_output-laid cfg w c fresh) written
          (write_packets-IsDelivered F W cfg peer qs p o ok
            (new_buffer-size cfg.write_buf_size c.write_buf)) in
      read_packets-GivesAll F R peer (queued qs p) [] (new_input {B = B} peer r) ok
        (new_input-pending peer r c' ∙ arrives ∙ sent ∙ sym (append-nil (encode_all (queued qs p))))
        (alive, new_buffer-size peer.read_buf_size c'.read_buf)
