-- ===== src/Net/SessionIo/Output.antt =====
-- net/session_io.go, the writing half of sessionPacketReadWriter: packets are gathered in a buffer and
-- written in batches.
use gcluster.Common.{
  ℕ, zero, suc, ◌+◌, ◌*◌, ◌%◌, ◌^◌, Bool, true, not, ◌&&◌, Option, none, some, ltb, ◌==◌, length,
  drop, if◌then◌else◌,
}
use gcluster.Common.Int.{ℤ, pos, ◌-ℤ◌, leb_ℤ}
use gcluster.Common.Bytes.{Bytes}
use gcluster.Net.BufferIo.{BufferIo, BufErr, fine, eof, full, broken}
use gcluster.Net.Config.{SessionConfig}
use gcluster.Net.Packet.{Packet, packet_data, packet_proto_type, make_head}
use gcluster.Net.ProtoType.{for_communicating}
use gcluster.Net.SessionIo.{
  IoErr, write_unknown_proto_type, write_packet_head, write_packet_payload,
  write_from_buffer_failed, IoEnd, got, failed, out_of_fuel, LoopEnd, complete, stopped, cut_short,
}

-- The writing half of sessionPacketReadWriter with its connection; the zero time is none.
pub record Output (B : BufferIo) : Type 0 where
  pub writer : B.Writer
  pub buffer : B.Buffer
  pub batch_write_count : ℕ
  pub batch_write_start_time : Option ℤ

-- time.Since; the zero time is long ago.
abbrev pub late : ℤ → ℤ → Option ℤ → Bool
late limit now none = true
late limit now (some start) = leb_ℤ limit (now -ℤ start)

module _ {B : BufferIo} where
  -- newSessionPacketReadWriter
  abbrev pub new_output : SessionConfig → B.Writer → Output B
  new_output cfg w = record {
    writer = w;
    buffer = B.new_buffer cfg.write_buf_size;
    batch_write_count = 0;
    batch_write_start_time = none;
  }

  -- The loop of writeFromBuffer.
  unfoldable pub write_out : ℕ → Output B → Output B × LoopEnd
  write_out zero o = (o, if B.readable o.buffer == 0 then complete else cut_short)
  write_out (suc fuel) o =
      let (w, b, ok) = B.write_to o.writer o.buffer in
      let o1 = record o { writer = w; buffer = b } in
      let rest = write_out fuel o1 in
      if B.readable o.buffer == 0 then (o, complete) else if ok then rest else (o1, stopped)

  -- writeFromBuffer; as many rounds as the buffer has bytes are enough.
  unfoldable pub write_from_buffer : ℤ → Output B → Output B × LoopEnd
  unfolding write_out
  write_from_buffer timeout o =
      let (w, ok) = B.set_write_deadline timeout o.writer in
      let o1 = record o { writer = w } in
      let (o2, e) = write_out (B.readable o1.buffer) o1 in
      let reset = record o2 { batch_write_count = 0; batch_write_start_time = none } in
      if ok
      then elim e [
        | complete ↦ (reset, complete)
        | stopped ↦ (o2, stopped)
        | cut_short ↦ (o2, cut_short)
      ]
      else (o1, stopped)

  -- The test of a full batch; the clock is read only if the count does not decide.
  unfoldable pub batch_due : SessionConfig → Output B → Output B × Bool
  batch_due cfg o =
      let (w, now) = B.clock o.writer in
      if leb_ℤ cfg.batch_write_limit (pos o.batch_write_count)
      then (o, true)
      else (record o { writer = w }, late cfg.batch_write_time_lmit now o.batch_write_start_time)

  -- What writeFull does with the buffer between two rounds: it is written out if it was full, or if
  -- the batch is.
  unfoldable pub flush_if_due : SessionConfig → BufErr → Output B → Output B × LoopEnd
  unfolding write_from_buffer batch_due
  flush_if_due cfg full o = write_from_buffer cfg.read_write_timeout o
  flush_if_due cfg fine o =
      let (o1, due) = batch_due cfg o in
      if due then write_from_buffer cfg.read_write_timeout o1 else (o1, complete)
  flush_if_due cfg eof o = (o, stopped)
  flush_if_due cfg broken o = (o, stopped)

  -- One Write of writeFull, with the count of what has been written whole.
  unfoldable pub write_once : Bytes → Output B → Output B × ℕ × BufErr
  write_once p o =
      let (b, n, e) = B.write p o.buffer in
      let whole = ltb 0 n && (length (drop n p) == 0) in
      (
        record o {
          buffer = b;
          batch_write_count = if whole then suc o.batch_write_count else o.batch_write_count;
        },
        n,
        e,
      )

  -- The loop of writeFull.
  unfoldable pub write_full_loop : ℕ → SessionConfig → Bytes → Output B → Output B × LoopEnd
  unfolding write_once flush_if_due
  write_full_loop zero cfg p o = (o, if length p == 0 then complete else cut_short)
  write_full_loop (suc fuel) cfg p o =
      let (o1, n, e) = write_once p o in
      let (o2, end) = flush_if_due cfg e o1 in
      let rest = write_full_loop fuel cfg (drop n p) o2 in
      if length p == 0
      then (o, complete)
      else elim end [ complete ↦ rest | stopped ↦ (o2, stopped) | cut_short ↦ (o2, cut_short) ]

  -- The start of a batch.
  unfoldable pub start_batch : Output B → Output B
  start_batch o =
      let (w, now) = B.clock o.writer in
      elim o.batch_write_start_time [
        | some _ ↦ o
        | none ↦ record o { writer = w; batch_write_start_time = some now }
      ]

  -- writeFull; twice as many rounds as bytes, and one more, are enough.
  unfoldable pub write_full : SessionConfig → Bytes → Output B → Output B × LoopEnd
  unfolding start_batch write_full_loop
  write_full cfg p o = write_full_loop (2 * length p + 1) cfg p (start_batch o)

  -- The next step of a call, unless the one before it has failed with `e`.
  abbrev pub and_then :
      IoErr
      → (Output B → Output B × IoEnd (Unit {0}))
      → Output B × LoopEnd
      → Output B × IoEnd (Unit {0})
  and_then e next (o, complete) = next o
  and_then e next (o, stopped) = (o, failed e)
  and_then e next (o, cut_short) = (o, out_of_fuel)

  -- The end of SessionWritePacket: unless more packets follow, the buffer is written out.
  unfoldable pub finish_write : SessionConfig → Bool → Output B → Output B × IoEnd (Unit {0})
  unfolding write_from_buffer
  finish_write cfg more o =
      if not more && ltb 0 (B.readable o.buffer)
      then and_then write_from_buffer_failed (λ o1. (o1, got tt))
          (write_from_buffer cfg.read_write_timeout o)
      else (o, got tt)

  -- SessionWritePacket, the payload
  unfoldable pub write_payload :
      SessionConfig → Bytes → Bool → Output B → Output B × IoEnd (Unit {0})
  unfolding write_full finish_write
  write_payload cfg payload more o =
      if ltb 0 (length payload % 2 ^ 32)
      then and_then write_packet_payload (finish_write cfg more) (write_full cfg payload o)
      else finish_write cfg more o

  -- SessionWritePacket
  unfoldable pub session_write_packet :
      SessionConfig → Packet → Bool → Output B → Output B × IoEnd (Unit {0})
  unfolding write_full write_payload
  session_write_packet cfg p more o =
      let head = make_head (packet_proto_type p) (length (packet_data p) % 2 ^ 32) in
      if not (for_communicating (packet_proto_type p))
      then (o, failed write_unknown_proto_type)
      else and_then write_packet_head (write_payload cfg (packet_data p) more)
          (write_full cfg head o)
