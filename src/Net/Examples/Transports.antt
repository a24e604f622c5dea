-- ===== src/Net/Examples/Transports.antt =====
-- The theorems on packets on a connection, on connections that move three bytes at a time.
use gcluster.Common.{◌≡◌, sym, refl, Bool, take, true, false, List, [], ◌∷◌, arith}
use gcluster.Common.Int.{eqb_ℤ, leb_ℤ, ltb_ℤ, ◌-ℤ◌}
use gcluster.Common.Bytes.{Bytes}
use gcluster.Net.Packet.{
  Packet, heartbeat_packet, packet_proto_type, packet_data, make_head, put_be_uint32,
}
use gcluster.Net.ProtoType.{byte_of, for_communicating}
use gcluster.Net.Config.{init_session_config}
use gcluster.Net.Config.Laws.{IsSessionConfig, init_session_config-IsSessionConfig}
use gcluster.Net.SessionIo.{new_input, got, encode, session_read_packet}
use gcluster.Net.SessionIo.Output.{new_output, session_write_packet}
use gcluster.Net.SessionIo.Parsing.{Parses, Encodes, session_read_packet-Parses}
use gcluster.Net.SessionIo.Delivery.{IsDelivered, session_write_packet-IsDelivered}
use gcluster.Net.SessionIo.Sequences.{write_packets, read_packets}
use gcluster.Net.SessionIo.Fifo.{IsPrefix, GivesAll}
use gcluster.Net.SessionIo.Transport.{write_packets-IsPrefix, write_packets-read_packets}
use gcluster.Net.Examples.{limits, hello}
use gcluster.Net.Examples.Pipes.{Pipe, PipeIo, Fixed-IsBuffer, Pipe-IsReader, Pipe-IsWriter}

abbrev new_pipe : Pipe
new_pipe = record { piece = 2; bytes = [] }

-- A heartbeat, and a raw packet of two bytes, on the wire.
abbrev on_wire : Bytes
on_wire = 10 ∷ 0 ∷ 0 ∷ 0 ∷ 0 ∷ 1 ∷ 1 ∷ 20 ∷ 0 ∷ 0 ∷ 0 ∷ 0 ∷ 2 ∷ 104 ∷ 105 ∷ []

-- The connection after a heartbeat and a raw packet are written.
abbrev heartbeat_first : List (Packet × Bool)
heartbeat_first = (heartbeat_packet 1, true) ∷ []

sent_pipe :
    ((write_packets limits heartbeat_first hello (new_output {B = PipeIo} limits new_pipe)).1
      ≡ got tt)
    × ((write_packets limits heartbeat_first hello
          (new_output {B = PipeIo} limits new_pipe)).0.writer.bytes
        ≡ on_wire)
unfolding write_packets session_write_packet for_communicating eqb_ℤ packet_proto_type make_head
    put_be_uint32 ◌-ℤ◌ packet_data byte_of
sent_pipe = (refl, refl)

limits-IsSessionConfig : IsSessionConfig limits
unfolding init_session_config leb_ℤ ltb_ℤ
limits-IsSessionConfig = init_session_config-IsSessionConfig limits {d = limits} refl

write_packets-read_packets_example :
    GivesAll Fixed-IsBuffer Pipe-IsReader (heartbeat_packet 1 ∷ hello ∷ []) [] (
      read_packets limits 2 (new_input {B = PipeIo} limits (record { piece = 2; bytes = on_wire })))
write_packets-read_packets_example =
    write_packets-read_packets Fixed-IsBuffer Pipe-IsWriter Pipe-IsReader limits limits
      heartbeat_first hello new_pipe (record { piece = 2; bytes = on_wire }) limits-IsSessionConfig
      limits-IsSessionConfig (tt, (omega arith, tt)) refl sent_pipe.0 (sym sent_pipe.1) tt

-- The last byte is lost.
write_packets-IsPrefix_example :
    (missing : Bytes) × IsPrefix Fixed-IsBuffer Pipe-IsReader missing
      (heartbeat_packet 1 ∷ hello ∷ [])
      []
      (read_packets limits 2
        (new_input {B = PipeIo} limits (record { piece = 2; bytes = take 14 on_wire })))
write_packets-IsPrefix_example =
    write_packets-IsPrefix Fixed-IsBuffer Pipe-IsWriter Pipe-IsReader limits limits heartbeat_first
      hello new_pipe (record { piece = 2; bytes = take 14 on_wire }) (105 ∷ [])
      limits-IsSessionConfig limits-IsSessionConfig (tt, (omega arith, tt)) refl (sym sent_pipe.1)

session_read_packet-Parses_example :
    let s =
      new_input {B = PipeIo} limits (record { piece = 2; bytes = 20 ∷ 0 ∷ 0 ∷ 0 ∷ 0 ∷ 9 ∷ [] }) in
    Parses Fixed-IsBuffer Pipe-IsReader (Encodes limits) s (session_read_packet limits s)
session_read_packet-Parses_example =
    session_read_packet-Parses Fixed-IsBuffer Pipe-IsReader limits
      (new_input {B = PipeIo} limits (record { piece = 2; bytes = 20 ∷ 0 ∷ 0 ∷ 0 ∷ 0 ∷ 9 ∷ [] }))

session_write_packet-IsDelivered_example :
    let o = new_output {B = PipeIo} limits new_pipe in
    IsDelivered Fixed-IsBuffer Pipe-IsWriter
      (encode hello)
      false
      o
      (session_write_packet limits hello false o)
unfolding packet_data
session_write_packet-IsDelivered_example =
    session_write_packet-IsDelivered Fixed-IsBuffer Pipe-IsWriter limits hello false
      (new_output {B = PipeIo} limits new_pipe) (omega arith) (omega arith)
