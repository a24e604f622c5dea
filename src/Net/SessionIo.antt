-- ===== src/Net/SessionIo.antt =====
-- net/session_io.go: packets on a connection, through a buffer for each direction. The pool of byte
-- slices (getBytes, putBytes) is left out.
pub mod Output
pub mod Rounds
pub mod Whole
pub mod Reading
pub mod Parsing
pub mod Flushing
pub mod Writing
pub mod Delivery
pub mod Sequences
pub mod Fifo
pub mod Transport
use gcluster.Common.{
  ℕ, zero, suc, ◌+◌, ◌-◌, ◌*◌, ◌%◌, ◌^◌, Bool, true, false, not, ◌&&◌, Option, none, some, List, [],
  ◌∷◌, ◌++◌, ltb, ◌==◌, length, take, drop, if◌then◌else◌,
}
use gcluster.Common.Int.{ℤ, pos, pos_part, neg_part, ◌-ℤ◌, leb_ℤ, eqb_ℤ}
use gcluster.Common.Bytes.{Bytes}
use gcluster.Net.BufferIo.{BufferIo, BufErr, fine, eof, full, broken}
use gcluster.Net.Config.{SessionConfig}
use gcluster.Net.Packet.{
  Packet, heartbeat_packet, close_req_packet, close_resp_packet, raw_packet, packet_data,
  packet_proto_type, make_head, head_proto_type, payload_len,
}
use gcluster.Net.ProtoType.{ProtoType, heartbeat, close_req, close_resp, raw, for_communicating}

-- The errors of SessionReadPacket and SessionWritePacket.
pub data IoErr : Type 0 where
  read_packet_head read_unknown_proto_type : IoErr
  heartbeat_length_wrong read_heartbeat_payload close_req_length_wrong : IoErr
  close_resp_length_wrong read_close_resp_payload : IoErr
  packet_length_over_limited read_raw_body : IoErr
  write_unknown_proto_type write_packet_head write_packet_payload write_from_buffer_failed : IoErr

-- How a call ends. `out_of_fuel` stands for a loop that was cut short.
pub data IoEnd (A : Type 0) : Type 0 where
  got : A → IoEnd A
  failed : IoErr → IoEnd A
  out_of_fuel : IoEnd A

-- How an inner loop ends.
pub data LoopEnd : Type 0 where
  complete stopped cut_short : LoopEnd

-- uint32(z) of an int
abbrev pub uint32 : ℤ → ℕ
uint32 z = (pos_part z + (2 ^ 32 - neg_part z % 2 ^ 32)) % 2 ^ 32

-- What a packet is on the wire.
unfoldable pub encode : Packet → Bytes
encode p = make_head (packet_proto_type p) (length (packet_data p) % 2 ^ 32) ++ packet_data p

-- The first byte of a payload of one byte.
abbrev pub one_byte : Bytes → ℕ
one_byte [] = 0
one_byte (b ∷ _) = b

-- The reading half of sessionPacketReadWriter with its connection, and a call that reads.
pub record Input (B : BufferIo) : Type 0 where
  pub reader : B.Reader
  pub buffer : B.Buffer

abbrev pub Reads : BufferIo → Type 0 → Type 0
Reads B A = Input B → Input B × IoEnd A

module _ {B : BufferIo} where
  -- newSessionPacketReadWriter
  abbrev pub new_input : SessionConfig → B.Reader → Input B
  new_input cfg r = record { reader = r; buffer = B.new_buffer cfg.read_buf_size }

  infixl 5 ◌>>=◌
  abbrev pub ◌>>=◌ : {A C : Type 0} → Reads B A → (A → Reads B C) → Reads B C
  ◌>>=◌ m next s = elim (m s).1 [
    | got a ↦ next a (m s).0
    | failed e ↦ ((m s).0, failed e)
    | out_of_fuel ↦ ((m s).0, out_of_fuel)
  ]

  abbrev pub gives : {A : Type 0} → A → Reads B A
  gives a s = (s, got a)

  abbrev pub fails : {A : Type 0} → IoErr → Reads B A
  fails e s = (s, failed e)

  -- readToBuffer
  unfoldable pub read_to_buffer : ℤ → Input B → Input B × Bool
  read_to_buffer timeout s =
      let d = B.set_read_deadline timeout s.reader in
      let f = B.read_from d.0 s.buffer in
      if d.1
      then (record { reader = f.0; buffer = f.1 }, f.2)
      else (record s { reader = d.0 }, false)

  -- What has been read stands in front of what is read later.
  abbrev pub prepend : Bytes → Input B × Bytes × LoopEnd → Input B × Bytes × LoopEnd
  prepend bs (s, more, e) = (s, bs ++ more, e)

  -- The loop of readFull, for `n` bytes.
  unfoldable pub read_full_loop : ℕ → ℤ → ℕ → Input B → Input B × Bytes × LoopEnd
  unfolding read_to_buffer
  read_full_loop zero timeout n s = if n == 0 then (s, [], complete) else (s, [], cut_short)
  read_full_loop (suc fuel) timeout n s =
      let (b1, bs, e) = B.read n s.buffer in
      let s1 = record s { buffer = b1 } in
      let (s2, ok) = read_to_buffer timeout s1 in
      let again = prepend bs (read_full_loop fuel timeout (n - length bs) s1) in
      let refilled = prepend bs (read_full_loop fuel timeout (n - length bs) s2) in
      if n == 0 then (s, [], complete) else elim e [
        | fine ↦ again
        | eof ↦ if ok then refilled else (s2, bs, stopped)
        | full ↦ (s1, bs, stopped)
        | broken ↦ (s1, bs, stopped)
      ]

  -- readFull, for `n` bytes; twice as many rounds, and one more, are enough.
  unfoldable pub read_full : ℤ → ℕ → IoErr → Reads B Bytes
  unfolding read_full_loop
  read_full timeout n e s =
      let (s', bs, end) = read_full_loop (2 * n + 1) timeout n s in
      elim end [
        | complete ↦ (s', got bs)
        | stopped ↦ (s', failed e)
        | cut_short ↦ (s', out_of_fuel)
      ]

  -- sessionReadPacketHeartbeat, CloseReq, CloseResp and Raw
  unfoldable pub read_heartbeat : ℤ → ℕ → Reads B Packet
  unfolding read_full
  read_heartbeat timeout n = if not (n == 1) then fails heartbeat_length_wrong else do
    bs ← read_full timeout 1 read_heartbeat_payload
    gives (heartbeat_packet (one_byte bs))

  unfoldable pub read_close_req : ℕ → Reads B Packet
  read_close_req n = if not (n == 0) then fails close_req_length_wrong else gives close_req_packet

  unfoldable pub read_close_resp : ℤ → ℕ → Reads B Packet
  unfolding read_full
  read_close_resp timeout n = if not (n == 1) then fails close_resp_length_wrong else do
    bs ← read_full timeout 1 read_close_resp_payload
    gives (close_resp_packet (one_byte bs))

  unfoldable pub read_raw : SessionConfig → ℕ → Reads B Packet
  unfolding read_full
  read_raw cfg n =
      if ltb (uint32 cfg.max_packet_length) n
      then fails packet_length_over_limited
      else do bs ← read_full cfg.read_write_timeout n read_raw_body; gives (raw_packet bs)

  -- sessionReadPacketHandlers
  unfoldable pub read_payload : SessionConfig → ProtoType → ℕ → Reads B Packet
  unfolding read_heartbeat read_close_req read_close_resp read_raw
  read_payload cfg pt n =
      if eqb_ℤ pt heartbeat
      then read_heartbeat cfg.read_write_timeout n
      else if eqb_ℤ pt close_req
      then read_close_req n
      else if eqb_ℤ pt close_resp
      then read_close_resp cfg.read_write_timeout n
      else if eqb_ℤ pt raw
      then read_raw cfg n
      else fails read_unknown_proto_type

  -- SessionReadPacket
  unfoldable pub session_read_packet : SessionConfig → Reads B Packet
  unfolding read_full read_payload
  session_read_packet cfg = do
    head ← read_full cfg.read_write_timeout 6 read_packet_head
    read_payload cfg (head_proto_type head) (payload_len head)
