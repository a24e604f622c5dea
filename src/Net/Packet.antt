-- ===== src/Net/Packet.antt =====
-- net/packet.go. The six byte head of a packet, and the packets that sessions exchange.
pub mod Laws
use gcluster.Common.{
  ℕ, ◌+◌, ◌*◌, ◌/◌, ◌%◌, ◌^◌, Bool, true, false, List, [], ◌∷◌, ◌++◌, set, take, drop, not, ◌==◌,
  if◌then◌else◌,
}
use gcluster.Common.Bytes.{Bytes}
use gcluster.Net.ProtoType.{ProtoType, of_byte, byte_of, heartbeat, close_req, close_resp, raw}

-- `[6]byte`: the protocol type, a byte that is never set, and the payload's length.
abbrev pub PacketHead : Type 0
PacketHead = Bytes

-- The zero value of `var head packetHead`.
abbrev pub new_head : PacketHead
new_head = 0 ∷ 0 ∷ 0 ∷ 0 ∷ 0 ∷ 0 ∷ []

-- binary.BigEndian.Uint32; a shorter slice is out of range.
unfoldable pub be_uint32 : Bytes → ℕ
be_uint32 (a ∷ b ∷ c ∷ d ∷ _) = ((a * 256 + b) * 256 + c) * 256 + d
be_uint32 _ = 0

-- binary.BigEndian.PutUint32
unfoldable pub put_be_uint32 : ℕ → Bytes
put_be_uint32 n = (n / 2 ^ 24 % 256) ∷ (n / 2 ^ 16 % 256) ∷ (n / 2 ^ 8 % 256) ∷ (n % 256) ∷ []

unfoldable pub head_proto_type : PacketHead → ProtoType
unfolding of_byte
head_proto_type [] = of_byte 0
head_proto_type (b ∷ _) = of_byte b

unfoldable pub set_proto_type : PacketHead → ProtoType → PacketHead
set_proto_type h pt = set h 0 (byte_of pt)

unfoldable pub payload_len : PacketHead → ℕ
payload_len h = be_uint32 (drop 2 h)

unfoldable pub set_payload_len : PacketHead → ℕ → PacketHead
set_payload_len h n = take 2 h ++ put_be_uint32 n

-- The types that implement `packet`: heartbeatPacket and closeRespPacket hold one byte.
pub data Packet : Type 0 where
  heartbeat_packet : ℕ → Packet
  close_req_packet : Packet
  close_resp_packet : ℕ → Packet
  raw_packet : Bytes → Packet

-- Data of heartbeatPacket, closeReqPacket, closeRespPacket and rawPacket.
abbrev pub heartbeat_data : ℕ → Bytes
heartbeat_data b = b ∷ []

abbrev pub close_req_data : Bytes
close_req_data = []

abbrev pub close_resp_data : ℕ → Bytes
close_resp_data b = b ∷ []

abbrev pub raw_data : Bytes → Bytes
raw_data bs = bs

-- The methods of the interface `packet`, by the type of the packet.
unfoldable pub packet_data : Packet → Bytes
packet_data (heartbeat_packet b) = heartbeat_data b
packet_data close_req_packet = close_req_data
packet_data (close_resp_packet b) = close_resp_data b
packet_data (raw_packet bs) = raw_data bs

unfoldable pub packet_proto_type : Packet → ProtoType
packet_proto_type (heartbeat_packet _) = heartbeat
packet_proto_type close_req_packet = close_req
packet_proto_type (close_resp_packet _) = close_resp
packet_proto_type (raw_packet _) = raw

-- heartbeatPacket.ping, setPing, setPong and closeRespPacket.pass, setPass, on the one byte.
unfoldable pub ping : ℕ → Bool
ping b = not (b == 0)

abbrev pub set_ping : ℕ
set_ping = 1

abbrev pub set_pong : ℕ
set_pong = 0

unfoldable pub pass : ℕ → Bool
pass b = not (b == 0)

unfoldable pub set_pass : Bool → ℕ
set_pass p = if p then 1 else 0

-- What the writers of a head do: setProtoType, then setPayloadLen, on a zero head.
unfoldable pub make_head : ProtoType → ℕ → PacketHead
unfolding set_proto_type set_payload_len
make_head pt n = set_payload_len (set_proto_type new_head pt) n
