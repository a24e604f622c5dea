-- ===== src/Net/ProtoType.antt =====
-- net/proto_type.go. A protocol type is an int8.
use gcluster.Common.{ℕ, ◌-◌, ◌<◌, ◌≤◌, ◌≡◌, Bool, true, arith, ltb, if◌then◌else◌}
use gcluster.Common.Int.{ℤ, pos, negsuc, pos_part, neg_part, eqb_ℤ}

abbrev pub ProtoType : Type 0
ProtoType = ℤ

abbrev pub unknown : ProtoType
unknown = pos 0

abbrev pub hs_apply : ProtoType
hs_apply = pos 1

abbrev pub hs_accepted : ProtoType
hs_accepted = pos 2

abbrev pub hs_completed : ProtoType
hs_completed = pos 3

abbrev pub hs_completed_ack : ProtoType
hs_completed_ack = pos 4

abbrev pub hs_rejected : ProtoType
hs_rejected = pos 5

abbrev pub heartbeat : ProtoType
heartbeat = pos 10

abbrev pub close_req : ProtoType
close_req = pos 11

abbrev pub close_resp : ProtoType
close_resp = pos 12

abbrev pub raw : ProtoType
raw = pos 20

-- protoTypesForCommunicating
unfoldable pub for_communicating : ProtoType → Bool
for_communicating pt =
    if eqb_ℤ pt heartbeat
    then true
    else if eqb_ℤ pt close_req
    then true
    else if eqb_ℤ pt close_resp
    then true
    else eqb_ℤ pt raw

abbrev pub IsInt8 : ProtoType → Type 0
IsInt8 pt = (pos_part pt < 128) × (neg_part pt ≤ 128)

-- The conversions `byte(pt)` and `protoType(b)` between int8 and byte keep the bit pattern.
unfoldable pub byte_of : ProtoType → ℕ
byte_of (pos n) = n
byte_of (negsuc n) = 255 - n

unfoldable pub of_byte : ℕ → ProtoType
of_byte b = if ltb b 128 then pos b else negsuc (255 - b)

pub of_byte-byte_of : (pt : ProtoType) → IsInt8 pt → of_byte (byte_of pt) ≡ pt
unfolding of_byte byte_of
of_byte-byte_of (pos n) h = ground arith
of_byte-byte_of (negsuc n) h = ground arith

pub byte_of-lt : (pt : ProtoType) → IsInt8 pt → byte_of pt < 256
unfolding byte_of
byte_of-lt (pos n) h = omega arith
byte_of-lt (negsuc n) h = omega arith

pub of_byte-IsInt8 : (b : ℕ) → b < 256 → IsInt8 (of_byte b)
unfolding of_byte
of_byte-IsInt8 b h = ground arith

pub byte_of-of_byte : (b : ℕ) → b < 256 → byte_of (of_byte b) ≡ b
unfolding of_byte byte_of
byte_of-of_byte b h = ground arith
