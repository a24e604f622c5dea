-- ===== src/Net/Packet/Laws.antt =====
-- The head of a packet is read as it was written.
use gcluster.Common.{ℕ, ◌^◌, ◌<◌, ◌≡◌, refl, arith, length}
use gcluster.Net.ProtoType.{ProtoType, IsInt8, of_byte-byte_of}
use gcluster.Net.Packet.{make_head, head_proto_type, payload_len, be_uint32, put_be_uint32}

be_uint32-put_be_uint32 : (n : ℕ) → n < 2 ^ 32 → be_uint32 (put_be_uint32 n) ≡ n
unfolding be_uint32 put_be_uint32
be_uint32-put_be_uint32 n h = omega arith

-- A head made for an int8 protocol type and a uint32 length reads back as both, and has six bytes.
pub read-make_head :
    (pt : ProtoType) (n : ℕ)
    → IsInt8 pt
    → n < 2 ^ 32
    → (head_proto_type (make_head pt n) ≡ pt)
      × (payload_len (make_head pt n) ≡ n)
      × (length (make_head pt n) ≡ 6)
unfolding make_head head_proto_type payload_len put_be_uint32
read-make_head pt n hp hn =
    (of_byte-byte_of pt hp, unfold put_be_uint32 in be_uint32-put_be_uint32 n hn, refl)
