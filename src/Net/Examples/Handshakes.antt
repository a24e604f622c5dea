-- ===== src/Net/Examples/Handshakes.antt =====
-- The theorems on handshake messages, with a coding that writes two of the messages.
use gcluster.Common.{◌≡◌, ◌<◌, ◌^◌, refl, Option, none, some, [], ◌∷◌, ok, length, arith}
use gcluster.Common.Bytes.{Bytes}
use gcluster.Net.Message.{Message, apply, accepted, rejected, completed, completed_ack}
use gcluster.Net.Packet.{make_head, set_proto_type, set_payload_len, put_be_uint32}
use gcluster.Net.ProtoType.{byte_of}
use gcluster.Net.Handshake.{
  Kind, apply_kind, accepted_kind, completed_kind, rejected_kind, completed_ack_kind, kind_of,
  Codec, IsCodec, find_proto, get_proto_type, read_proto, write_proto,
}
use gcluster.Net.Handshake.Registry.{handshake_helper}
use gcluster.Net.Handshake.Messages.{
  read_handshake_proto, unexpected, read_handshake_proto-written, calls_completed, write_completed,
}
use gcluster.Net.ProtoType.{hs_completed}
use gcluster.Net.Handshake.RoundTrip.{read_proto-write_proto}
use gcluster.Net.Handshake.Truncated.{read_truncated}
use gcluster.Net.Handshake.{read_head, read_payload}
use gcluster.Common.{err, ◌⊎◌}

-- Messages without fields are written as one byte here; the others are refused.
abbrev write_small : Message → Option Bytes
write_small completed = some (7 ∷ [])
write_small completed_ack = some (8 ∷ [])
write_small (apply _ _ _) = none
write_small (accepted _ _) = none
write_small (rejected _) = none

abbrev read_small : Kind → Bytes → Option Message
read_small completed_kind bs = some completed
read_small completed_ack_kind bs = some completed_ack
read_small apply_kind bs = none
read_small accepted_kind bs = none
read_small rejected_kind bs = none

abbrev small : Codec
small = record { marshal = write_small; unmarshal = read_small }

small-decodes :
    (m : Message) (bs : Bytes) → write_small m ≡ some bs → read_small (kind_of m) bs ≡ some m
small-decodes m bs h = ground arith

small-bounded : (m : Message) (bs : Bytes) → write_small m ≡ some bs → length bs < 2 ^ 32
small-bounded m bs h = ground arith

small-IsCodec : IsCodec small
small-IsCodec = record { decodes = small-decodes; bounded = small-bounded }

read_proto-write_proto_example :
    read_proto handshake_helper small (3 ∷ 0 ∷ 0 ∷ 0 ∷ 0 ∷ 1 ∷ 7 ∷ 9 ∷ []) ≡ ok (completed, 9 ∷ [])
unfolding write_proto get_proto_type find_proto make_head set_proto_type set_payload_len
    put_be_uint32 byte_of
read_proto-write_proto_example =
    read_proto-write_proto small small-IsCodec completed (3 ∷ 0 ∷ 0 ∷ 0 ∷ 0 ∷ 1 ∷ 7 ∷ []) (9 ∷ [])
      refl

read_truncated_example :
    let r = read_proto handshake_helper small (3 ∷ 0 ∷ 0 ∷ 0 ∷ 0 ∷ 1 ∷ []) in
    (r ≡ err read_head) ⊎ (r ≡ err read_payload)
unfolding write_proto get_proto_type find_proto make_head set_proto_type set_payload_len
    put_be_uint32 byte_of
read_truncated_example =
    read_truncated small small-IsCodec completed (3 ∷ 0 ∷ 0 ∷ 0 ∷ 0 ∷ 1 ∷ 7 ∷ []) 6 refl
      (omega arith)

-- A message of completion where an acceptance is expected.
read_handshake_proto-written_example :
    read_handshake_proto accepted_kind handshake_helper small (3 ∷ 0 ∷ 0 ∷ 0 ∷ 0 ∷ 1 ∷ 7 ∷ 9 ∷ [])
    ≡ err (unexpected (some hs_completed))
unfolding write_completed write_proto get_proto_type find_proto make_head set_proto_type
    set_payload_len put_be_uint32 byte_of
read_handshake_proto-written_example =
    read_handshake_proto-written small small-IsCodec accepted_kind calls_completed
      (3 ∷ 0 ∷ 0 ∷ 0 ∷ 0 ∷ 1 ∷ 7 ∷ []) (9 ∷ []) refl
