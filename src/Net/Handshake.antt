-- ===== src/Net/Handshake.antt =====
-- net/handshake.go: which protocol type stands for which message, and messages on a connection. The
-- coding of a message, of google.golang.org/protobuf, is a parameter.
pub mod Registry
pub mod RoundTrip
pub mod Truncated
pub mod Messages
use gcluster.Common.{
  ℕ, ◌≡◌, ◌<◌, ◌&&◌, ◌^◌, ◌%◌, Bool, true, false, Option, none, some, List, [], ◌∷◌, ◌++◌, Result,
  ok, err, ◌>>=◌, ◌>>◌, leb, length, take, drop, if◌then◌else◌,
}
use gcluster.Common.Int.{ℤ, eqb_ℤ}
use gcluster.Common.Bytes.{Bytes}
use gcluster.Net.Message.{Message, apply, accepted, rejected, completed, completed_ack}
use gcluster.Net.Packet.{make_head, head_proto_type, payload_len}
use gcluster.Net.ProtoType.{
  ProtoType, hs_apply, hs_accepted, hs_completed, hs_completed_ack, hs_rejected,
}

-- The types of the messages, as reflect.TypeOf tells them apart.
pub data Kind : Type 0 where
  apply_kind accepted_kind completed_kind rejected_kind completed_ack_kind : Kind

abbrev pub kind_of : Message → Kind
kind_of (apply _ _ _) = apply_kind
kind_of (accepted _ _) = accepted_kind
kind_of (rejected _) = rejected_kind
kind_of completed = completed_kind
kind_of completed_ack = completed_ack_kind

abbrev kind_index : Kind → ℕ
kind_index apply_kind = 0
kind_index accepted_kind = 1
kind_index completed_kind = 2
kind_index rejected_kind = 3
kind_index completed_ack_kind = 4

abbrev pub same_kind : Kind → Kind → Bool
same_kind j k = leb (kind_index j) (kind_index k) && leb (kind_index k) (kind_index j)

-- handshakeHelper: the maps protoPbType and pbProtoType.
pub record HandshakeHelper : Type 0 where
  pub proto_pb_type : List (ProtoType × Kind)
  pub pb_proto_type : List (Kind × ProtoType)

unfoldable pub find_kind : ProtoType → List (ProtoType × Kind) → Option Kind
find_kind pt [] = none
find_kind pt (e ∷ es) = if eqb_ℤ e.0 pt then some e.1 else find_kind pt es

unfoldable pub find_proto : Kind → List (Kind × ProtoType) → Option ProtoType
find_proto k [] = none
find_proto k (e ∷ es) = if same_kind e.0 k then some e.1 else find_proto k es

-- createPb, and getProtoType of a message that is not nil.
unfoldable pub create_pb : HandshakeHelper → ProtoType → Option Kind
unfolding find_kind
create_pb h pt = find_kind pt h.proto_pb_type

unfoldable pub get_proto_type : HandshakeHelper → Message → Option ProtoType
unfolding find_proto
get_proto_type h m = find_proto (kind_of m) h.pb_proto_type

-- What regProtoPb panics with.
pub data RegPanic : Type 0 where
  proto_type_exists pb_type_exists : RegPanic

-- regProtoPb
unfoldable pub reg_proto_pb : ProtoType → Kind → HandshakeHelper → Result RegPanic HandshakeHelper
unfolding find_kind find_proto
reg_proto_pb pt k h = elim (find_kind pt h.proto_pb_type) [
  | some _ ↦ err proto_type_exists
  | none ↦ elim (find_proto k h.pb_proto_type) [
    | some _ ↦ err pb_type_exists
    | none ↦ ok (record {
      proto_pb_type = (pt, k) ∷ h.proto_pb_type;
      pb_proto_type = (k, pt) ∷ h.pb_proto_type;
    })
  ]
]

-- init
unfoldable pub init_helper : Result RegPanic HandshakeHelper
unfolding reg_proto_pb
init_helper = do
  h1 ← reg_proto_pb hs_apply apply_kind (record { proto_pb_type = []; pb_proto_type = [] })
  h2 ← reg_proto_pb hs_accepted accepted_kind h1
  h3 ← reg_proto_pb hs_completed completed_kind h2
  h4 ← reg_proto_pb hs_rejected rejected_kind h3
  reg_proto_pb hs_completed_ack completed_ack_kind h4

-- proto.Marshal, and proto.Unmarshal into a new message of the given type; none for an error.
pub record Codec : Type 0 where
  pub marshal : Message → Option Bytes
  pub unmarshal : Kind → Bytes → Option Message

-- Unmarshal takes back what Marshal wrote, and Marshal writes less than 4 GB.
pub record IsCodec (c : Codec) : Type 0 where
  pub decodes :
      (m : Message) (bs : Bytes) → c.marshal m ≡ some bs → c.unmarshal (kind_of m) bs ≡ some m
  pub bounded : (m : Message) (bs : Bytes) → c.marshal m ≡ some bs → length bs < 2 ^ 32

pub data ReadErr : Type 0 where
  read_head wrong_proto_type read_payload decode_payload : ReadErr

pub data WriteErr : Type 0 where
  wrong_pb_type encode_payload : WriteErr

abbrev pub or_err {ℓ κ} : {E : Type κ} {A : Type ℓ} → E → Option A → Result E A
or_err e none = err e
or_err e (some a) = ok a

-- io.ReadFull of `n` bytes, on what will arrive before the deadline: the bytes, and the rest.
unfoldable pub read_full : ℕ → Bytes → Option (Bytes × Bytes)
read_full n s = if leb n (length s) then some (take n s, drop n s) else none

-- readProto: the message, and what is left to read.
unfoldable pub read_proto : HandshakeHelper → Codec → Bytes → Result ReadErr (Message × Bytes)
unfolding read_full create_pb head_proto_type payload_len
read_proto h c s = do
  head ← or_err read_head (read_full 6 s)
  kind ← or_err wrong_proto_type (create_pb h (head_proto_type head.0))
  payload ← or_err read_payload (read_full (payload_len head.0) head.1)
  m ← or_err decode_payload (c.unmarshal kind payload.0)
  ok (m, payload.1)

-- writeProto: what it writes to a connection that takes all of it.
unfoldable pub write_proto : HandshakeHelper → Codec → Message → Result WriteErr Bytes
unfolding get_proto_type make_head
write_proto h c m = do
  pt ← or_err wrong_pb_type (get_proto_type h m)
  payload ← or_err encode_payload (c.marshal m)
  ok (make_head pt (length payload % 2 ^ 32) ++ payload)
