-- ===== src/Net/Handshake/Messages.antt =====
-- The messages that the two sides of a handshake write, and readHandshakeProto, which reads the one that
-- is expected.
use gcluster.Common.{◌≡◌, refl, ◌∙◌, sym, ap, Option, some, ◌++◌, Result, ok, err, if◌then◌else◌}
use gcluster.Common.Int.{ℤ}
use gcluster.Common.Bytes.{Bytes}
use gcluster.Net.Message.{Message, Reason, apply, accepted, rejected, completed, completed_ack}
use gcluster.Net.ProtoType.{ProtoType}
use gcluster.Net.Handshake.{
  Kind, kind_of, same_kind, HandshakeHelper, Codec, IsCodec, ReadErr, WriteErr, get_proto_type,
  read_proto, write_proto,
}
use gcluster.Net.Handshake.Registry.{handshake_helper, proto_of, get_proto_type_registered}
use gcluster.Net.Handshake.RoundTrip.{read_proto-write_proto}

module _ (h : HandshakeHelper) (c : Codec) where
  -- writeApply, writeAccepted, writeCompleted, writeRejected and writeCompletedAck
  unfoldable pub write_apply : Bytes → Bytes → ℤ → Result WriteErr Bytes
  unfolding write_proto
  write_apply node_id token ts = write_proto h c (apply node_id token ts)

  unfoldable pub write_accepted : Bytes → Bytes → Result WriteErr Bytes
  unfolding write_proto
  write_accepted node_id token = write_proto h c (accepted node_id token)

  unfoldable pub write_completed : Result WriteErr Bytes
  unfolding write_proto
  write_completed = write_proto h c completed

  unfoldable pub write_rejected : Reason → Result WriteErr Bytes
  unfolding write_proto
  write_rejected reason = write_proto h c (rejected reason)

  unfoldable pub write_completed_ack : Result WriteErr Bytes
  unfolding write_proto
  write_completed_ack = write_proto h c completed_ack

-- The error of readHandshakeProto; the second is a message of another type.
pub data ExpectErr : Type 0 where
  unreadable : ReadErr → ExpectErr
  unexpected : Option ProtoType → ExpectErr

-- A message that was read, against the type that is expected.
abbrev expect_kind :
    Kind → HandshakeHelper → Result ReadErr (Message × Bytes) → Result ExpectErr (Message × Bytes)
expect_kind k h (err e) = err (unreadable e)
expect_kind k h (ok (m, rest)) =
    if same_kind (kind_of m) k then ok (m, rest) else err (unexpected (get_proto_type h m))

-- readHandshakeProto
unfoldable pub read_handshake_proto :
    Kind → HandshakeHelper → Codec → Bytes → Result ExpectErr (Message × Bytes)
unfolding read_proto
read_handshake_proto k h c s = expect_kind k h (read_proto h c s)

-- A call of one of the five methods that write.
pub data Call : Type 0 where
  calls_apply : Bytes → Bytes → ℤ → Call
  calls_accepted : Bytes → Bytes → Call
  calls_completed : Call
  calls_rejected : Reason → Call
  calls_completed_ack : Call

abbrev pub written : Codec → Call → Result WriteErr Bytes
written c (calls_apply node_id token ts) = write_apply handshake_helper c node_id token ts
written c (calls_accepted node_id token) = write_accepted handshake_helper c node_id token
written c calls_completed = write_completed handshake_helper c
written c (calls_rejected reason) = write_rejected handshake_helper c reason
written c calls_completed_ack = write_completed_ack handshake_helper c

-- The message that a call is to write.
abbrev pub message_of : Call → Message
message_of (calls_apply node_id token ts) = apply node_id token ts
message_of (calls_accepted node_id token) = accepted node_id token
message_of calls_completed = completed
message_of (calls_rejected reason) = rejected reason
message_of calls_completed_ack = completed_ack

written-write_proto :
    (c : Codec) (call : Call) → written c call ≡ write_proto handshake_helper c (message_of call)
unfolding write_apply write_accepted write_completed write_rejected write_completed_ack
written-write_proto c (calls_apply node_id token ts) = refl
written-write_proto c (calls_accepted node_id token) = refl
written-write_proto c calls_completed = refl
written-write_proto c (calls_rejected reason) = refl
written-write_proto c calls_completed_ack = refl

-- What any of the five methods has written without an error, readHandshakeProto takes where a message
-- of that type is expected: it returns the message with the fields of the call. Where one of another
-- type is expected, it refuses it, with the protocol type of the message that was written. What
-- follows is left unread. The coding takes back what it has written, and writes less than 4 GB.
pub read_handshake_proto-written :
    (c : Codec) (v : IsCodec c) (k : Kind) (call : Call) (bs rest : Bytes)
    → written c call ≡ ok bs
    → read_handshake_proto k handshake_helper c (bs ++ rest) ≡ (
        if same_kind (kind_of (message_of call)) k
        then ok (message_of call, rest)
        else err (unexpected (some (proto_of (kind_of (message_of call))))))
unfolding read_handshake_proto
read_handshake_proto-written c v k call bs rest h =
    let m = message_of call in
    ap (λ r. expect_kind k handshake_helper r)
      (read_proto-write_proto c v m bs rest (sym (written-write_proto c call) ∙ h))
    ∙ ap (λ t. if same_kind (kind_of m) k then ok (m, rest) else err (unexpected t))
        (get_proto_type_registered m)
