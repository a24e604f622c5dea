-- ===== src/Net/Handshake/RoundTrip.antt =====
-- A message that one node writes is the message that the other reads.
use gcluster.Common.{
  ℕ, ◌≡◌, ◌⊎◌, ◌%◌, ◌^◌, ◌∙◌, refl, sym, ap, true, none, some, List, [], ◌∷◌, ◌++◌, ok, err,
  ok-injective, leb, length, take, drop, arith, Option-cases, inl, inr,
}
use gcluster.Common.Bytes.{Bytes}
use gcluster.Net.Message.{Message}
use gcluster.Net.Packet.{make_head}
use gcluster.Net.Packet.Laws.{read-make_head}
use gcluster.Net.ProtoType.{ProtoType, IsInt8}
use gcluster.Net.Handshake.{
  kind_of, create_pb, get_proto_type, find_proto, Codec, IsCodec, read_full, read_proto,
  write_proto, wrong_pb_type, encode_payload,
}
use gcluster.Net.Handshake.Registry.{handshake_helper, handshake_helper-IsInverse, registered}

take-length-append : {A : Type 0} (xs ys : List A) → take (length xs) (xs ++ ys) ≡ xs
take-length-append [] ys = refl
take-length-append (x ∷ xs) ys = ap (λ l. x ∷ l) (take-length-append xs ys)

drop-length-append : {A : Type 0} (xs ys : List A) → drop (length xs) (xs ++ ys) ≡ ys
drop-length-append [] ys = refl
drop-length-append (x ∷ xs) ys = drop-length-append xs ys

length-le-append : {A : Type 0} (xs ys : List A) → leb (length xs) (length (xs ++ ys)) ≡ true
length-le-append [] ys = ground arith
length-le-append (x ∷ xs) ys = ground (arith, length-le-append xs ys)

-- What stands in front is read whole.
pub read_full-append :
    (n : ℕ) (xs ys : Bytes) → length xs ≡ n → read_full n (xs ++ ys) ≡ some (xs, ys)
unfolding read_full
read_full-append n xs ys e =
    rw (sym e)
      (rw (length-le-append xs ys, take-length-append xs ys, drop-length-append xs ys) refl)

append_assoc : (xs ys zs : Bytes) → (xs ++ ys) ++ zs ≡ xs ++ (ys ++ zs)
append_assoc [] ys zs = refl
append_assoc (x ∷ xs) ys zs = ap (λ l. x ∷ l) (append_assoc xs ys zs)

module _ (c : Codec) (v : IsCodec c) where
  pub read_frame :
      (m : Message) (pt : ProtoType) (payload rest : Bytes)
      → IsInt8 pt
      → create_pb handshake_helper pt ≡ some (kind_of m)
      → c.marshal m ≡ some payload
      → read_proto handshake_helper c (make_head pt (length payload) ++ (payload ++ rest))
        ≡ ok (m, rest)
  unfolding read_proto
  read_frame m pt payload rest i e f =
      let (same_type, same_length, six) =
        read-make_head pt (length payload) i (v.bounded m payload f) in
      rw
        (
          read_full-append 6 (make_head pt (length payload)) (payload ++ rest) six,
          same_type,
          e,
          same_length,
          read_full-append (length payload) payload rest refl,
          v.decodes m payload f,
        )
        refl

  pub write_frame :
      (m : Message) (pt : ProtoType) (payload : Bytes)
      → find_proto (kind_of m) handshake_helper.pb_proto_type ≡ some pt
      → c.marshal m ≡ some payload
      → write_proto handshake_helper c m ≡ ok (make_head pt (length payload) ++ payload)
  unfolding write_proto get_proto_type
  write_frame m pt payload e f =
      let fits : length payload % 2 ^ 32 ≡ length payload = omega (arith, v.bounded m payload f) in
      rw (e, write_proto, get_proto_type, f) (ap (λ n. ok (make_head pt n ++ payload)) fits)

  pub write_unmarshalled :
      (m : Message)
      → c.marshal m ≡ none
      → (write_proto handshake_helper c m ≡ err wrong_pb_type)
        ⊎ (write_proto handshake_helper c m ≡ err encode_payload)
  unfolding write_proto get_proto_type
  write_unmarshalled m f =
      let (pt, _, e) = registered (kind_of m) in inr (rw (e, write_proto, get_proto_type, f) refl)

  -- What the helper of the package writes for a message is read back as that message, and what
  -- follows on the connection is left unread. The coding takes back what it has written, and writes
  -- less than 4 GB.
  pub read_proto-write_proto :
      (m : Message) (bs rest : Bytes)
      → write_proto handshake_helper c m ≡ ok bs
      → read_proto handshake_helper c (bs ++ rest) ≡ ok (m, rest)
  unfolding create_pb
  read_proto-write_proto m bs rest h = elim (Option-cases (c.marshal m)) [
    | inl f ↦ absurd (ground (arith, write_unmarshalled m f, h))
    | inr (payload, f) ↦
        let (pt, i, e) = registered (kind_of m) in
        let same : make_head pt (length payload) ++ payload ≡ bs =
          ok-injective (sym (write_frame m pt payload e f) ∙ h) in
        ap (λ l. read_proto handshake_helper c (l ++ rest)) (sym same)
        ∙ ap (read_proto handshake_helper c)
            (append_assoc (make_head pt (length payload)) payload rest)
        ∙ read_frame m pt payload rest i ((handshake_helper-IsInverse.inverse pt (kind_of m)).1 e) f
  ]
