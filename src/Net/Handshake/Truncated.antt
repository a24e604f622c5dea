-- ===== src/Net/Handshake/Truncated.antt =====
-- A connection that ends in the middle of a handshake message.
use gcluster.Common.{
  ℕ, zero, suc, ◌≡◌, ◌⊎◌, ◌≤◌, ◌<◌, ◌-◌, ◌∙◌, refl, sym, ap, none, some, [], ◌∷◌, ◌++◌, ltb,
  Bool-cases, ok, err, ok-injective, length, length-append, take, arith, Option-cases, inl, inr,
}
use gcluster.Common.Bytes.{Bytes}
use gcluster.Net.Message.{Message}
use gcluster.Net.Packet.{make_head}
use gcluster.Net.Packet.Laws.{read-make_head}
use gcluster.Net.ProtoType.{ProtoType, IsInt8}
use gcluster.Net.Handshake.{
  Codec, IsCodec, read_head, read_payload, kind_of, create_pb, read_full, read_proto, write_proto,
}
use gcluster.Net.Handshake.Registry.{handshake_helper, handshake_helper-IsInverse, registered}
use gcluster.Net.Handshake.RoundTrip.{read_full-append, write_frame, write_unmarshalled}

length-take-le : (n : ℕ) (xs : Bytes) → length (take n xs) ≤ n
length-take-le zero xs = omega arith
length-take-le (suc n) [] = omega arith
length-take-le (suc n) (x ∷ xs) = omega (arith, length-take-le n xs)

take-append :
    (n : ℕ) (xs ys : Bytes) → length xs ≤ n → take n (xs ++ ys) ≡ xs ++ take (n - length xs) ys
take-append n [] ys h = let e : n ≡ n - 0 = omega arith in ap (λ k. take k ys) e
take-append zero (x ∷ xs) ys h = absurd (omega (arith, h))
take-append (suc n) (x ∷ xs) ys h =
    let e : n - length xs ≡ suc n - suc (length xs) = omega arith in
    ap (λ l. x ∷ l) (take-append n xs ys (omega (arith, h)) ∙ ap (λ k. xs ++ take k ys) e)

read_full-short : (n : ℕ) (s : Bytes) → length s < n → read_full n s ≡ none
unfolding read_full
read_full-short n s h = ground arith

module _ (c : Codec) (v : IsCodec c) where
  read_no_head : (s : Bytes) → length s < 6 → read_proto handshake_helper c s ≡ err read_head
  unfolding read_proto
  read_no_head s h = rw (read_full-short 6 s h) refl

  read_half :
      (m : Message) (pt : ProtoType) (payload s : Bytes)
      → IsInt8 pt
      → create_pb handshake_helper pt ≡ some (kind_of m)
      → c.marshal m ≡ some payload
      → length s < length payload
      → read_proto handshake_helper c (make_head pt (length payload) ++ s) ≡ err read_payload
  unfolding read_proto
  read_half m pt payload s i e f h =
      let (same_type, same_length, six) =
        read-make_head pt (length payload) i (v.bounded m payload f) in
      rw
        (
          read_full-append 6 (make_head pt (length payload)) s six,
          same_type,
          e,
          same_length,
          read_full-short (length payload) s h,
        )
        refl

  cut_frame :
      (m : Message) (pt : ProtoType) (payload : Bytes) (n : ℕ)
      → IsInt8 pt
      → create_pb handshake_helper pt ≡ some (kind_of m)
      → c.marshal m ≡ some payload
      → n < length (make_head pt (length payload) ++ payload)
      → let r = read_proto handshake_helper c (take n (make_head pt (length payload) ++ payload)) in
        (r ≡ err read_head) ⊎ (r ≡ err read_payload)
  cut_frame m pt payload n i e f h =
      let head = make_head pt (length payload) in
      let six = (read-make_head pt (length payload) i (v.bounded m payload f)).2 in
      elim (Bool-cases (ltb n 6)) [
        | inl b ↦ inl (
            read_no_head (take n (head ++ payload))
              (ground (arith, b, length-take-le n (head ++ payload))))
        | inr b ↦
            let long : length head ≤ n = ground (arith, b, six) in
            inr (
              ap (read_proto handshake_helper c) (take-append n head payload long)
              ∙ read_half m pt payload (take (n - length head) payload) i e f (
                  omega (
                    arith,
                    length-take-le (n - length head) payload,
                    length-append head payload,
                    h,
                    long,
                  )))
      ]

  -- A handshake message that is cut short at any place is not accepted: the read ends with an error
  -- in the head or in the payload. The coding takes back what it has written, and writes less than
  -- 4 GB.
  pub read_truncated :
      (m : Message) (bs : Bytes) (n : ℕ)
      → write_proto handshake_helper c m ≡ ok bs
      → n < length bs
      → let r = read_proto handshake_helper c (take n bs) in
        (r ≡ err read_head) ⊎ (r ≡ err read_payload)
  unfolding create_pb
  read_truncated m bs n h short = elim (Option-cases (c.marshal m)) [
    | inl f ↦ absurd (ground (arith, write_unmarshalled c v m f, h))
    | inr (payload, f) ↦
        let (pt, i, e) = registered (kind_of m) in
        let same : make_head pt (length payload) ++ payload ≡ bs =
          ok-injective (sym (write_frame c v m pt payload e f) ∙ h) in
        rw (sym same) (
          cut_frame m pt payload n i ((handshake_helper-IsInverse.inverse pt (kind_of m)).1 e) f
            (rw same short))
  ]
