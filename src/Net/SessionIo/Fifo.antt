-- ===== src/Net/SessionIo/Fifo.antt =====
-- A connection as a queue of packets: those that are read are those that were written, in their order.
use mathlib.Core.List.{append_assoc}
use gcluster.Common.{
  ℕ, ◌%◌, ◌^◌, ◌<◌, ◌≡◌, ◌⊎◌, ◌∙◌, sym, ap, refl, List, [], ◌∷◌, ◌++◌, length, arith, inl, inr,
}
use gcluster.Common.Bytes.{Bytes}
use gcluster.Net.BufferIo.{BufferIo, IsBuffer, IsReader}
use gcluster.Net.Config.{SessionConfig}
use gcluster.Net.Packet.{
  Packet, packet_data, packet_proto_type, make_head, head_proto_type, payload_len,
}
use gcluster.Net.Packet.Laws.{read-make_head}
use gcluster.Net.SessionIo.{
  encode, Input, IoErr, IoEnd, got, failed, out_of_fuel, session_read_packet,
}
use gcluster.Net.SessionIo.Rounds.{pending, IsReady}
use gcluster.Net.SessionIo.Reading.{
  append_injective, Gives, length_allowed, packet_proto_type-IsInt8, session_read_packet-Gives,
}
use gcluster.Net.SessionIo.Parsing.{Parses, Encodes, session_read_packet-Parses}
use gcluster.Net.SessionIo.Sequences.{encode_all, AllAllowed, then_read, read_packets}

Packet_eq :
    (p q : Packet)
    → packet_proto_type p ≡ packet_proto_type q
    → packet_data p ≡ packet_data q
    → p ≡ q
unfolding packet_proto_type packet_data
Packet_eq p q t d = ground (arith, t, d)

head-encode :
    (p : Packet)
    → length (packet_data p) < 2 ^ 32
    → (n : ℕ) × (n ≡ length (packet_data p))
      × (encode p ≡ make_head (packet_proto_type p) n ++ packet_data p)
      × (head_proto_type (make_head (packet_proto_type p) n) ≡ packet_proto_type p)
      × (payload_len (make_head (packet_proto_type p) n) ≡ length (packet_data p))
      × (length (make_head (packet_proto_type p) n) ≡ 6)
unfolding encode
head-encode p h =
    let n = length (packet_data p) in
    let small : n % 2 ^ 32 ≡ n = omega (arith, h) in
    let (t, l, six) = read-make_head (packet_proto_type p) n (packet_proto_type-IsInt8 p) h in
    (n, refl, ap (λ m. make_head (packet_proto_type p) m ++ packet_data p) small, t, l, six)

-- Only one packet stands at the front of the bytes that encode it.
Encodes-encode :
    (cfg : SessionConfig) (p q : Packet) (bs x rest : Bytes)
    → length (packet_data p) < 2 ^ 32
    → Encodes cfg bs q
    → encode p ++ rest ≡ bs ++ x
    → (q ≡ p) × (x ≡ rest)
Encodes-encode cfg p q bs x rest h (head, six, split, t, l, _) e =
    let (n, _, whole, t', l', six') = head-encode p h in
    let mh = make_head (packet_proto_type p) n in
    let both : head ++ (packet_data q ++ x) ≡ mh ++ (packet_data p ++ rest) =
      sym (append_assoc head (packet_data q) x)
      ∙ ap (λ a. a ++ x) (sym split)
      ∙ sym e
      ∙ ap (λ a. a ++ rest) whole
      ∙ append_assoc mh (packet_data p) rest in
    let (same, tail) =
      append_injective head mh (packet_data q ++ x) (packet_data p ++ rest) both (six ∙ sym six') in
    let long : length (packet_data q) ≡ length (packet_data p) =
      sym l ∙ ap (λ a. payload_len a) same ∙ l' in
    let (d, r) = append_injective (packet_data q) (packet_data p) x rest tail long in
    (Packet_eq q p (sym t ∙ ap (λ a. head_proto_type a) same ∙ t') d, r)

-- The bytes `lost` do not arrive.
module _ {B : BufferIo} (F : IsBuffer B) (R : IsReader B F) (lost : Bytes) where
  -- How a call that reads ends where `a` is the next: with `a`, and `rest` behind it, or with an error.
  abbrev IsNext : {A : Type 0} → A → Bytes → Input B × IoEnd A → Type 0
  IsNext a rest (s', end) =
      ((end ≡ got a) × (pending F R s' ++ lost ≡ rest)) ⊎ ((e : IoErr) × (end ≡ failed e))

  Parses-IsNext :
      (cfg : SessionConfig) (p : Packet) (rest : Bytes) (s : Input B) (r : Input B × IoEnd Packet)
      → length (packet_data p) < 2 ^ 32
      → pending F R s ++ lost ≡ encode p ++ rest
      → Parses F R (Encodes cfg) s r
      → IsNext p rest r
  Parses-IsNext cfg p rest s (s', got q) h e (bs, e', enc) =
      let (same, left) =
        Encodes-encode cfg p q bs (pending F R s' ++ lost) rest h enc
          (sym e ∙ ap (λ a. a ++ lost) e' ∙ append_assoc bs (pending F R s') lost) in
      inl (ap (λ a. got a) same, left)
  Parses-IsNext cfg p rest s (s', failed err) h e parsed = inr (err, refl)
  Parses-IsNext cfg p rest s (s', out_of_fuel) h e parsed = absurd parsed

  -- Whatever becomes of the connection, the packet at the front is read as it was written, or there is
  -- an error.
  pub session_read_packet-IsNext :
      (cfg : SessionConfig) (p : Packet) (rest : Bytes) (s : Input B)
      → length (packet_data p) < 2 ^ 32
      → pending F R s ++ lost ≡ encode p ++ rest
      → IsNext p rest (session_read_packet cfg s)
  session_read_packet-IsNext cfg p rest s h e =
      Parses-IsNext cfg p rest s (session_read_packet cfg s) h e
        (session_read_packet-Parses F R cfg s)

  -- How a call that reads the packets `ps` ends: it has a prefix of them, and all of them unless there
  -- was an error.
  abbrev pub IsPrefix : List Packet → Bytes → Input B × List Packet × IoEnd (Unit {0}) → Type 0
  IsPrefix ps rest (s', qs, end) =
      (left : List Packet) × (ps ≡ qs ++ left)
      × (((end ≡ got tt) × (left ≡ []) × (pending F R s' ++ lost ≡ rest))
          ⊎ ((e : IoErr) × (end ≡ failed e)))

  then_read-IsPrefix :
      (next : Input B → Input B × List Packet × IoEnd (Unit {0})) (p : Packet) (ps : List Packet)
      (mid rest : Bytes) (r : Input B × IoEnd Packet)
      → IsNext p mid r
      → ((s : Input B) → pending F R s ++ lost ≡ mid → IsPrefix ps rest (next s))
      → IsPrefix (p ∷ ps) rest (then_read next r)
  then_read-IsPrefix next p ps mid rest (s, got q) (inl (e, m)) later =
      let (left, split, c) = later s m in
      let same : p ≡ q = ground (arith, e) in
      (left, ap (λ x. x ∷ ps) same ∙ ap (λ x. q ∷ x) split, c)
  then_read-IsPrefix next p ps mid rest (s, got q) (inr (err, e)) later = absurd (cc)
  then_read-IsPrefix next p ps mid rest (s, failed err) c later = (p ∷ ps, refl, inr (err, refl))
  then_read-IsPrefix next p ps mid rest (s, out_of_fuel) (inl (e, m)) later = absurd (cc)
  then_read-IsPrefix next p ps mid rest (s, out_of_fuel) (inr (err, e)) later = absurd (cc)

  -- Reading as many packets as were written gives a prefix of them, whatever becomes of the connection,
  -- and without an error all of them and no byte more.
  pub read_packets-IsPrefix :
      (cfg : SessionConfig) (ps : List Packet) (rest : Bytes) (s : Input B)
      → AllAllowed cfg ps
      → pending F R s ++ lost ≡ encode_all ps ++ rest
      → IsPrefix ps rest (read_packets cfg (length ps) s)
  unfolding read_packets
  read_packets-IsPrefix cfg [] rest s h e = ([], refl, inl (refl, refl, e))
  read_packets-IsPrefix cfg (p ∷ ps) rest s (h, hs) e =
      then_read-IsPrefix (read_packets cfg (length ps)) p ps (encode_all ps ++ rest) rest
        (session_read_packet cfg s)
        (session_read_packet-IsNext cfg p (encode_all ps ++ rest) s (length_allowed cfg p h)
          (e ∙ append_assoc (encode p) (encode_all ps) rest))
        (λ s' m. read_packets-IsPrefix cfg ps rest s' hs m)

module _ {B : BufferIo} (F : IsBuffer B) (R : IsReader B F) where
  -- A connection that gives all of `ps` and stays alive.
  abbrev pub GivesAll : List Packet → Bytes → Input B × List Packet × IoEnd (Unit {0}) → Type 0
  GivesAll ps rest (s', qs, end) =
      (qs ≡ ps) × (end ≡ got tt) × (pending F R s' ≡ rest) × IsReady F R s'

  then_read-GivesAll :
      (next : Input B → Input B × List Packet × IoEnd (Unit {0})) (p : Packet) (ps : List Packet)
      (mid rest : Bytes) (r : Input B × IoEnd Packet)
      → Gives F R p mid r
      → ((s : Input B) → pending F R s ≡ mid → IsReady F R s → GivesAll ps rest (next s))
      → GivesAll (p ∷ ps) rest (then_read next r)
  then_read-GivesAll next p ps mid rest (s, got q) (e, m, a) later =
      let (all, ok, end, al) = later s m a in
      let same : q ≡ p = ground (arith, e) in
      (ap (λ x. x ∷ (next s).1) same ∙ ap (λ x. p ∷ x) all, ok, end, al)
  then_read-GivesAll next p ps mid rest (s, failed err) (e, m, a) later = absurd (cc)
  then_read-GivesAll next p ps mid rest (s, out_of_fuel) (e, m, a) later = absurd (cc)

  pub read_packets-GivesAll :
      (cfg : SessionConfig) (ps : List Packet) (rest : Bytes) (s : Input B)
      → AllAllowed cfg ps
      → pending F R s ≡ encode_all ps ++ rest
      → IsReady F R s
      → GivesAll ps rest (read_packets cfg (length ps) s)
  unfolding read_packets
  read_packets-GivesAll cfg [] rest s h e a = (refl, refl, e, a)
  read_packets-GivesAll cfg (p ∷ ps) rest s (h, hs) e a =
      then_read-GivesAll (read_packets cfg (length ps)) p ps (encode_all ps ++ rest) rest
        (session_read_packet cfg s)
        (session_read_packet-Gives F R cfg p s (encode_all ps ++ rest) h
          (e ∙ append_assoc (encode p) (encode_all ps) rest) a)
        (λ s' m al. read_packets-GivesAll cfg ps rest s' hs m al)
