-- ===== src/Net/SessionIo/Parsing.antt =====
-- SessionReadPacket on any bytes at all: what it gives was there to be read.
use mathlib.Core.List.{append_assoc, append-nil}
use gcluster.Common.{
  ℕ, ◌≤◌, ◌≡◌, ◌∙◌, sym, ap, refl, [], ◌∷◌, ◌++◌, ltb, ◌==◌, length, arith, Bool-cases, inl, inr,
}
use gcluster.Common.Int.{ℤ, eqb_ℤ, eqb_ℤ_iff}
use gcluster.Common.Bytes.{Bytes}
use gcluster.Net.BufferIo.{BufferIo, IsBuffer, IsReader}
use gcluster.Net.Config.{SessionConfig}
use gcluster.Net.Packet.{
  Packet, heartbeat_packet, close_resp_packet, raw_packet, packet_data, packet_proto_type,
  head_proto_type, payload_len,
}
use gcluster.Net.ProtoType.{ProtoType, heartbeat, close_req, close_resp, raw}
use gcluster.Net.SessionIo.{
  uint32, one_byte, gives, read_heartbeat, read_close_req, read_close_resp, read_raw, read_payload,
  session_read_packet, read_packet_head, read_heartbeat_payload, read_close_resp_payload,
  read_raw_body, Input, read_full, IoErr, IoEnd, got, failed, out_of_fuel, ◌>>=◌,
}
use gcluster.Net.SessionIo.Rounds.{pending}
use gcluster.Net.SessionIo.Reading.{IsFullRead, read_full-IsFullRead, IsAllowed}

one_byte_lem : (bs : Bytes) → length bs ≡ 1 → bs ≡ one_byte bs ∷ []
one_byte_lem [] h = absurd (omega (arith, h))
one_byte_lem (b ∷ []) h = refl
one_byte_lem (b ∷ c ∷ bs) h = absurd (omega (arith, h))

-- The payload `bs`, of the type and the length that stand in the head, is that of the packet.
abbrev pub IsPayload : SessionConfig → ProtoType → ℕ → Bytes → Packet → Type 0
IsPayload cfg pt n bs p =
    (packet_proto_type p ≡ pt)
    × (length (packet_data p) ≡ n)
    × IsAllowed cfg p
    × (bs ≡ packet_data p)

-- The bytes `bs` are a head and the payload of the packet, whatever stands in the byte of the head that
-- is not used.
abbrev pub Encodes : SessionConfig → Bytes → Packet → Type 0
Encodes cfg bs p =
    (head : Bytes) × (length head ≡ 6)
    × (bs ≡ head ++ packet_data p)
    × (head_proto_type head ≡ packet_proto_type p)
    × (payload_len head ≡ length (packet_data p))
    × IsAllowed cfg p

module _ {B : BufferIo} (F : IsBuffer B) (R : IsReader B F) where
  -- How a call ends: with a value that the bytes taken stand for, or with an error; in either case what
  -- it took was at the front.
  abbrev pub Parses : {A : Type 0} → (Bytes → A → Type 0) → Input B → Input B × IoEnd A → Type 0
  Parses Stands s (s', got a) = (bs : Bytes) × (pending F R s ≡ bs ++ pending F R s') × Stands bs a
  Parses Stands s (s', failed e) = (bs : Bytes) × (pending F R s ≡ bs ++ pending F R s')
  Parses Stands s (s', out_of_fuel) = ⊥

  IsFullRead-Parses :
      (n : ℕ) (err : IoErr) (s : Input B) (r : Input B × IoEnd Bytes)
      → IsFullRead F R n err s r
      → Parses (λ bs a. (bs ≡ a) × (length a ≡ n)) s r
  IsFullRead-Parses n err s (s', got a) (bs, e, inl (g, l)) =
      let same : bs ≡ a = ground (arith, g) in (bs, e, (same, ground (arith, g, l)))
  IsFullRead-Parses n err s (s', got a) (bs, e, inr g) = absurd (cc)
  IsFullRead-Parses n err s (s', failed _) (bs, e, c) = (bs, e)
  IsFullRead-Parses n err s (s', out_of_fuel) (bs, e, c) = absurd (ground (arith, c))

  read_full-Parses :
      (t : ℤ) (n : ℕ) (err : IoErr) (s : Input B)
      → Parses (λ bs a. (bs ≡ a) × (length a ≡ n)) s (read_full t n err s)
  read_full-Parses t n err s =
      IsFullRead-Parses n err s (read_full t n err s) (read_full-IsFullRead F R t n err s)

  behind-Parses :
      {C : Type 0} (Q : Bytes → C → Type 0) (bs : Bytes) (s s' : Input B) (r : Input B × IoEnd C)
      → pending F R s ≡ bs ++ pending F R s'
      → Parses (λ more c. Q (bs ++ more) c) s' r
      → Parses Q s r
  behind-Parses Q bs s s' (s'', got c) e (more, e', q) =
      (bs ++ more, e ∙ ap (λ l. bs ++ l) e' ∙ sym (append_assoc bs more (pending F R s'')), q)
  behind-Parses Q bs s s' (s'', failed err) e (more, e') =
      (bs ++ more, e ∙ ap (λ l. bs ++ l) e' ∙ sym (append_assoc bs more (pending F R s'')))
  behind-Parses Q bs s s' (s'', out_of_fuel) e h = h

  next-Parses :
      {A C : Type 0} (P : Bytes → A → Type 0) (Q : Bytes → C → Type 0)
      (k : A → Input B → Input B × IoEnd C) (s : Input B) (r : Input B × IoEnd A)
      → Parses P s r
      → ((bs : Bytes) (a : A) (s' : Input B)
          → P bs a
          → Parses (λ more c. Q (bs ++ more) c) s' (k a s'))
      → Parses Q s (((λ _. r) >>= k) s)
  next-Parses P Q k s (s', got a) (bs, e, p) later =
      behind-Parses Q bs s s' (k a s') e (later bs a s' p)
  next-Parses P Q k s (s', failed err) h later = h
  next-Parses P Q k s (s', out_of_fuel) h later = h

  read_byte-Parses :
      (cfg : SessionConfig) (t : ℤ) (err : IoErr) (pt : ProtoType) (packet : ℕ → Packet)
      (s : Input B)
      → ((b : ℕ) → IsPayload cfg pt 1 (b ∷ []) (packet b))
      → Parses
          (IsPayload cfg pt 1)
          s
          ((read_full t 1 err >>= (λ bs. gives (packet (one_byte bs)))) s)
  read_byte-Parses cfg t err pt packet s h =
      next-Parses (λ bs a. (bs ≡ a) × (length a ≡ 1)) (IsPayload cfg pt 1)
        (λ bs. gives (packet (one_byte bs))) s (read_full t 1 err s) (read_full-Parses t 1 err s)
        (λ bs a s' (e, l).
          let (x, y, z, w) = h (one_byte a) in
          ([], refl, (x, y, z, append-nil bs ∙ e ∙ one_byte_lem a l ∙ w)))

  IsPayload-Encodes :
      (cfg : SessionConfig) (bs head : Bytes) (s : Input B) (r : Input B × IoEnd Packet)
      → bs ≡ head
      → length head ≡ 6
      → Parses (IsPayload cfg (head_proto_type head) (payload_len head)) s r
      → Parses (λ more p. Encodes cfg (bs ++ more) p) s r
  IsPayload-Encodes cfg bs head s (s', got p) q l (more, e, (pt, n, ok, pay)) =
      (more, e, (head, l, ap (λ x. x ++ more) q ∙ ap (λ x. head ++ x) pay, sym pt, sym n, ok))
  IsPayload-Encodes cfg bs head s (s', failed err) q l h = h
  IsPayload-Encodes cfg bs head s (s', out_of_fuel) q l h = h

  read_heartbeat-Parses :
      (cfg : SessionConfig) (t : ℤ) (n : ℕ) (s : Input B)
      → Parses (IsPayload cfg heartbeat n) s (read_heartbeat t n s)
  unfolding read_heartbeat packet_data packet_proto_type
  read_heartbeat-Parses cfg t n s = elim (Bool-cases (n == 1)) [
    | inl e ↦
        let one : n ≡ 1 = ground (arith, e) in
        rw one (
          read_byte-Parses cfg t read_heartbeat_payload heartbeat (λ b. heartbeat_packet b) s
            (λ b. (refl, refl, tt, refl)))
    | inr e ↦ rw e ([], refl)
  ]

  read_close_resp-Parses :
      (cfg : SessionConfig) (t : ℤ) (n : ℕ) (s : Input B)
      → Parses (IsPayload cfg close_resp n) s (read_close_resp t n s)
  unfolding read_close_resp packet_data packet_proto_type
  read_close_resp-Parses cfg t n s = elim (Bool-cases (n == 1)) [
    | inl e ↦
        let one : n ≡ 1 = ground (arith, e) in
        rw one (
          read_byte-Parses cfg t read_close_resp_payload close_resp (λ b. close_resp_packet b) s
            (λ b. (refl, refl, tt, refl)))
    | inr e ↦ rw e ([], refl)
  ]

  read_close_req-Parses :
      (cfg : SessionConfig) (n : ℕ) (s : Input B)
      → Parses (IsPayload cfg close_req n) s (read_close_req n s)
  unfolding read_close_req packet_data packet_proto_type
  read_close_req-Parses cfg n s = elim (Bool-cases (n == 0)) [
    | inl e ↦ rw e ([], refl, (refl, ground (arith, e), tt, refl))
    | inr e ↦ rw e ([], refl)
  ]

  read_raw-Parses :
      (cfg : SessionConfig) (n : ℕ) (s : Input B)
      → Parses (IsPayload cfg raw n) s (read_raw cfg n s)
  unfolding read_raw packet_data packet_proto_type
  read_raw-Parses cfg n s = elim (Bool-cases (ltb (uint32 cfg.max_packet_length) n)) [
    | inl e ↦ rw e ([], refl)
    | inr e ↦
        let fits : n ≤ uint32 cfg.max_packet_length = ground (arith, e) in
        rw e (
          next-Parses (λ bs a. (bs ≡ a) × (length a ≡ n)) (IsPayload cfg raw n)
            (λ bs. gives (raw_packet bs)) s (read_full cfg.read_write_timeout n read_raw_body s)
            (read_full-Parses cfg.read_write_timeout n read_raw_body s)
            (λ bs a s' (q, l). ([], refl, (refl, l, omega (arith, fits, l), append-nil bs ∙ q))))
  ]

  read_payload-Parses :
      (cfg : SessionConfig) (pt : ProtoType) (n : ℕ) (s : Input B)
      → Parses (IsPayload cfg pt n) s (read_payload cfg pt n s)
  unfolding read_payload
  read_payload-Parses cfg pt n s =
      let t = cfg.read_write_timeout in
      elim (Bool-cases (eqb_ℤ pt heartbeat)) [
        | inl e ↦ rw (e, (eqb_ℤ_iff pt heartbeat).0 e) (read_heartbeat-Parses cfg t n s)
        | inr e0 ↦ elim (Bool-cases (eqb_ℤ pt close_req)) [
          | inl e ↦ rw (e0, e, (eqb_ℤ_iff pt close_req).0 e) (read_close_req-Parses cfg n s)
          | inr e1 ↦ elim (Bool-cases (eqb_ℤ pt close_resp)) [
            | inl e ↦
                rw (e0, e1, e, (eqb_ℤ_iff pt close_resp).0 e) (read_close_resp-Parses cfg t n s)
            | inr e2 ↦ elim (Bool-cases (eqb_ℤ pt raw)) [
              | inl e ↦ rw (e0, e1, e2, e, (eqb_ℤ_iff pt raw).0 e) (read_raw-Parses cfg n s)
              | inr e3 ↦ rw (e0, e1, e2, e3) ([], refl)
            ]
          ]
        ]
      ]

  -- SessionReadPacket always returns, on any bytes at all: with an error, or with a packet that the
  -- bytes at the front encode and that is not over the limit of its length; in either case what it
  -- has taken is a prefix of what is to be read.
  pub session_read_packet-Parses :
      (cfg : SessionConfig) (s : Input B) → Parses (Encodes cfg) s (session_read_packet cfg s)
  unfolding session_read_packet
  session_read_packet-Parses cfg s =
      next-Parses (λ bs a. (bs ≡ a) × (length a ≡ 6)) (Encodes cfg)
        (λ head. read_payload cfg (head_proto_type head) (payload_len head)) s
        (read_full cfg.read_write_timeout 6 read_packet_head s)
        (read_full-Parses cfg.read_write_timeout 6 read_packet_head s)
        (λ bs head s' (q, l).
          IsPayload-Encodes cfg bs head s'
            (read_payload cfg (head_proto_type head) (payload_len head) s') q l
            (read_payload-Parses cfg (head_proto_type head) (payload_len head) s'))
