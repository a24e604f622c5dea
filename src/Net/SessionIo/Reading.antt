-- ===== src/Net/SessionIo/Reading.antt =====
-- readFull and SessionReadPacket, over a connection that hands over its bytes in pieces of any size.
use mathlib.Core.List.{append_assoc}
use gcluster.Common.{
  ℕ, ◌+◌, ◌*◌, ◌%◌, ◌^◌, ◌≤◌, ◌<◌, ◌≡◌, ◌⊎◌, ◌∙◌, sym, ap, refl, false, [], ◌∷◌, ◌++◌, ltb, length,
  length-append, arith, inr,
}
use gcluster.Common.Int.{ℤ, eqb_ℤ}
use gcluster.Common.Bytes.{Bytes}
use gcluster.Net.BufferIo.{BufferIo, IsBuffer, IsReader}
use gcluster.Net.Config.{SessionConfig}
use gcluster.Net.Packet.{
  Packet, heartbeat_packet, close_req_packet, close_resp_packet, raw_packet, packet_data,
  packet_proto_type, make_head, head_proto_type, payload_len,
}
use gcluster.Net.Packet.Laws.{read-make_head}
use gcluster.Net.ProtoType.{IsInt8}
use gcluster.Net.SessionIo.{
  uint32, encode, one_byte, gives, read_heartbeat, read_close_req, read_close_resp, read_raw,
  read_payload, session_read_packet, read_packet_head, read_heartbeat_payload,
  read_close_resp_payload, read_raw_body, Input, LoopEnd, complete, stopped, cut_short,
  read_full_loop, read_full, IoErr, IoEnd, got, failed, out_of_fuel, ◌>>=◌,
}
use gcluster.Net.SessionIo.Rounds.{pending, IsReady, IsRead, read_full_loop-IsRead}
use gcluster.Net.SessionIo.Whole.{IsWhole, read_full_loop-IsWhole}

pub append_injective :
    (xs ys a b : Bytes) → xs ++ a ≡ ys ++ b → length xs ≡ length ys → (xs ≡ ys) × (a ≡ b)
append_injective [] [] a b e h = (refl, e)
append_injective [] (y ∷ ys) a b e h = absurd (omega (arith, h))
append_injective (x ∷ xs) [] a b e h = absurd (omega (arith, h))
append_injective (x ∷ xs) (y ∷ ys) a b e h = ground (arith, append_injective xs ys a b, e, h)

finished : {B : BufferIo} → (err : IoErr) → Input B × Bytes × LoopEnd → Input B × IoEnd Bytes
finished err (s', bs, complete) = (s', got bs)
finished err (s', bs, stopped) = (s', failed err)
finished err (s', bs, cut_short) = (s', out_of_fuel)

read_full-finished :
    {B : BufferIo} (t : ℤ) (n : ℕ) (err : IoErr) (s : Input B)
    → read_full t n err s ≡ finished err (read_full_loop (2 * n + 1) t n s)
unfolding read_full finished
read_full-finished t n err s = ground arith

bind_got :
    {B : BufferIo} {A C : Type 0} (m : Input B → Input B × IoEnd A)
    (k : A → Input B → Input B × IoEnd C) (a : A) (s : Input B)
    → (m s).1 ≡ got a
    → (m >>= k) s ≡ k a (m s).0
bind_got m k a s e = rw (e, ◌>>=◌) refl

-- A packet that the other end accepts: a raw one has at most the length that is allowed there.
abbrev pub IsAllowed : SessionConfig → Packet → Type 0
IsAllowed cfg (heartbeat_packet _) = Unit
IsAllowed cfg close_req_packet = Unit
IsAllowed cfg (close_resp_packet _) = Unit
IsAllowed cfg (raw_packet bs) = length bs ≤ uint32 cfg.max_packet_length

uint32_bound : (z : ℤ) → uint32 z < 2 ^ 32
uint32_bound z = omega arith

pub length_allowed :
    (cfg : SessionConfig) (p : Packet) → IsAllowed cfg p → length (packet_data p) < 2 ^ 32
unfolding packet_data
length_allowed cfg (heartbeat_packet _) h = omega arith
length_allowed cfg close_req_packet h = omega arith
length_allowed cfg (close_resp_packet _) h = omega arith
length_allowed cfg (raw_packet bs) h =
    let b = uint32_bound cfg.max_packet_length in omega (arith, h, b)

pub packet_proto_type-IsInt8 : (p : Packet) → IsInt8 (packet_proto_type p)
unfolding packet_proto_type
packet_proto_type-IsInt8 (heartbeat_packet _) = ground arith
packet_proto_type-IsInt8 close_req_packet = ground arith
packet_proto_type-IsInt8 (close_resp_packet _) = ground arith
packet_proto_type-IsInt8 (raw_packet bs) = ground arith

module _ {B : BufferIo} (F : IsBuffer B) (R : IsReader B F) where
  -- How readFull ends: with the bytes asked for, or with its error after some of them.
  abbrev pub IsFullRead : ℕ → IoErr → Input B → Input B × IoEnd Bytes → Type 0
  IsFullRead n err s (s', end) =
      (bs : Bytes) × (pending F R s ≡ bs ++ pending F R s')
      × (((end ≡ got bs) × (length bs ≡ n)) ⊎ (end ≡ failed err))

  finished-IsFullRead :
      (n : ℕ) (err : IoErr) (s : Input B) (r : Input B × Bytes × LoopEnd)
      → IsRead F R n s r
      → IsFullRead n err s (finished err r)
  unfolding finished
  finished-IsFullRead n err s (s', bs, complete) (p, d) = (bs, p, ground (arith, d))
  finished-IsFullRead n err s (s', bs, stopped) (p, d) = (bs, p, inr refl)
  finished-IsFullRead n err s (s', bs, cut_short) (p, d) = absurd (ground (arith, d))

  -- readFull always returns: with exactly the bytes asked for, taken off the front of what is to be
  -- read, or with an error of the connection; no byte is lost or read twice, whatever pieces arrive.
  pub read_full-IsFullRead :
      (t : ℤ) (n : ℕ) (err : IoErr) (s : Input B) → IsFullRead n err s (read_full t n err s)
  read_full-IsFullRead t n err s = rw (read_full-finished t n err s) (
      finished-IsFullRead n err s (read_full_loop (2 * n + 1) t n s)
        (read_full_loop-IsRead F R (2 * n + 1) t n s (omega arith)))

  -- A call that gives `a`, leaves `rest` to be read and the connection alive.
  abbrev pub Gives : {A : Type 0} → A → Bytes → Input B × IoEnd A → Type 0
  Gives a rest (s', end) = (end ≡ got a) × (pending F R s' ≡ rest) × IsReady F R s'

  finished-Gives :
      (err : IoErr) (n : ℕ) (s : Input B) (xs rest : Bytes) (r : Input B × Bytes × LoopEnd)
      → pending F R s ≡ xs ++ rest
      → length xs ≡ n
      → IsRead F R n s r
      → IsWhole F R r
      → Gives xs rest (finished err r)
  unfolding finished
  finished-Gives err n s xs rest (s', bs, complete) e l (p, d) (w, a) =
      let same : length bs ≡ length xs = ground (arith, d, l) in
      let (x, y) = append_injective bs xs (pending F R s') rest (sym p ∙ e) same in
      (ap (λ l. got l) x, y, a)
  finished-Gives err n s xs rest (s', bs, stopped) e l (p, d) (w, a) = absurd (cc)
  finished-Gives err n s xs rest (s', bs, cut_short) e l (p, d) (w, a) = absurd (cc)

  pub read_full-Gives :
      (t : ℤ) (n : ℕ) (err : IoErr) (s : Input B) (xs rest : Bytes)
      → pending F R s ≡ xs ++ rest
      → length xs ≡ n
      → IsReady F R s
      → Gives xs rest (read_full t n err s)
  read_full-Gives t n err s xs rest e l a =
      let enough : n ≤ length (pending F R s) =
        omega (arith, ap length e, length-append xs rest, l) in
      rw (read_full-finished t n err s) (
        finished-Gives err n s xs rest (read_full_loop (2 * n + 1) t n s) e l
          (read_full_loop-IsRead F R (2 * n + 1) t n s (omega arith))
          (read_full_loop-IsWhole F R (2 * n + 1) t n s (omega arith) enough a))

  bind-Gives :
      {A C : Type 0} (m : Input B → Input B × IoEnd A) (k : A → Input B → Input B × IoEnd C) (a : A)
      (c : C) (mid rest : Bytes) (s : Input B)
      → Gives a mid (m s)
      → ((s' : Input B) → pending F R s' ≡ mid → IsReady F R s' → Gives c rest (k a s'))
      → Gives c rest ((m >>= k) s)
  bind-Gives m k a c mid rest s (e, p, al) next = rw (bind_got m k a s e) (next (m s).0 p al)

  read_payload-Gives :
      (cfg : SessionConfig) (p : Packet) (s : Input B) (rest : Bytes)
      → IsAllowed cfg p
      → pending F R s ≡ packet_data p ++ rest
      → IsReady F R s
      → Gives p rest (read_payload cfg (packet_proto_type p) (length (packet_data p)) s)
  unfolding read_payload read_heartbeat read_close_req read_close_resp read_raw packet_data
      packet_proto_type eqb_ℤ
  read_payload-Gives cfg (heartbeat_packet b) s rest ok e a =
      bind-Gives (read_full cfg.read_write_timeout 1 read_heartbeat_payload)
        (λ bs. gives (heartbeat_packet (one_byte bs))) (b ∷ []) (heartbeat_packet b) rest rest s
        (read_full-Gives cfg.read_write_timeout 1 read_heartbeat_payload s (b ∷ []) rest e
          (omega arith) a)
        (λ s' q al. (refl, q, al))
  read_payload-Gives cfg close_req_packet s rest ok e a = (refl, e, a)
  read_payload-Gives cfg (close_resp_packet b) s rest ok e a =
      bind-Gives (read_full cfg.read_write_timeout 1 read_close_resp_payload)
        (λ bs. gives (close_resp_packet (one_byte bs))) (b ∷ []) (close_resp_packet b) rest rest s
        (read_full-Gives cfg.read_write_timeout 1 read_close_resp_payload s (b ∷ []) rest e
          (omega arith) a)
        (λ s' q al. (refl, q, al))
  read_payload-Gives cfg (raw_packet bs) s rest ok e a =
      let fits : ltb (uint32 cfg.max_packet_length) (length bs) ≡ false = ground (arith, ok) in
      rw fits (
        bind-Gives (read_full cfg.read_write_timeout (length bs) read_raw_body)
          (λ bs. gives (raw_packet bs)) bs (raw_packet bs) rest rest s
          (read_full-Gives cfg.read_write_timeout (length bs) read_raw_body s bs rest e refl a)
          (λ s' q al. (refl, q, al)))

  -- What a packet is on the wire is read as that packet and no byte more, whatever pieces it arrives
  -- in, on a connection that does not fail.
  pub session_read_packet-Gives :
      (cfg : SessionConfig) (p : Packet) (s : Input B) (rest : Bytes)
      → IsAllowed cfg p
      → pending F R s ≡ encode p ++ rest
      → IsReady F R s
      → Gives p rest (session_read_packet cfg s)
  unfolding session_read_packet encode
  session_read_packet-Gives cfg p s rest ok e a =
      let n = length (packet_data p) in
      let small : n % 2 ^ 32 ≡ n = let h = length_allowed cfg p ok in omega (arith, h) in
      let head = make_head (packet_proto_type p) n in
      let (pt, pl, six) =
        read-make_head (packet_proto_type p) n (packet_proto_type-IsInt8 p)
          (length_allowed cfg p ok) in
      let front : pending F R s ≡ head ++ (packet_data p ++ rest) =
        e
        ∙ ap (λ m. (make_head (packet_proto_type p) m ++ packet_data p) ++ rest) small
        ∙ append_assoc head (packet_data p) rest in
      bind-Gives (read_full cfg.read_write_timeout 6 read_packet_head)
        (λ hd. read_payload cfg (head_proto_type hd) (payload_len hd)) head p
        (packet_data p ++ rest) rest s
        (read_full-Gives cfg.read_write_timeout 6 read_packet_head s head (packet_data p ++ rest)
          front six a)
        (λ s' q al. rw (pt, pl) (read_payload-Gives cfg p s' rest ok q al))
