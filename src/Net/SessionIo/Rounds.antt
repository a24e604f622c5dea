-- ===== src/Net/SessionIo/Rounds.antt =====
-- The loop of readFull, over a connection that hands over its bytes in pieces of any size.
use mathlib.Core.List.{append_assoc}
use gcluster.Common.{
  ℕ, zero, suc, ◌+◌, ◌-◌, ◌*◌, ◌≤◌, ◌<◌, ◌≡◌, ◌⊎◌, ◌∙◌, sym, ap, refl, true, false, [], ◌∷◌, ◌++◌,
  ltb, length, length-append, arith, Bool-cases, inl, inr,
}
use gcluster.Common.Int.{ℤ}
use gcluster.Common.Bytes.{Bytes}
use gcluster.Net.BufferIo.{BufferIo, IsBuffer, IsReader, fine, eof}
use gcluster.Net.SessionIo.{
  Input, LoopEnd, complete, stopped, prepend, read_to_buffer, read_full_loop,
}

pub empty_of_length : (xs : Bytes) → length xs ≡ 0 → xs ≡ []
empty_of_length [] h = refl
empty_of_length (x ∷ xs) h = absurd (omega (arith, h))

pub append_nil_parts : (xs ys : Bytes) → [] ≡ xs ++ ys → (xs ≡ []) × (ys ≡ [])
append_nil_parts [] ys h = (refl, sym h)
append_nil_parts (x ∷ xs) ys h = absurd (omega (arith, ap length h))

-- The input after one read of the buffer.
abbrev pub after : {B : BufferIo} → ℕ → Input B → Input B
after {B} n s = record s { buffer = (B.read n s.buffer).0 }

pub loop_done :
    {B : BufferIo} (f : ℕ) (t : ℤ) (s : Input B) → read_full_loop f t 0 s ≡ (s, [], complete)
unfolding read_full_loop
loop_done zero t s = refl
loop_done (suc f) t s = refl

-- One round of the loop, in each of the cases that a buffer leaves.
module _ {B : BufferIo} (t : ℤ) (fuel n : ℕ) (s : Input B) where
  pub loop_fine :
      0 < n
      → (B.read n s.buffer).2 ≡ fine
      → read_full_loop (suc fuel) t n s
        ≡ prepend
            (B.read n s.buffer).1
            (read_full_loop fuel t (n - length (B.read n s.buffer).1) (after n s))
  unfolding read_full_loop
  loop_fine h e = ground (arith, h, e)

  pub loop_refilled :
      0 < n
      → (B.read n s.buffer).2 ≡ eof
      → (read_to_buffer t (after n s)).1 ≡ true
      → read_full_loop (suc fuel) t n s
        ≡ prepend (B.read n s.buffer).1 (
            read_full_loop fuel t
              (n - length (B.read n s.buffer).1)
              (read_to_buffer t (after n s)).0)
  unfolding read_full_loop
  loop_refilled h e k = ground (arith, h, e, k)

  loop_stopped :
      0 < n
      → (B.read n s.buffer).2 ≡ eof
      → (read_to_buffer t (after n s)).1 ≡ false
      → read_full_loop (suc fuel) t n s
        ≡ ((read_to_buffer t (after n s)).0, (B.read n s.buffer).1, stopped)
  unfolding read_full_loop
  loop_stopped h e k = ground (arith, h, e, k)

module _ {B : BufferIo} (F : IsBuffer B) (R : IsReader B F) where
  -- The bytes that are still to be read: those in the buffer, then those on the connection.
  abbrev pub pending : Input B → Bytes
  pending s = F.contents s.buffer ++ R.stream s.reader

  -- What a loop for `n` bytes may do: it takes the bytes that it returns off the front, and either it
  -- has them all or the connection has failed.
  abbrev pub IsRead : ℕ → Input B → Input B × Bytes × LoopEnd → Type 0
  IsRead n s (s', bs, e) =
      (pending s ≡ bs ++ pending s') × (((e ≡ complete) × (length bs ≡ n)) ⊎ (e ≡ stopped))

  prepend-IsRead :
      (n : ℕ) (s s1 : Input B) (bs : Bytes) (r : Input B × Bytes × LoopEnd)
      → pending s ≡ bs ++ pending s1
      → length bs ≤ n
      → IsRead (n - length bs) s1 r
      → IsRead n s (prepend bs r)
  prepend-IsRead n s s1 bs (s', more, e) p le (q, d) = (
    p ∙ ap (λ l. bs ++ l) q ∙ sym (append_assoc bs more (pending s')),
    ground (arith, d, length-append bs more, le),
  )

  pub read-pending :
      (n : ℕ) (s : Input B) → pending s ≡ (B.read n s.buffer).1 ++ pending (after n s)
  read-pending n s =
      ap (λ l. l ++ R.stream s.reader) (F.read_contents n s.buffer)
      ∙ append_assoc (B.read n s.buffer).1 (F.contents (B.read n s.buffer).0) (R.stream s.reader)

  pub read_to_buffer-pending : (t : ℤ) (s : Input B) → pending (read_to_buffer t s).0 ≡ pending s
  unfolding read_to_buffer
  read_to_buffer-pending t s =
      let r = (B.set_read_deadline t s.reader).0 in
      elim (Bool-cases (B.set_read_deadline t s.reader).1) [
        | inl e ↦
            rw (e, read_to_buffer)
              (R.read_from_moves r s.buffer
                ∙ ap (λ l. F.contents s.buffer ++ l) (R.deadline_stream t s.reader))
        | inr e ↦
            rw (e, read_to_buffer)
              (ap (λ l. F.contents s.buffer ++ l) (R.deadline_stream t s.reader))
      ]

  -- A refill that succeeds has put something into an empty buffer.
  pub read_to_buffer_some :
      (t : ℤ) (s : Input B)
      → F.contents s.buffer ≡ []
      → (read_to_buffer t s).1 ≡ true
      → 0 < length (F.contents (read_to_buffer t s).0.buffer)
  unfolding read_to_buffer
  read_to_buffer_some t s h k =
      let r = (B.set_read_deadline t s.reader).0 in
      ground (arith, k, R.read_from_some r s.buffer, h)

  -- A connection that does not fail, and a buffer that can take something.
  abbrev pub IsReady : Input B → Type 0
  IsReady s = R.alive s.reader × (0 < F.size s.buffer)

  pub after-IsReady : (n : ℕ) (s : Input B) → IsReady s → IsReady (after n s)
  after-IsReady n s (a, z) = (a, rw (F.read_size n s.buffer) z)

  pub read_to_buffer-IsReady :
      (t : ℤ) (s : Input B)
      → IsReady s
      → 0 < length (R.stream s.reader)
      → F.contents s.buffer ≡ []
      → ((read_to_buffer t s).1 ≡ true) × IsReady (read_to_buffer t s).0
  unfolding read_to_buffer
  read_to_buffer-IsReady t s (a, z) h none_left =
      let r = (B.set_read_deadline t s.reader).0 in
      let (ok, a1) = R.deadline_alive t s.reader a in
      let h1 : 0 < length (R.stream r) = rw (R.deadline_stream t s.reader) h in
      let (ok1, a2) = R.read_from_alive r s.buffer a1 h1 none_left z in
      rw (ok, read_to_buffer) (ok1, (a2, rw (R.read_from_size r s.buffer) z))

  -- Rounds that are enough: two for each byte, and one for a refill.
  abbrev pub Enough : ℕ → ℕ → Input B → Type 0
  Enough fuel n s = 2 * n + (1 - length (F.contents s.buffer)) ≤ fuel

  pub read_full_loop-IsRead :
      (fuel : ℕ) (t : ℤ) (n : ℕ) (s : Input B)
      → Enough fuel n s
      → IsRead n s (read_full_loop fuel t n s)
  read_full_loop-IsRead fuel t zero s h = rw (loop_done fuel t s) (refl, inl (refl, refl))
  read_full_loop-IsRead zero t (suc n) s h = absurd (omega (arith, h))
  read_full_loop-IsRead (suc fuel) t (suc n) s h =
      let bs = (B.read (suc n) s.buffer).1 in
      let s1 = after (suc n) s in
      let short = F.read_length (suc n) s.buffer in
      elim (Bool-cases (ltb 0 (length (F.contents s.buffer)))) [
        | inl some_left ↦
            let nonempty : 0 < length (F.contents s.buffer) = ground (arith, some_left) in
            let (e, k) = F.read_some (suc n) s.buffer (omega arith) nonempty in
            rw (loop_fine t fuel (suc n) s (omega arith) e) (
              prepend-IsRead (suc n) s s1 bs _ (read-pending (suc n) s) short (
                read_full_loop-IsRead fuel t (suc n - length bs) s1
                  (omega (arith, h, k, nonempty, short))))
        | inr nothing ↦
            let none_left : F.contents s.buffer ≡ [] =
              empty_of_length (F.contents s.buffer) (ground (arith, nothing)) in
            let (gone, left) =
              append_nil_parts bs (F.contents s1.buffer)
                (sym none_left ∙ F.read_contents (suc n) s.buffer) in
            let e = F.read_eof (suc n) s.buffer (omega arith) none_left in
            let s2 = (read_to_buffer t s1).0 in
            let moved : pending s ≡ bs ++ pending s2 =
              read-pending (suc n) s ∙ ap (λ l. bs ++ l) (sym (read_to_buffer-pending t s1)) in
            elim (Bool-cases (read_to_buffer t s1).1) [
              | inl ok ↦
                  let refill = read_to_buffer_some t s1 left ok in
                  rw (loop_refilled t fuel (suc n) s (omega arith) e ok) (
                    prepend-IsRead (suc n) s s2 bs _ moved short (
                      read_full_loop-IsRead fuel t (suc n - length bs) s2
                        (omega (arith, h, refill, ap length none_left))))
              | inr ko ↦ rw (loop_stopped t fuel (suc n) s (omega arith) e ko) (moved, inr refl)
            ]
      ]
