-- ===== src/Net/SessionIo/Whole.antt =====
-- The loop of readFull, over a connection that does not fail before it has handed over enough.
use gcluster.Common.{
  ℕ, zero, suc, ◌-◌, ◌≤◌, ◌<◌, ◌≡◌, ◌∙◌, sym, ap, refl, [], ◌++◌, ltb, length, length-append, arith,
  Bool-cases, inl, inr,
}
use gcluster.Common.Int.{ℤ}
use gcluster.Common.Bytes.{Bytes}
use gcluster.Net.BufferIo.{BufferIo, IsBuffer, IsReader}
use gcluster.Net.SessionIo.{Input, LoopEnd, complete, prepend, read_to_buffer, read_full_loop}
use gcluster.Net.SessionIo.Rounds.{
  empty_of_length, append_nil_parts, after, loop_done, loop_fine, loop_refilled, read-pending,
  read_to_buffer_some, read_to_buffer-IsReady, read_to_buffer-pending, after-IsReady, pending,
  Enough, IsReady,
}

module _ {B : BufferIo} (F : IsBuffer B) (R : IsReader B F) where
  -- A connection that does not fail, and has the bytes, gives them all.
  abbrev pub IsWhole : Input B × Bytes × LoopEnd → Type 0
  IsWhole (s', bs, e) = (e ≡ complete) × IsReady F R s'

  prepend-IsWhole :
      (bs : Bytes) (r : Input B × Bytes × LoopEnd) → IsWhole r → IsWhole (prepend bs r)
  prepend-IsWhole bs (s', more, e) h = h

  length-pending :
      (n : ℕ) (s s1 : Input B) (bs : Bytes)
      → pending F R s ≡ bs ++ pending F R s1
      → n ≤ length (pending F R s)
      → n - length bs ≤ length (pending F R s1)
  length-pending n s s1 bs p h = omega (arith, h, ap length p, length-append bs (pending F R s1))

  pub read_full_loop-IsWhole :
      (fuel : ℕ) (t : ℤ) (n : ℕ) (s : Input B)
      → Enough F R fuel n s
      → n ≤ length (pending F R s)
      → IsReady F R s
      → IsWhole (read_full_loop fuel t n s)
  read_full_loop-IsWhole fuel t zero s h m a = rw (loop_done fuel t s) (refl, a)
  read_full_loop-IsWhole zero t (suc n) s h m a = absurd (omega (arith, h))
  read_full_loop-IsWhole (suc fuel) t (suc n) s h m a =
      let bs = (B.read (suc n) s.buffer).1 in
      let s1 = after (suc n) s in
      let short = F.read_length (suc n) s.buffer in
      elim (Bool-cases (ltb 0 (length (F.contents s.buffer)))) [
        | inl some_left ↦
            let nonempty : 0 < length (F.contents s.buffer) = ground (arith, some_left) in
            let (e, k) = F.read_some (suc n) s.buffer (omega arith) nonempty in
            rw (loop_fine t fuel (suc n) s (omega arith) e) (
              prepend-IsWhole bs (read_full_loop fuel t (suc n - length bs) s1) (
                read_full_loop-IsWhole fuel t (suc n - length bs) s1
                  (omega (arith, h, k, nonempty, short))
                  (length-pending (suc n) s s1 bs (read-pending F R (suc n) s) m)
                  (after-IsReady F R (suc n) s a)))
        | inr nothing ↦
            let none_left : F.contents s.buffer ≡ [] =
              empty_of_length (F.contents s.buffer) (ground (arith, nothing)) in
            let (gone, left) =
              append_nil_parts bs (F.contents s1.buffer)
                (sym none_left ∙ F.read_contents (suc n) s.buffer) in
            let e = F.read_eof (suc n) s.buffer (omega arith) none_left in
            let s2 = (read_to_buffer t s1).0 in
            let arriving : 0 < length (R.stream s.reader) = omega (
              arith,
              m,
              length-append (F.contents s.buffer) (R.stream s.reader),
              ap length none_left,
            ) in
            let (ok, a2) =
              read_to_buffer-IsReady F R t s1 (after-IsReady F R (suc n) s a) arriving left in
            let refill = read_to_buffer_some F R t s1 left ok in
            let moved : pending F R s ≡ bs ++ pending F R s2 =
              read-pending F R (suc n) s
              ∙ ap (λ l. bs ++ l) (sym (read_to_buffer-pending F R t s1)) in
            rw (loop_refilled t fuel (suc n) s (omega arith) e ok) (
              prepend-IsWhole bs (read_full_loop fuel t (suc n - length bs) s2) (
                read_full_loop-IsWhole fuel t (suc n - length bs) s2
                  (omega (arith, h, refill, ap length none_left))
                  (length-pending (suc n) s s2 bs moved m) a2))
      ]
