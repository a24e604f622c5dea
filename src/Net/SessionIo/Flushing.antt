-- ===== src/Net/SessionIo/Flushing.antt =====
-- writeFromBuffer, and writeFull between two rounds: what is laid on the connection stays in its order.
use gcluster.Common.{
  ℕ, zero, suc, ◌≤◌, ◌≡◌, ◌⊎◌, ◌∙◌, ap, refl, true, [], ◌++◌, ◌==◌, length, arith, Bool-cases, inl,
  inr,
}
use gcluster.Common.Int.{ℤ}
use gcluster.Common.Bytes.{Bytes}
use gcluster.Net.BufferIo.{BufferIo, BufErr, IsBuffer, IsWriter, fine, eof, full, broken}
use gcluster.Net.Config.{SessionConfig}
use gcluster.Net.SessionIo.{LoopEnd, complete, stopped}
use gcluster.Net.SessionIo.Rounds.{empty_of_length}
use gcluster.Net.SessionIo.Output.{
  Output, write_out, write_from_buffer, batch_due, flush_if_due, start_batch,
}

module _ {B : BufferIo} (F : IsBuffer B) (W : IsWriter B F) where
  -- The bytes that have been taken in: those sent, then those in the buffer.
  abbrev pub laid : Output B → Bytes
  laid o = W.sent o.writer ++ F.contents o.buffer

  -- A call that writes the buffer out neither loses nor adds a byte, and leaves it empty unless the
  -- connection has failed.
  abbrev pub IsFlushed : Output B → Output B × LoopEnd → Type 0
  IsFlushed o (o', e) =
      (laid o' ≡ laid o)
      × (F.size o'.buffer ≡ F.size o.buffer)
      × (((e ≡ complete) × (F.contents o'.buffer ≡ [])) ⊎ (e ≡ stopped))

  pub readable_none : (b : B.Buffer) → (B.readable b == 0) ≡ true → F.contents b ≡ []
  readable_none b h = empty_of_length (F.contents b) (ground (arith, h, F.readable_lem b))

  write_out-IsFlushed :
      (fuel : ℕ) (o : Output B)
      → length (F.contents o.buffer) ≤ fuel
      → IsFlushed o (write_out fuel o)
  unfolding write_out
  write_out-IsFlushed zero o h =
      let none_left : (B.readable o.buffer == 0) ≡ true =
        ground (arith, h, F.readable_lem o.buffer) in
      rw none_left (refl, refl, inl (refl, readable_none o.buffer none_left))
  write_out-IsFlushed (suc fuel) o h =
      let r = B.write_to o.writer o.buffer in
      let o1 : Output B = record o { writer = r.0; buffer = r.1 } in
      let moved = W.write_to_moves o.writer o.buffer in
      let same = W.write_to_size o.writer o.buffer in
      elim (Bool-cases (B.readable o.buffer == 0)) [
        | inl none_left ↦ rw none_left (refl, refl, inl (refl, readable_none o.buffer none_left))
        | inr some_left ↦ elim (Bool-cases r.2) [
          | inl ok ↦
              let less =
                W.write_to_some o.writer o.buffer ok
                  (ground (arith, some_left, F.readable_lem o.buffer)) in
              let (l, z, c) = write_out-IsFlushed fuel o1 (omega (arith, h, less)) in
              rw (some_left, ok) (l ∙ moved, z ∙ same, c)
          | inr ko ↦ rw (some_left, ko) (moved, same, inr refl)
        ]
      ]

  pub write_from_buffer-IsFlushed : (t : ℤ) (o : Output B) → IsFlushed o (write_from_buffer t o)
  unfolding write_from_buffer
  write_from_buffer-IsFlushed t o =
      let d = B.set_write_deadline t o.writer in
      let o1 : Output B = record o { writer = d.0 } in
      let same : laid o1 ≡ laid o =
        ap (λ l. l ++ F.contents o.buffer) (W.deadline_sent t o.writer) in
      let out = write_out (B.readable o.buffer) o1 in
      let (l, z, c) =
        write_out-IsFlushed (B.readable o.buffer) o1 (omega (arith, F.readable_lem o.buffer)) in
      elim (Bool-cases d.1) [
        | inl ok ↦ rw ok (elim c [
          | inl (e, k) ↦ rw e (l ∙ same, z, inl (refl, k))
          | inr e ↦ rw e (l ∙ same, z, inr refl)
        ])
        | inr ko ↦ rw ko (same, refl, inr refl)
      ]

  batch_due-laid :
      (cfg : SessionConfig) (o : Output B)
      → (laid (batch_due cfg o).0 ≡ laid o) × ((batch_due cfg o).0.buffer ≡ o.buffer)
  unfolding batch_due
  batch_due-laid cfg o =
      let same = ap (λ l. l ++ F.contents o.buffer) (W.clock_sent o.writer) in ground (arith, same)

  pub start_batch-laid :
      (o : Output B) → (laid (start_batch o) ≡ laid o) × ((start_batch o).buffer ≡ o.buffer)
  unfolding start_batch
  start_batch-laid o =
      let same = ap (λ l. l ++ F.contents o.buffer) (W.clock_sent o.writer) in ground (arith, same)

  -- Between two rounds nothing is lost, and a buffer that was full is empty.
  abbrev pub IsKept : BufErr → Output B → Output B × LoopEnd → Type 0
  IsKept e o (o', end) =
      (laid o' ≡ laid o)
      × (F.size o'.buffer ≡ F.size o.buffer)
      × (((end ≡ complete) × ((e ≡ fine) ⊎ (F.contents o'.buffer ≡ []))) ⊎ (end ≡ stopped))

  IsFlushed-IsKept :
      (e : BufErr) (o : Output B) (r : Output B × LoopEnd) → IsFlushed o r → IsKept e o r
  IsFlushed-IsKept e o (o', end) h = ground (arith, h)

  pub flush_if_due-IsKept :
      (cfg : SessionConfig) (e : BufErr) (o : Output B)
      → (e ≡ fine) ⊎ (e ≡ full)
      → IsKept e o (flush_if_due cfg e o)
  unfolding flush_if_due
  flush_if_due-IsKept cfg full o h =
      IsFlushed-IsKept full o (write_from_buffer cfg.read_write_timeout o)
        (write_from_buffer-IsFlushed cfg.read_write_timeout o)
  flush_if_due-IsKept cfg fine o h =
      let o1 = (batch_due cfg o).0 in
      let (l, b) = batch_due-laid cfg o in
      let (l1, z1, c1) = write_from_buffer-IsFlushed cfg.read_write_timeout o1 in
      elim (Bool-cases (batch_due cfg o).1) [
        | inl due ↦ rw due (l1 ∙ l, z1 ∙ ap (λ x. F.size x) b, ground (arith, c1))
        | inr ok ↦ rw ok (l, ap (λ x. F.size x) b, inl (refl, inl refl))
      ]
  flush_if_due-IsKept cfg eof o h = absurd (ground (arith, h))
  flush_if_due-IsKept cfg broken o h = absurd (ground (arith, h))
