-- ===== src/Net/SessionIo/Writing.antt =====
-- writeFull: what it lays on the connection and in the buffer.
use mathlib.Core.List.{append_assoc, append-nil}
use gcluster.Common.{
  ℕ, zero, suc, ◌+◌, ◌-◌, ◌*◌, ◌≤◌, ◌<◌, ◌≡◌, ◌⊎◌, ◌∙◌, sym, ap, refl, true, false, [], ◌∷◌, ◌++◌,
  ltb, ◌==◌, length, take, drop, take-append-drop, length-drop, arith, Bool-cases, inl, inr,
}
use gcluster.Common.Bytes.{Bytes}
use gcluster.Net.BufferIo.{BufferIo, BufErr, IsBuffer, IsWriter, fine, full}
use gcluster.Net.Config.{SessionConfig}
use gcluster.Net.SessionIo.{LoopEnd, complete, stopped}
use gcluster.Net.SessionIo.Rounds.{empty_of_length}
use gcluster.Net.SessionIo.Output.{
  Output, flush_if_due, write_once, write_full_loop, start_batch, write_full,
}
use gcluster.Net.SessionIo.Flushing.{laid, flush_if_due-IsKept, start_batch-laid}

-- The rounds that are left are enough again.
enough_left :
    (fuel n len c c' : ℕ)
    → (2 * len) + (1 - (1 - c)) ≤ suc fuel
    → (n ≡ len) ⊎ (c' ≡ 0)
    → (0 < c) ⊎ (0 < n)
    → 0 < len
    → (2 * (len - n)) + (1 - (1 - c')) ≤ fuel
enough_left fuel n len c c' h (inl e) m l = omega (arith, h, e, l)
enough_left fuel n len c c' h (inr e) (inl m) l = omega (arith, h, e, m, l)
enough_left fuel n len c c' h (inr e) (inr m) l = omega (arith, h, e, m, l)

enough_drop :
    (fuel n : ℕ) (p : Bytes) (c c' : ℕ)
    → (2 * length p) + (1 - (1 - c)) ≤ suc fuel
    → (n ≡ length p) ⊎ (c' ≡ 0)
    → (0 < c) ⊎ (0 < n)
    → 0 < length p
    → (2 * length (drop n p)) + (1 - (1 - c')) ≤ fuel
enough_drop fuel n p c c' h e m l =
    rw (length-drop n p) (enough_left fuel n (length p) c c' h e m l)

module _ {B : BufferIo} (F : IsBuffer B) (W : IsWriter B F) where
  -- A call that writes `bs` takes in a part of it, from its front, and all of it unless the
  -- connection has failed.
  abbrev pub IsTaken : Bytes → Output B → Output B × LoopEnd → Type 0
  IsTaken bs o (o', e) =
      (some_bytes : Bytes) × (left : Bytes) × (bs ≡ some_bytes ++ left)
      × (laid F W o' ≡ laid F W o ++ some_bytes)
      × (F.size o'.buffer ≡ F.size o.buffer)
      × (((e ≡ complete) × (left ≡ [])) ⊎ (e ≡ stopped))

  write_once-laid :
      (p : Bytes) (o : Output B)
      → (laid F W (write_once p o).0 ≡ laid F W o ++ take (write_once p o).1 p)
        × (F.size (write_once p o).0.buffer ≡ F.size o.buffer)
  unfolding write_once
  write_once-laid p o = (
    ap (λ l. W.sent o.writer ++ l) (F.write_contents p o.buffer)
        ∙ sym
            (append_assoc (W.sent o.writer) (F.contents o.buffer) (take (B.write p o.buffer).1 p)),
    F.write_size p o.buffer,
  )

  -- Rounds that are enough: two for each byte, and one for a buffer that is not empty at first.
  abbrev EnoughRounds : ℕ → Bytes → Output B → Type 0
  EnoughRounds fuel p o = (2 * length p) + (1 - (1 - length (F.contents o.buffer))) ≤ fuel

  then-IsTaken :
      (n : ℕ) (p : Bytes) (o o1 : Output B) (r : Output B × LoopEnd)
      → laid F W o1 ≡ laid F W o ++ take n p
      → F.size o1.buffer ≡ F.size o.buffer
      → IsTaken (drop n p) o1 r
      → IsTaken p o r
  then-IsTaken n p o o1 (o', e) l z (bs, left, split, l', z', c) = (
    take n p ++ bs,
    left,
    sym (take-append-drop n p)
        ∙ ap (λ x. take n p ++ x) split
        ∙ sym (append_assoc (take n p) bs left),
    l' ∙ ap (λ x. x ++ bs) l ∙ append_assoc (laid F W o) (take n p) bs,
    z' ∙ z,
    c,
  )

  stop-IsTaken :
      (n : ℕ) (p : Bytes) (o o1 : Output B)
      → laid F W o1 ≡ laid F W o ++ take n p
      → F.size o1.buffer ≡ F.size o.buffer
      → IsTaken p o (o1, stopped)
  stop-IsTaken n p o o1 l z = (take n p, drop n p, sym (take-append-drop n p), l, z, inr refl)

  write_once_moves :
      (p : Bytes) (o : Output B)
      → 0 < F.size o.buffer
      → 0 < length p
      → (0 < length (F.contents o.buffer)) ⊎ (0 < (write_once p o).1)
  unfolding write_once
  write_once_moves p o some_size some_bytes =
      elim (Bool-cases (ltb 0 (length (F.contents o.buffer)))) [
        | inl some_left ↦ inl (ground (arith, some_left))
        | inr nothing ↦ inr (
            F.write_empty p o.buffer some_size
              (empty_of_length (F.contents o.buffer) (ground (arith, nothing))) some_bytes)
      ]

  write_once_err :
      (p : Bytes) (o : Output B) → ((write_once p o).2 ≡ fine) ⊎ ((write_once p o).2 ≡ full)
  unfolding write_once
  write_once_err p o = ground (arith, F.write_err p o.buffer)

  write_once_whole :
      (p : Bytes) (o : Output B) (c : ℕ)
      → ((write_once p o).2 ≡ fine) ⊎ (c ≡ 0)
      → ((write_once p o).1 ≡ length p) ⊎ (c ≡ 0)
  unfolding write_once
  write_once_whole p o c k = ground (arith, k, F.write_err p o.buffer)

  kept_empty : (e : BufErr) (xs : Bytes) → (e ≡ fine) ⊎ (xs ≡ []) → (e ≡ fine) ⊎ (length xs ≡ 0)
  kept_empty e xs (inl k) = inl k
  kept_empty e xs (inr k) = inr (ap length k)

  loop_nothing :
      (fuel : ℕ) (cfg : SessionConfig) (p : Bytes) (o : Output B)
      → (length p == 0) ≡ true
      → write_full_loop fuel cfg p o ≡ (o, complete)
  unfolding write_full_loop
  loop_nothing zero cfg p o h = rw h refl
  loop_nothing (suc fuel) cfg p o h = rw h refl

  -- What one round leaves.
  abbrev round : SessionConfig → Bytes → Output B → Output B × LoopEnd
  round cfg p o = flush_if_due cfg (write_once p o).2 (write_once p o).0

  loop_again :
      (fuel : ℕ) (cfg : SessionConfig) (p : Bytes) (o : Output B)
      → 0 < length p
      → (round cfg p o).1 ≡ complete
      → write_full_loop (suc fuel) cfg p o
        ≡ write_full_loop fuel cfg (drop (write_once p o).1 p) (round cfg p o).0
  unfolding write_full_loop
  loop_again fuel cfg p o h e =
      let some_bytes : (length p == 0) ≡ false = ground (arith, h) in rw (some_bytes, e) refl

  loop_stopped :
      (fuel : ℕ) (cfg : SessionConfig) (p : Bytes) (o : Output B)
      → 0 < length p
      → (round cfg p o).1 ≡ stopped
      → write_full_loop (suc fuel) cfg p o ≡ ((round cfg p o).0, stopped)
  unfolding write_full_loop
  loop_stopped fuel cfg p o h e =
      let some_bytes : (length p == 0) ≡ false = ground (arith, h) in rw (some_bytes, e) refl

  write_full_loop-IsTaken :
      (fuel : ℕ) (cfg : SessionConfig) (p : Bytes) (o : Output B)
      → 0 < F.size o.buffer
      → EnoughRounds fuel p o
      → IsTaken p o (write_full_loop fuel cfg p o)
  write_full_loop-IsTaken fuel cfg [] o some_size h =
      rw (loop_nothing fuel cfg [] o refl)
        ([], [], refl, sym (append-nil (laid F W o)), refl, inl (refl, refl))
  write_full_loop-IsTaken zero cfg (x ∷ xs) o some_size h = absurd (omega (arith, h))
  write_full_loop-IsTaken (suc fuel) cfg (x ∷ xs) o some_size h =
      let p = x ∷ xs in
      let one = write_once p o in
      let between = round cfg p o in
      let (l1, z1) = write_once-laid p o in
      let (l2, z2, c) = flush_if_due-IsKept F W cfg one.2 one.0 (write_once_err p o) in
      elim c [
        | inl (e, k) ↦ rw (loop_again fuel cfg p o (omega arith) e) (
            then-IsTaken one.1 p o between.0 (write_full_loop fuel cfg (drop one.1 p) between.0)
              (l2 ∙ l1) (z2 ∙ z1)
              (write_full_loop-IsTaken fuel cfg (drop one.1 p) between.0 (rw (z2, z1) some_size) (
                enough_drop fuel one.1 p (length (F.contents o.buffer))
                  (length (F.contents between.0.buffer)) h
                  (write_once_whole p o (length (F.contents between.0.buffer))
                    (kept_empty one.2 (F.contents between.0.buffer) k))
                  (write_once_moves p o some_size (omega arith)) (omega arith))))
        | inr e ↦
            rw (loop_stopped fuel cfg p o (omega arith) e)
              (stop-IsTaken one.1 p o between.0 (l2 ∙ l1) (z2 ∙ z1))
      ]

  -- writeFull always returns: it takes in all of `p`, or a part of it from its front and an error of
  -- the connection; what was taken in before stays in front, in its order.
  pub write_full-IsTaken :
      (cfg : SessionConfig) (p : Bytes) (o : Output B)
      → 0 < F.size o.buffer
      → IsTaken p o (write_full cfg p o)
  unfolding write_full
  write_full-IsTaken cfg p o some_size =
      let o1 = start_batch o in
      let (l, b) = start_batch-laid F W o in
      let same = ap (λ x. F.size x) b in
      let (bs, left, split, l', z, c) =
        write_full_loop-IsTaken (2 * length p + 1) cfg p o1 (rw same some_size) (omega arith) in
      (bs, left, split, l' ∙ ap (λ x. x ++ bs) l, z ∙ same, c)
