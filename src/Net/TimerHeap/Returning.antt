-- ===== src/Net/TimerHeap/Returning.antt =====
-- The loop of update returns.
use gcluster.Common.{
  ℕ, zero, suc, ◌≤◌, ◌<◌, ◌≡◌, ◌⊎◌, ◌∙◌, ap, refl, true, false, ◌==◌, arith, either, either_option,
  inl, inr,
}
use gcluster.Common.Int.{ℤ, ◌≤ℤ◌, ◌<ℤ◌, ltb_ℤ, ltb_ℤ_iff, ltb_ℤ_false}
use gcluster.Net.TimerHeap.{HeapOps, TimerHeap}
use gcluster.Net.TimerHeap.Update.{
  expire, update_round, RoundEnd, update_returns, calls, nil_pointer, invoke_callback, update,
  UpdateEnd, update_done,
}
use gcluster.Net.TimerHeap.Heap.{IsHeap}
use gcluster.Net.TimerHeap.Tables.{IsTables, held}
use gcluster.Net.TimerHeap.Starting.{top_earliest, expire-IsTables}
use gcluster.Net.TimerHeap.Preserved.{top_missing}
use gcluster.Net.TimerHeap.Turns.{
  enough_rounds, GoodDelays, later-IsTime, expire_frame, fewer_rounds, expire-GoodDelays,
}

module _ {H : HeapOps} (L : IsHeap H) (now : ℤ) where
  abbrev NoneDue : TimerHeap H → Type 0
  NoneDue th = (x : ℕ) → held L th x ≡ true → now <ℤ (th.timers x).expire_at

  -- A round calls a timer that is due, or returns and none is.
  abbrev IsNext : TimerHeap H → TimerHeap H × RoundEnd → Type 0
  IsNext th y =
      ((r : ℕ) × (held L th r ≡ true)
        × ((th.timers r).expire_at ≤ℤ now)
        × (y ≡ (expire r th, calls (th.timers r).cb (th.timers r).id (th.timers r).args)))
      ⊎ ((y.1 ≡ update_returns) × NoneDue y.0)

  update_round-IsNext :
      (th : TimerHeap H) → th.nil_heap ≡ false → IsTables L th → IsNext th (update_round now th)
  unfolding update_round
  update_round-IsNext th live t =
      either (λ (y : TimerHeap H × RoundEnd). IsNext th y) th.nil_heap (th, nil_pointer) _
        (λ e. absurd (ground (arith, live, e)))
        (λ _.
          either (λ (y : TimerHeap H × RoundEnd). IsNext th y) (H.len th.timer_heap == 0) _ _
            (λ e. inr (refl, λ x h. absurd (ground (arith, h, L.len_none th.timer_heap x e))))
            (λ e.
              either_option (λ (y : TimerHeap H × RoundEnd). IsNext th y) (H.top th.timer_heap) _ _
                (λ k. absurd (top_missing L th e k))
                (λ r k.
                  either (λ (y : TimerHeap H × RoundEnd). IsNext th y)
                    (ltb_ℤ now (th.timers r).expire_at) _ _
                    (λ b.
                      let early = (ltb_ℤ_iff now (th.timers r).expire_at).0 b in
                      inr (
                        refl,
                        λ x h. let f = top_earliest L r x th t k h in omega (arith, early, f),
                      ))
                    (λ b. inl (
                      r,
                      L.top_holds th.timer_heap r k,
                      ltb_ℤ_false now (th.timers r).expire_at b,
                      refl,
                    )))))

  update_calls :
      (fuel : ℕ) (meanwhile : ℕ → ℕ → ℕ → ℕ → TimerHeap H → TimerHeap H) (clock : ℕ → ℤ)
      (th th1 : TimerHeap H) (cb id args : ℕ)
      → update_round (clock 0) th ≡ (th1, calls cb id args)
      → update (suc fuel) meanwhile clock th ≡ (
          let y =
            update fuel
              (λ n. meanwhile (suc n))
              (λ n. clock (suc n))
              (meanwhile 0 cb id args th1) in
          (y.0, suc y.1, y.2))
  unfolding update invoke_callback
  update_calls fuel meanwhile clock th th1 cb id args e =
      rw (ap (λ z. z.1) e, update)
        (ap
          (λ z.
            let y =
              update fuel (λ n. meanwhile (suc n)) (λ n. clock (suc n))
                (invoke_callback (meanwhile 0) z.1 z.0) in
            (y.0, suc y.1, y.2))
          e)

  update_ends :
      (fuel : ℕ) (meanwhile : ℕ → ℕ → ℕ → ℕ → TimerHeap H → TimerHeap H) (clock : ℕ → ℤ)
      (th : TimerHeap H)
      → (update_round (clock 0) th).1 ≡ update_returns
      → update (suc fuel) meanwhile clock th ≡ ((update_round (clock 0) th).0, 0, update_done)
  unfolding update
  update_ends fuel meanwhile clock th e = rw (e, update) refl

  -- What a loop of update needs of its heap.
  abbrev pub IsLive : TimerHeap H → Type 0
  IsLive th = (th.nil_heap ≡ false) × IsTables L th × GoodDelays L now th

  -- What the callbacks and the other goroutines do between the rounds keeps the heap usable, and does
  -- not make more rounds necessary: they may stop timers, or start some that are not due yet.
  pub record IsQuiet (meanwhile : ℕ → ℕ → ℕ → ℕ → TimerHeap H → TimerHeap H) : Type 0 where
    pub keeps :
        (n cb id args : ℕ) (th : TimerHeap H) → IsLive th → IsLive (meanwhile n cb id args th)
    pub adds_none :
        (n cb id args : ℕ) (th : TimerHeap H)
        → IsLive th
        → enough_rounds L now (meanwhile n cb id args th) ≤ enough_rounds L now th

  abbrev pub IsDone : ℕ → TimerHeap H × ℕ × UpdateEnd → Type 0
  IsDone most (th, called, end) =
      (end ≡ update_done)
      × (called ≤ most)
      × ((x : ℕ) → held L th x ≡ true → now <ℤ (th.timers x).expire_at)

  called_before :
      (th1 th : TimerHeap H) (y : TimerHeap H × ℕ × UpdateEnd)
      → enough_rounds L now th1 < enough_rounds L now th
      → IsDone (enough_rounds L now th1) y
      → IsDone (enough_rounds L now th) (y.0, suc y.1, y.2)
  called_before th1 th (th', called, end) less (e, few, none_due) =
      (e, omega (arith, less, few), none_due)

  -- While the clock stands still and every callback returns, update returns: after no more calls than
  -- `enough_rounds`, when no timer is due. The heap is not nil and has the same timers as the map,
  -- each delay is above 0, and no time runs over an int64; what callbacks and other goroutines do to
  -- the heap between the rounds keeps this so and does not make more rounds necessary.
  pub update-IsDone :
      (fuel : ℕ) (meanwhile : ℕ → ℕ → ℕ → ℕ → TimerHeap H → TimerHeap H) (th : TimerHeap H)
      → IsQuiet meanwhile
      → enough_rounds L now th < fuel
      → th.nil_heap ≡ false
      → IsTables L th
      → GoodDelays L now th
      → IsDone (enough_rounds L now th) (update fuel meanwhile (λ _. now) th)
  update-IsDone zero meanwhile th quiet few live t good = absurd (omega (arith, few))
  update-IsDone (suc fuel) meanwhile th quiet few live t good =
      elim (update_round-IsNext th live t) [
        | inl (r, h, due, e) ↦
            let (positive, small) = good r h in
            let less = fewer_rounds L now r th t h due good in
            let (time, _) =
              later-IsTime L now (th.timers r).expire_at (th.timers r).delay (t.in_time r h) due
                positive small in
            let called : IsLive (expire r th) = (
              (expire_frame L now r th).1 ∙ live,
              expire-IsTables L r th h time t,
              expire-GoodDelays L now r th t h good,
            ) in
            let cb = (th.timers r).cb in
            let id = (th.timers r).id in
            let args = (th.timers r).args in
            let next = meanwhile 0 cb id args (expire r th) in
            let (live', t', good') = quiet.keeps 0 cb id args (expire r th) called in
            let few' = quiet.adds_none 0 cb id args (expire r th) called in
            let later : IsQuiet (λ n. meanwhile (suc n)) = record {
              keeps = λ n. quiet.keeps (suc n);
              adds_none = λ n. quiet.adds_none (suc n);
            } in
            rw (update_calls fuel meanwhile (λ _. now) th (expire r th) cb id args e) (
              called_before next th (update fuel (λ n. meanwhile (suc n)) (λ _. now) next)
                (omega (arith, less, few'))
                (update-IsDone fuel (λ n. meanwhile (suc n)) next later
                  (omega (arith, few, less, few')) live' t' good'))
        | inr (e, none_due) ↦
            rw (update_ends fuel meanwhile (λ _. now) th e) (refl, omega arith, none_due)
      ]
