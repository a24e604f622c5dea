-- ===== src/Net/TimerHeap/Turns.antt =====
-- How often the rounds of update call a timer.
use gcluster.Common.{
  ℕ, zero, suc, ◌+◌, ◌-◌, ◌^◌, ◌≤◌, ◌<◌, ◌≡◌, ◌≢◌, ◌⊎◌, ◌∙◌, sym, ap, refl, true, false, ◌==◌,
  arith, Bool-cases, either, inl, inr, if◌then◌else◌,
}
use gcluster.Common.Int.{ℤ, pos, negsuc, pos_part, ◌+ℤ◌, ◌≤ℤ◌, ◌<ℤ◌, wrap64}
use gcluster.Net.TimerHeap.{HeapOps, TimerHeap, rem_timer}
use gcluster.Net.TimerHeap.Update.{expire}
use gcluster.Net.TimerHeap.Heap.{IsHeap}
use gcluster.Net.TimerHeap.Laws.{IsTime}
use gcluster.Net.TimerHeap.Tables.{IsTables, held, held_rem}
use gcluster.Net.TimerHeap.Starting.{set_timer_same, set_timer_other}

abbrev pub sum_below : ℕ → (ℕ → ℕ) → ℕ
sum_below zero f = 0
sum_below (suc n) f = f n + sum_below n f

sum_below_same :
    (n r : ℕ) (f g : ℕ → ℕ) → n ≤ r → ((x : ℕ) → r ≢ x → g x ≡ f x) → sum_below n g ≡ sum_below n f
sum_below_same zero r f g h same = refl
sum_below_same (suc n) r f g h same =
    let here = same n (omega (arith, h)) in
    let rest = sum_below_same n r f g (omega (arith, h)) same in omega (arith, here, rest)

-- A sum of which one term becomes less.
sum_below_less :
    (n r : ℕ) (f g : ℕ → ℕ)
    → r < n
    → g r < f r
    → ((x : ℕ) → r ≢ x → g x ≡ f x)
    → sum_below n g < sum_below n f
sum_below_less zero r f g h less same = absurd (omega (arith, h))
sum_below_less (suc n) r f g h less same = elim (Bool-cases (r == n)) [
  | inl e ↦
      let here : r ≡ n = ground (arith, e) in
      let less_here : g n < f n = rw (sym here) less in
      let rest = sum_below_same n r f g (omega (arith, here)) same in omega (arith, less_here, rest)
  | inr e ↦
      let apart : r ≢ n = ground (arith, e) in
      let rest = sum_below_less n r f g (omega (arith, h, apart)) less same in
      let here = same n apart in omega (arith, rest, here)
]

module _ {H : HeapOps} (L : IsHeap H) (now : ℤ) where
  -- How often the timer `x` can be called while the clock stands still: once for each unit of time, at
  -- most, from when it is due.
  abbrev pub turns : TimerHeap H → ℕ → ℕ
  turns th x = if held L th x then (pos_part now + 1) - pos_part (th.timers x).expire_at else 0

  abbrev pub enough_rounds : TimerHeap H → ℕ
  enough_rounds th = sum_below th.next (turns th)

  -- Delays are above 0, as StartTimer tests, and no time runs over.
  abbrev pub GoodDelays : TimerHeap H → Type 0
  GoodDelays th =
      (x : ℕ)
      → held L th x ≡ true
      → (pos 0 <ℤ (th.timers x).delay) × (pos_part now + pos_part (th.timers x).delay < 2 ^ 63)

  pub later-IsTime :
      (e d : ℤ)
      → IsTime e
      → e ≤ℤ now
      → pos 0 <ℤ d
      → pos_part now + pos_part d < 2 ^ 63
      → IsTime (e +ℤ d) × (pos_part (wrap64 (e +ℤ d)) ≡ pos_part e + pos_part d)
  unfolding ◌+ℤ◌ wrap64
  later-IsTime (pos e) (pos d) h le positive small = ground (arith, h, le, positive, small)
  later-IsTime (negsuc e) d h le positive small = absurd (omega (arith, h))
  later-IsTime (pos e) (negsuc d) h le positive small = absurd (omega (arith, positive))

  pub expire_frame :
      (r : ℕ) (th : TimerHeap H)
      → ((expire r th).next ≡ th.next) × ((expire r th).nil_heap ≡ th.nil_heap)
  unfolding expire rem_timer
  expire_frame r th = ground arith

  -- A timer other than the one that is called is as it was.
  expire_other :
      (r x : ℕ) (th : TimerHeap H)
      → IsTables L th
      → held L th r ≡ true
      → r ≢ x
      → (held L (expire r th) x ≡ held L th x) × ((expire r th).timers x ≡ th.timers x)
  unfolding expire
  expire_other r x th t h n =
      either (λ y. (held L y x ≡ held L th x) × (y.timers x ≡ th.timers x)) (th.timers r).periodic _
        _
        (λ _.
          (L.fix_holds th.timers _ r x th.timer_heap t.keeps h, set_timer_other r x _ th.timers n))
        (λ _. (held_rem L r x th t h ∙ ground (arith, n), unfold rem_timer in refl))

  -- The timer that is called has its next time, or is gone.
  expire_own :
      (r : ℕ) (th : TimerHeap H)
      → IsTables L th
      → held L th r ≡ true
      → ((held L (expire r th) r ≡ true)
          × ((expire r th).timers r ≡ record (th.timers r) {
            expire_at = wrap64 ((th.timers r).expire_at +ℤ (th.timers r).delay);
          }))
        ⊎ (held L (expire r th) r ≡ false)
  unfolding expire
  expire_own r th t h =
      either
        (λ y.
          ((held L y r ≡ true)
            × (y.timers r ≡ record (th.timers r) {
              expire_at = wrap64 ((th.timers r).expire_at +ℤ (th.timers r).delay);
            }))
          ⊎ (held L y r ≡ false))
        (th.timers r).periodic _ _
        (λ _.
          inl
            (L.fix_holds th.timers _ r r th.timer_heap t.keeps h ∙ h, set_timer_same r _ th.timers))
        (λ _. inr (held_rem L r r th t h ∙ ground arith))

  fewer_turns :
      (r : ℕ) (th : TimerHeap H)
      → IsTables L th
      → held L th r ≡ true
      → (th.timers r).expire_at ≤ℤ now
      → GoodDelays th
      → turns (expire r th) r < turns th r
  fewer_turns r th t h due good =
      let (positive, small) = good r h in
      let time = t.in_time r h in
      let (_, later) =
        later-IsTime (th.timers r).expire_at (th.timers r).delay time due positive small in
      elim (expire_own r th t h) [
        | inl (k, e) ↦
            let moved = ap (λ y. pos_part y.expire_at) e ∙ later in
            ground (arith, k, h, moved, due, positive, time)
        | inr k ↦ ground (arith, k, h, due, time)
      ]

  pub fewer_rounds :
      (r : ℕ) (th : TimerHeap H)
      → IsTables L th
      → held L th r ≡ true
      → (th.timers r).expire_at ≤ℤ now
      → GoodDelays th
      → enough_rounds (expire r th) < enough_rounds th
  fewer_rounds r th t h due good =
      let same : (x : ℕ) → r ≢ x → turns (expire r th) x ≡ turns th x =
        λ x n. let (k, e) = expire_other r x th t h n in rw (k, e) refl in
      rw ((expire_frame r th).0) (
        sum_below_less th.next r (turns th) (turns (expire r th)) (t.allocated r h)
          (fewer_turns r th t h due good) same)

  pub expire-GoodDelays :
      (r : ℕ) (th : TimerHeap H)
      → IsTables L th
      → held L th r ≡ true
      → GoodDelays th
      → GoodDelays (expire r th)
  expire-GoodDelays r th t h good x k = elim (Bool-cases (r == x)) [
    | inl e ↦
        let here : r ≡ x = ground (arith, e) in
        elim (expire_own r th t h) [
          | inl (_, own) ↦
              let same : ((expire r th).timers x).delay ≡ (th.timers x).delay =
                ap (λ y. ((expire r th).timers y).delay) (sym here)
                ∙ ap (λ y. y.delay) own
                ∙ ap (λ y. (th.timers y).delay) here in
              rw same (good x (rw (sym here) h))
          | inr gone ↦ absurd (ground (arith, k, gone, ap (λ y. held L (expire r th) y) here))
        ]
    | inr e ↦
        let (kept, same) = expire_other r x th t h (ground (arith, e)) in
        rw same (good x (sym kept ∙ k))
  ]
