-- ===== src/Net/TimerHeap/Due.antt =====
-- Which timer a round of update calls.
use gcluster.Common.{
  ℕ, ◌≡◌, ◌⊎◌, ◌∙◌, ap, refl, true, false, none, ◌==◌, arith, either, either_option, inl, inr,
}
use gcluster.Common.Int.{ℤ, ◌+ℤ◌, ◌≤ℤ◌, ◌<ℤ◌, ltb_ℤ, ltb_ℤ_iff, ltb_ℤ_false, wrap64}
use gcluster.Net.TimerHeap.{HeapOps, TimerHeap, rem_timer}
use gcluster.Net.TimerHeap.Update.{
  expire, update_round, RoundEnd, update_returns, calls, nil_pointer,
}
use gcluster.Net.TimerHeap.Heap.{IsHeap}
use gcluster.Net.TimerHeap.Tables.{IsTables, held, held_rem}
use gcluster.Net.TimerHeap.Starting.{top_earliest, set_timer_same}
use gcluster.Net.TimerHeap.Preserved.{top_missing}

module _ {H : HeapOps} (L : IsHeap H) where
  -- The timer `r` after its call: it waits for its next time, or is gone.
  abbrev IsServed : ℕ → TimerHeap H → TimerHeap H → Type 0
  IsServed r th th' =
      (((th.timers r).periodic ≡ true)
        × (held L th' r ≡ true)
        × ((th'.timers r).expire_at ≡ wrap64 ((th.timers r).expire_at +ℤ (th.timers r).delay)))
      ⊎ (((th.timers r).periodic ≡ false)
          × (held L th' r ≡ false)
          × (th'.timer_map (th.timers r).id ≡ none))

  -- How a round of update ends: it calls a timer that is due, of which none is due before it, or it
  -- returns and none is due.
  abbrev pub IsRound : ℤ → TimerHeap H → TimerHeap H × RoundEnd → Type 0
  IsRound now th (th', end) =
      ((r : ℕ) × (held L th r ≡ true)
        × (end ≡ calls (th.timers r).cb (th.timers r).id (th.timers r).args)
        × ((th.timers r).expire_at ≤ℤ now)
        × ((x : ℕ) → held L th x ≡ true → (th.timers r).expire_at ≤ℤ (th.timers x).expire_at)
        × IsServed r th th')
      ⊎ ((end ≡ update_returns)
          × ((x : ℕ) → held L th x ≡ true → now <ℤ (th.timers x).expire_at)
          × ((x : ℕ) → held L th' x ≡ held L th x))

  expire-IsServed :
      (r : ℕ) (th : TimerHeap H) → IsTables L th → held L th r ≡ true → IsServed r th (expire r th)
  unfolding expire
  expire-IsServed r th t h =
      either (λ x. IsServed r th x) (th.timers r).periodic _ _
        (λ e. inl (
          e,
          L.fix_holds th.timers _ r r th.timer_heap t.keeps h ∙ h,
          ap (λ y. y.expire_at) (set_timer_same r _ th.timers),
        ))
        (λ e. inr (e, held_rem L r r th t h ∙ ground arith, unfold rem_timer in ground arith))

  -- A round of update calls a timer that is due, the first of them, and keeps it for its next time if it
  -- is periodic or else takes it out of the heap and the map; or it returns, no timer is due, and all
  -- are kept. The heap is not nil and has the same timers as the map.
  pub update_round-IsRound :
      (now : ℤ) (th : TimerHeap H)
      → th.nil_heap ≡ false
      → IsTables L th
      → IsRound now th (update_round now th)
  unfolding update_round
  update_round-IsRound now th live t =
      either (λ (x : TimerHeap H × RoundEnd). IsRound now th x) th.nil_heap (th, nil_pointer) _
        (λ e. absurd (ground (arith, live, e)))
        (λ _.
          either (λ (x : TimerHeap H × RoundEnd). IsRound now th x) (H.len th.timer_heap == 0) _ _
            (λ e. inr (
              refl,
              (λ x h. absurd (ground (arith, h, L.len_none th.timer_heap x e))),
              (λ x. refl),
            ))
            (λ e.
              either_option (λ (x : TimerHeap H × RoundEnd). IsRound now th x) (H.top th.timer_heap)
                _ _ (λ k. absurd (top_missing L th e k))
                (λ r k.
                  let h = L.top_holds th.timer_heap r k in
                  let first : (x : ℕ)
                      → held L th x ≡ true
                      → (th.timers r).expire_at ≤ℤ (th.timers x).expire_at =
                    λ x j. top_earliest L r x th t k j in
                  either (λ (x : TimerHeap H × RoundEnd). IsRound now th x)
                    (ltb_ℤ now (th.timers r).expire_at) _ _
                    (λ b.
                      let early = (ltb_ℤ_iff now (th.timers r).expire_at).0 b in
                      inr
                        (refl, (λ x j. let f = first x j in omega (arith, early, f)), (λ x. refl)))
                    (λ b.
                      let due = ltb_ℤ_false now (th.timers r).expire_at b in
                      inl (r, h, refl, due, first, expire-IsServed r th t h)))))
