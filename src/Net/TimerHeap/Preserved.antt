-- ===== src/Net/TimerHeap/Preserved.antt =====
-- Stopping a timer, the rounds of update and the ticks keep a TimerHeap valid.
use gcluster.Common.{
  ℕ, ◌≡◌, ◌≢◌, ◌∙◌, refl, true, false, not, ◌&&◌, none, ◌==◌, arith, either, either_option, inl,
  inr,
}
use gcluster.Common.Int.{ℤ, ◌+ℤ◌, leb_ℤ, ltb_ℤ}
use gcluster.Net.TimerHeap.{
  HeapOps, TimerHeap, rem_timer, stop_sys_timer, rearm, stop_timer, stop, fire,
}
use gcluster.Net.TimerHeap.Update.{expire, update_round, receive_tick, RoundEnd, nil_pointer}
use gcluster.Net.TimerHeap.Heap.{IsHeap}
use gcluster.Net.TimerHeap.Laws.{IsTime}
use gcluster.Net.TimerHeap.Tables.{
  IsTables, held, IsArmed, IsCovered, IsValid, left, rem_timer-IsTables,
}
use gcluster.Net.TimerHeap.Starting.{expire-IsTables}
use gcluster.Net.TimerHeap.Valid.{same-IsTables, reset-IsValid, none_held-IsValid, kept-IsCovered}

module _ {H : HeapOps} (L : IsHeap H) where
  rem_timer-IsArmed :
      (r : ℕ) (th : TimerHeap H)
      → IsTables L th
      → held L th r ≡ true
      → IsArmed L th
      → IsArmed L (rem_timer r th)
  unfolding rem_timer
  rem_timer-IsArmed r th t h armed x k = armed x (left L r x th t h k).1

  rem_timer-IsValid :
      (r : ℕ) (th : TimerHeap H) → held L th r ≡ true → IsValid L th → IsValid L (rem_timer r th)
  unfolding rem_timer
  rem_timer-IsValid r th h (t, c) = (
    rem_timer-IsTables L r th h t,
    kept-IsCovered L th (rem_timer r th) refl refl (rem_timer-IsArmed r th t h) c,
  )

  rearm-IsValid : (th : TimerHeap H) → IsValid L th → IsValid L (rearm th)
  unfolding rearm
  rearm-IsValid th (t, c) =
      either (λ x. IsValid L x) (H.len th.timer_heap == 0) _ _
        (λ e. none_held-IsValid L th (stop_sys_timer th.sys_timer) th.updating e t)
        (λ _.
          either_option (λ x. IsValid L x) (H.top th.timer_heap) th _ (λ _. (t, c))
            (λ r e. reset-IsValid L r th th.updating e t))

  pub stop_timer-IsValid :
      (tid : ℕ) (th : TimerHeap H) → IsValid L th → IsValid L (stop_timer tid th)
  unfolding stop_timer
  stop_timer-IsValid tid th v =
      either (λ x. IsValid L x) th.stopped th _ (λ _. v)
        (λ _.
          either_option (λ x. IsValid L x) (th.timer_map tid) th _ (λ _. v)
            (λ r e.
              let v1 = rem_timer-IsValid r th (v.0.found tid r e).0 v in
              either_option (λ x. IsValid L x) (H.top th.timer_heap) (rem_timer r th) _ (λ _. v1)
                (λ top _.
                  either (λ x. IsValid L x) (r == top) _ (rem_timer r th)
                    (λ _. rearm-IsValid (rem_timer r th) v1) (λ _. v1))))

  pub stop-IsValid : (th : TimerHeap H) → IsValid L th → IsValid L (stop th)
  unfolding stop
  stop-IsValid th v =
      either (λ x. IsValid L x) th.stopped th _ (λ _. v)
        (λ _. (
          record {
            keeps = L.new_keeps th.timers;
            mapped = λ r h. absurd (ground (arith, h, L.new_holds r));
            found = λ id r e. absurd (ground (arith, e));
            allocated = λ r h. absurd (ground (arith, h, L.new_holds r));
            numbered = λ r h. absurd (ground (arith, h, L.new_holds r));
            in_time = λ r h. absurd (ground (arith, h, L.new_holds r));
          },
          inr (inr (λ r h. absurd (ground (arith, h, L.new_holds r)))),
        ))

  expire_updating : (r : ℕ) (th : TimerHeap H) → (expire r th).updating ≡ th.updating
  unfolding expire rem_timer
  expire_updating r th = ground arith

  pub top_missing :
      (th : TimerHeap H) → (H.len th.timer_heap == 0) ≡ false → H.top th.timer_heap ≢ none
  top_missing th e k =
      let (r, is_r, _) = L.top_some th.timer_heap e in absurd (ground (arith, k, is_r))

  pub update_round-IsValid :
      (now : ℤ) (th : TimerHeap H)
      → th.updating ≡ true
      → ((r : ℕ) → held L th r ≡ true → IsTime ((th.timers r).expire_at +ℤ (th.timers r).delay))
      → IsValid L th
      → IsValid L (update_round now th).0
  unfolding update_round
  update_round-IsValid now th u times (t, c) =
      either (λ (x : TimerHeap H × RoundEnd). IsValid L x.0) th.nil_heap (th, nil_pointer) _
        (λ _. (t, c))
        (λ _.
          either (λ (x : TimerHeap H × RoundEnd). IsValid L x.0) (H.len th.timer_heap == 0) _ _
            (λ e. none_held-IsValid L th th.sys_timer false e t)
            (λ e.
              either_option (λ (x : TimerHeap H × RoundEnd). IsValid L x.0) (H.top th.timer_heap) _
                _ (λ k. absurd (top_missing th e k))
                (λ r k.
                  either (λ (x : TimerHeap H × RoundEnd). IsValid L x.0)
                    (ltb_ℤ now (th.timers r).expire_at) _ _ (λ _. reset-IsValid L r th false k t)
                    (λ _.
                      let h = L.top_holds th.timer_heap r k in
                      (expire-IsTables L r th h (times r h) t, inl (expire_updating r th ∙ u))))))

  pub fire-IsCovered :
      (now : ℤ) (th : TimerHeap H)
      → IsCovered L th
      → IsCovered L (record th { sys_timer = fire now th.sys_timer })
  unfolding fire
  fire-IsCovered now th c =
      either_option (λ s. IsCovered L (record th { sys_timer = s })) th.sys_timer.armed th.sys_timer
        _ (λ _. c)
        (λ e _.
          either (λ s. IsCovered L (record th { sys_timer = s })) (leb_ℤ e now) _ th.sys_timer
            (λ _. inr (inl refl)) (λ _. c))

  pub receive_tick-IsValid : (th : TimerHeap H) → IsValid L th → IsValid L (receive_tick th)
  unfolding receive_tick
  receive_tick-IsValid th (t, c) =
      either (λ x. IsValid L x) (th.sys_timer.ticked && not th.updating) _ th
        (λ _. (same-IsTables L th (record th.sys_timer { ticked = false }) true t, inl refl))
        (λ _. (t, c))
