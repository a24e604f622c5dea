-- ===== src/Net/TimerHeap/Valid.antt =====
-- Starting a timer keeps a TimerHeap valid.
use gcluster.Common.{
  ℕ, ◌+◌, ◌^◌, ◌<◌, ◌≡◌, ◌≢◌, ◌∙◌, sym, ap, refl, Bool, true, Option, none, some, ◌==◌, arith,
  either, either_option, inl, inr,
}
use gcluster.Common.Int.{ℤ, pos, ◌+ℤ◌, leb_ℤ}
use gcluster.Net.TimerHeap.{
  HeapOps, SysTimer, TimerHeap, add_timer, reset_sys_timer, alloc_timer, insert_timer, start_timer,
  StartEnd, start_panicked, returned, timer_id_none,
}
use gcluster.Net.TimerHeap.Heap.{IsHeap}
use gcluster.Net.TimerHeap.Laws.{IsTime}
use gcluster.Net.TimerHeap.Tables.{
  IsTables, held, IsArmed, IsCovered, IsValid, IsFresh, held_add, add_timer-IsTables,
}
use gcluster.Net.TimerHeap.Starting.{
  top_earliest, alloc_timer-IsTables, alloc_timer-IsFresh, alloc_timer_keeps,
}

module _ {H : HeapOps} (L : IsHeap H) where
  -- The tables say nothing of the system's timer.
  pub same-IsTables :
      (th : TimerHeap H) (s : SysTimer) (u : Bool)
      → IsTables L th
      → IsTables L (record th { sys_timer = s; updating = u })
  same-IsTables th s u t = record {
    keeps = t.keeps;
    mapped = t.mapped;
    found = t.found;
    allocated = t.allocated;
    numbered = t.numbered;
    in_time = t.in_time;
  }

  -- The system's timer is set again for the first of the timers.
  pub reset-IsValid :
      (r : ℕ) (th : TimerHeap H) (u : Bool)
      → H.top th.timer_heap ≡ some r
      → IsTables L th
      → IsValid L (record th {
        sys_timer = reset_sys_timer (th.timers r).expire_at th.sys_timer;
        updating = u;
      })
  unfolding reset_sys_timer
  reset-IsValid r th u e t = (
    same-IsTables th (reset_sys_timer (th.timers r).expire_at th.sys_timer) u t,
    inr (inr (λ x h. ((th.timers r).expire_at, refl, top_earliest L r x th t e h))),
  )

  -- There is no timer.
  pub none_held-IsValid :
      (th : TimerHeap H) (s : SysTimer) (u : Bool)
      → (H.len th.timer_heap == 0) ≡ true
      → IsTables L th
      → IsValid L (record th { sys_timer = s; updating = u })
  none_held-IsValid th s u e t = (
    same-IsTables th s u t,
    inr (inr (λ x h. absurd (ground (arith, h, L.len_none th.timer_heap x e)))),
  )

  -- A timer that is not the first makes no difference to the system's timer.
  pub kept-IsCovered :
      (th th' : TimerHeap H)
      → th'.updating ≡ th.updating
      → th'.sys_timer ≡ th.sys_timer
      → (IsArmed L th → IsArmed L th')
      → IsCovered L th
      → IsCovered L th'
  kept-IsCovered th th' u s f (inl k) = inl (u ∙ k)
  kept-IsCovered th th' u s f (inr (inl k)) = inr (inl (ap (λ y. y.ticked) s ∙ k))
  kept-IsCovered th th' u s f (inr (inr k)) = inr (inr (f k))

  add_timer-IsArmed :
      (r top : ℕ) (th : TimerHeap H)
      → IsTables L (add_timer r th)
      → H.top (add_timer r th).timer_heap ≡ some top
      → r ≢ top
      → IsArmed L th
      → IsArmed L (add_timer r th)
  unfolding add_timer
  add_timer-IsArmed r top th t e n armed x h =
      let th1 = add_timer r th in
      let top_old : held L th top ≡ true =
        ground (arith, n, held_add L r top th, L.top_holds th1.timer_heap top e) in
      let (at, is_at, early) = armed top top_old in
      let later = top_earliest L top x th1 t e h in (at, is_at, omega (arith, early, later))

  pub insert_timer-IsValid :
      (r : ℕ) (th : TimerHeap H) → IsFresh L r th → IsValid L th → IsValid L (insert_timer r th)
  unfolding insert_timer add_timer
  insert_timer-IsValid r th fresh (t, c) =
      let th1 = add_timer r th in
      let t1 = add_timer-IsTables L r th fresh t in
      let (top, e) = L.top_exists th1.timer_heap r (held_add L r r th ∙ ground arith) in
      either_option (λ x. IsValid L x) (H.top th1.timer_heap) th1 _
        (λ k. absurd (ground (arith, k, e)))
        (λ top k.
          either (λ x. IsValid L x) (r == top) _ th1
            (λ y.
              let same : r ≡ top = ground (arith, y) in
              reset-IsValid r th1 th1.updating (k ∙ ap (λ z. some z) (sym same)) t1)
            (λ y. (
              t1,
              kept-IsCovered th th1 refl refl (add_timer-IsArmed r top th t1 k (ground (arith, y)))
                  c,
            )))

  pub alloc_timer-IsValid :
      (now delay : ℤ) (periodic : Bool) (args cb : ℕ) (th : TimerHeap H)
      → th.timer_id_gen + 1 < 2 ^ 64
      → IsValid L th
      → IsValid L (alloc_timer now delay periodic args cb th)
  unfolding alloc_timer
  alloc_timer-IsValid now delay periodic args cb th g (t, c) = (
    alloc_timer-IsTables L now delay periodic args cb th g t,
    kept-IsCovered th (alloc_timer now delay periodic args cb th) refl refl
        (λ armed x h.
          let (at, is_at, early) = armed x h in
          (at, is_at, rw (alloc_timer_keeps L now delay periodic args cb th x t h) early))
        c,
  )

  pub start_timer-IsValid :
      (now delay : ℤ) (periodic : Bool) (args : ℕ) (cb : Option ℕ) (th : TimerHeap H)
      → th.timer_id_gen + 1 < 2 ^ 64
      → IsTime (now +ℤ delay)
      → IsValid L th
      → IsValid L (start_timer now delay periodic args cb th).0
  unfolding start_timer
  start_timer-IsValid now delay periodic args none th g time v = v
  start_timer-IsValid now delay periodic args (some cb) th g time v =
      let th1 = alloc_timer now delay periodic args cb th in
      let v1 = alloc_timer-IsValid now delay periodic args cb th g v in
      either (λ (x : TimerHeap H × StartEnd). IsValid L x.0) (leb_ℤ delay (pos 0))
        (th, start_panicked) _ (λ _. v)
        (λ _.
          either (λ (x : TimerHeap H × StartEnd). IsValid L x.0) th.stopped
            (th1, returned timer_id_none) _ (λ _. v1)
            (λ _.
              insert_timer-IsValid th.next th1
                (alloc_timer-IsFresh L now delay periodic args cb th g time v.0) v1))
