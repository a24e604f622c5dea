-- ===== src/Net/TimerHeap/Starting.antt =====
-- StartTimer, and what update does to a periodic timer: the heap and the map still have the same timers.
use gcluster.Common.{
  ℕ, ◌+◌, ◌^◌, ◌<◌, ◌≡◌, ◌≢◌, ◌∙◌, sym, ap, refl, Bool, true, false, some, ◌==◌, arith, Bool-cases,
  either, inl, inr,
}
use gcluster.Common.Int.{ℤ, ◌+ℤ◌, ◌≤ℤ◌, wrap64, wrap64-eq_of_IsInt64}
use gcluster.Net.TimerHeap.{Timer, Timers, set_timer, HeapOps, TimerHeap, gen_timer_id, alloc_timer}
use gcluster.Net.TimerHeap.Update.{expire}
use gcluster.Net.TimerHeap.Heap.{IsHeap}
use gcluster.Net.TimerHeap.Laws.{IsTime, heap_less_false}
use gcluster.Net.TimerHeap.Tables.{IsTables, held, IsFresh, rem_timer-IsTables}

pub gen_timer_id_next : (gen : ℕ) → gen + 1 < 2 ^ 64 → gen_timer_id gen ≡ gen + 1
unfolding gen_timer_id
gen_timer_id_next gen h = ground (arith, h)

pub wrap64-IsTime : (t : ℤ) → IsTime t → IsTime (wrap64 t)
wrap64-IsTime t (a, b) = rw (wrap64-eq_of_IsInt64 t (b, omega (arith, a))) (a, b)

pub set_timer_other : (r x : ℕ) (t : Timer) (ts : Timers) → r ≢ x → set_timer r t ts x ≡ ts x
set_timer_other r x t ts n = let no_match : (r == x) ≡ false = ground (arith, n) in rw no_match refl

pub set_timer_same : (r : ℕ) (t : Timer) (ts : Timers) → set_timer r t ts r ≡ t
set_timer_same r t ts = let match : (r == r) ≡ true = ground arith in rw match refl

module _ {H : HeapOps} (L : IsHeap H) where
  -- The first of the timers is due no later than any other.
  pub top_earliest :
      (r x : ℕ) (th : TimerHeap H)
      → IsTables L th
      → H.top th.timer_heap ≡ some r
      → held L th x ≡ true
      → (th.timers r).expire_at ≤ℤ (th.timers x).expire_at
  top_earliest r x th t e h =
      heap_less_false (th.timers x) (th.timers r) (t.in_time x h)
        (t.in_time r (L.top_holds th.timer_heap r e))
        (L.top_least th.timers th.timer_heap r x t.keeps e h)

  below_next : (x : ℕ) (th : TimerHeap H) → IsTables L th → held L th x ≡ true → th.next ≢ x
  below_next x th t h e = let low = t.allocated x h in absurd (omega (arith, low, e))

  pub new_pointer : (th : TimerHeap H) → IsTables L th → held L th th.next ≡ false
  new_pointer th t = elim (Bool-cases (held L th th.next)) [
    | inl h ↦ let low = t.allocated th.next h in absurd (omega (arith, low))
    | inr h ↦ h
  ]

  pub alloc_timer-IsTables :
      (now delay : ℤ) (periodic : Bool) (args cb : ℕ) (th : TimerHeap H)
      → th.timer_id_gen + 1 < 2 ^ 64
      → IsTables L th
      → IsTables L (alloc_timer now delay periodic args cb th)
  unfolding alloc_timer
  alloc_timer-IsTables now delay periodic args cb th g t =
      let same : (x : ℕ)
          → held L th x ≡ true
          → (alloc_timer now delay periodic args cb th).timers x ≡ th.timers x =
        λ x h. set_timer_other th.next x _ th.timers (below_next x th t h) in
      let next_id = gen_timer_id_next th.timer_id_gen g in
      record {
        keeps = L.keeps_same th.timers _ th.timer_heap t.keeps same;
        mapped = λ x h. rw (same x h) (t.mapped x h);
        found = λ id x e. let (h, i) = t.found id x e in (h, ap (λ y. y.id) (same x h) ∙ i);
        allocated = λ x h. let low = t.allocated x h in omega (arith, low);
        numbered =
            λ x h. let (a, b) = t.numbered x h in rw (same x h) (a, omega (arith, b, next_id));
        in_time = λ x h. rw (same x h) (t.in_time x h);
      }

  pub alloc_timer_keeps :
      (now delay : ℤ) (periodic : Bool) (args cb : ℕ) (th : TimerHeap H) (x : ℕ)
      → IsTables L th
      → held L th x ≡ true
      → (alloc_timer now delay periodic args cb th).timers x ≡ th.timers x
  unfolding alloc_timer
  alloc_timer_keeps now delay periodic args cb th x t h =
      set_timer_other th.next x _ th.timers (below_next x th t h)

  pub alloc_timer-IsFresh :
      (now delay : ℤ) (periodic : Bool) (args cb : ℕ) (th : TimerHeap H)
      → th.timer_id_gen + 1 < 2 ^ 64
      → IsTime (now +ℤ delay)
      → IsTables L th
      → IsFresh L th.next (alloc_timer now delay periodic args cb th)
  unfolding alloc_timer
  alloc_timer-IsFresh now delay periodic args cb th g time t =
      let th1 = alloc_timer now delay periodic args cb th in
      let mine = set_timer_same th.next _ th.timers in
      let mine_id : (th1.timers th.next).id ≡ th.timer_id_gen + 1 =
        ap (λ y. y.id) mine ∙ gen_timer_id_next th.timer_id_gen g in
      let mine_time : (th1.timers th.next).expire_at ≡ wrap64 (now +ℤ delay) =
        ap (λ y. y.expire_at) mine in
      let next_id = gen_timer_id_next th.timer_id_gen g in
      (
        new_pointer th t,
        omega arith,
        omega (arith, mine_id),
        omega (arith, mine_id, next_id),
        rw mine_time (wrap64-IsTime (now +ℤ delay) time),
        λ x h e.
            let (_, low) = t.numbered x h in
            let other_id : (th1.timers x).id ≡ (th.timers x).id =
              ap (λ y. y.id) (set_timer_other th.next x _ th.timers (below_next x th t h)) in
            omega (arith, low, sym other_id ∙ e ∙ mine_id),
      )

  -- The timers after a periodic one has been set to its next time.
  abbrev moved : ℕ → TimerHeap H → Timers
  moved r th =
      set_timer r
        (record (th.timers r) {
          expire_at = wrap64 ((th.timers r).expire_at +ℤ (th.timers r).delay);
        })
        th.timers

  moved_id : (r x : ℕ) (th : TimerHeap H) → (moved r th x).id ≡ (th.timers x).id
  moved_id r x th = elim (Bool-cases (r == x)) [
    | inl e ↦ let same : r ≡ x = ground (arith, e) in rw e (ap (λ y. (th.timers y).id) same)
    | inr e ↦ rw e refl
  ]

  moved-IsTime :
      (r x : ℕ) (th : TimerHeap H)
      → IsTime ((th.timers r).expire_at +ℤ (th.timers r).delay)
      → IsTime (th.timers x).expire_at
      → IsTime (moved r th x).expire_at
  moved-IsTime r x th time h = elim (Bool-cases (r == x)) [
    | inl e ↦ rw e (wrap64-IsTime ((th.timers r).expire_at +ℤ (th.timers r).delay) time)
    | inr e ↦ rw e h
  ]

  moved-IsTables :
      (r : ℕ) (th : TimerHeap H)
      → held L th r ≡ true
      → IsTime ((th.timers r).expire_at +ℤ (th.timers r).delay)
      → IsTables L th
      → IsTables L (record th {
        timers = moved r th;
        timer_heap = H.fix (moved r th) (H.index th.timer_heap r) th.timer_heap;
      })
  moved-IsTables r th h time t =
      let same : (x : ℕ)
          → L.holds (H.fix (moved r th) (H.index th.timer_heap r) th.timer_heap) x ≡ held L th x =
        λ x. L.fix_holds th.timers (moved r th) r x th.timer_heap t.keeps h in
      record {
        keeps =
            L.fix_keeps th.timers (moved r th) r th.timer_heap t.keeps h
              (λ x n. set_timer_other r x _ th.timers n) (moved-IsTime r r th time (t.in_time r h));
        mapped =
            λ x k. ap (λ id. th.timer_map id) (moved_id r x th) ∙ t.mapped x (sym (same x) ∙ k);
        found = λ id x e. let (k, i) = t.found id x e in (same x ∙ k, moved_id r x th ∙ i);
        allocated = λ x k. t.allocated x (sym (same x) ∙ k);
        numbered = λ x k. rw (moved_id r x th) (t.numbered x (sym (same x) ∙ k));
        in_time = λ x k. moved-IsTime r x th time (t.in_time x (sym (same x) ∙ k));
      }

  -- What update leaves of the heap and the map where the timer `r` is due.
  pub expire-IsTables :
      (r : ℕ) (th : TimerHeap H)
      → held L th r ≡ true
      → IsTime ((th.timers r).expire_at +ℤ (th.timers r).delay)
      → IsTables L th
      → IsTables L (expire r th)
  unfolding expire
  expire-IsTables r th h time t =
      either (λ x. IsTables L x) (th.timers r).periodic _ _ (λ _. moved-IsTables r th h time t)
        (λ _. rem_timer-IsTables L r th h t)
