-- ===== src/Net/TimerHeap/Stopping.antt =====
-- StopTimer after StartTimer.
use gcluster.Common.{
  ℕ, ◌+◌, ◌^◌, ◌<◌, ◌≡◌, ◌∙◌, sym, ap, refl, Bool, true, false, none, some, ◌==◌, arith, Bool-cases,
  Option-cases, either, either_option, inl, inr, if◌then◌else◌,
}
use gcluster.Common.Int.{ℤ, pos, ◌+ℤ◌, ◌<ℤ◌, lt→leb_ℤ_false}
use gcluster.Net.TimerHeap.{
  HeapOps, TimerHeap, add_timer, rem_timer, alloc_timer, insert_timer, rearm, start_timer,
  stop_timer, returned,
}
use gcluster.Net.TimerHeap.Heap.{IsHeap}
use gcluster.Net.TimerHeap.Laws.{IsTime}
use gcluster.Net.TimerHeap.Tables.{IsTables, held, held_add, held_rem, IsValid}
use gcluster.Net.TimerHeap.Starting.{gen_timer_id_next, set_timer_same, alloc_timer-IsFresh}
use gcluster.Net.TimerHeap.Valid.{alloc_timer-IsValid, insert_timer-IsValid}

module _ {H : HeapOps} (L : IsHeap H) where
  held-rearm : (x : ℕ) (th : TimerHeap H) → held L (rearm th) x ≡ held L th x
  unfolding rearm
  held-rearm x th =
      either (λ y. held L y x ≡ held L th x) (H.len th.timer_heap == 0) _ _ (λ _. refl)
        (λ _.
          either_option (λ y. held L y x ≡ held L th x) (H.top th.timer_heap) th _ (λ _. refl)
            (λ r _. refl))

  -- StopTimer takes the timer of the identifier out, and no other; it does nothing where there is none.
  pub held-stop_timer :
      (tid r x : ℕ) (th : TimerHeap H)
      → th.stopped ≡ false
      → IsTables L th
      → th.timer_map tid ≡ some r
      → held L (stop_timer tid th) x ≡ (if r == x then false else held L th x)
  unfolding stop_timer
  held-stop_timer tid r x th running t e =
      let (h, _) = t.found tid r e in
      let taken = held_rem L r x th t h in
      either (λ y. held L y x ≡ (if r == x then false else held L th x)) th.stopped th _
        (λ s. absurd (ground (arith, s, running)))
        (λ _.
          either_option (λ y. held L y x ≡ (if r == x then false else held L th x))
            (th.timer_map tid) th _ (λ k. absurd (ground (arith, k, e)))
            (λ r' k.
              let same : r' ≡ r = ground (arith, k, e) in
              let taken' : held L (rem_timer r' th) x ≡ (if r == x then false else held L th x) =
                ap (λ z. held L (rem_timer z th) x) same ∙ taken in
              either_option (λ y. held L y x ≡ (if r == x then false else held L th x))
                (H.top th.timer_heap) (rem_timer r' th) _ (λ _. taken')
                (λ top _.
                  either (λ y. held L y x ≡ (if r == x then false else held L th x)) (r' == top) _
                    (rem_timer r' th) (λ _. held-rearm x (rem_timer r' th) ∙ taken')
                    (λ _. taken'))))

  insert_timer_lem :
      (r x : ℕ) (th : TimerHeap H)
      → (held L (insert_timer r th) x ≡ (if r == x then true else held L th x))
        × ((insert_timer r th).timer_map (th.timers r).id ≡ some r)
        × ((insert_timer r th).stopped ≡ th.stopped)
  unfolding insert_timer add_timer
  insert_timer_lem r x th =
      let IsInserted : TimerHeap H → Type 0 = λ y.
        (held L y x ≡ (if r == x then true else held L th x))
        × (y.timer_map (th.timers r).id ≡ some r)
        × (y.stopped ≡ th.stopped) in
      let kept : IsInserted (add_timer r th) = (held_add L r x th, ground arith, refl) in
      either_option IsInserted (H.top (add_timer r th).timer_heap) (add_timer r th) _ (λ _. kept)
        (λ top _. either IsInserted (r == top) _ (add_timer r th) (λ _. kept) (λ _. kept))

  start_timer_inserts :
      (now delay : ℤ) (periodic : Bool) (args cb : ℕ) (th : TimerHeap H)
      → th.stopped ≡ false
      → pos 0 <ℤ delay
      → start_timer now delay periodic args (some cb) th ≡ (
        insert_timer th.next (alloc_timer now delay periodic args cb th),
        returned (alloc_timer now delay periodic args cb th).timer_id_gen,
      )
  unfolding start_timer
  start_timer_inserts now delay periodic args cb th running positive =
      rw (lt→leb_ℤ_false delay (pos 0) positive, running) refl

  alloc_timer_id :
      (now delay : ℤ) (periodic : Bool) (args cb : ℕ) (th : TimerHeap H)
      → ((alloc_timer now delay periodic args cb th).timers th.next).id
        ≡ (alloc_timer now delay periodic args cb th).timer_id_gen
  unfolding alloc_timer
  alloc_timer_id now delay periodic args cb th = ap (λ y. y.id) (set_timer_same th.next _ th.timers)

  alloc_timer_next :
      (now delay : ℤ) (periodic : Bool) (args cb : ℕ) (th : TimerHeap H)
      → th.timer_id_gen + 1 < 2 ^ 64
      → (alloc_timer now delay periodic args cb th).timer_id_gen ≡ th.timer_id_gen + 1
  unfolding alloc_timer
  alloc_timer_next now delay periodic args cb th g = gen_timer_id_next th.timer_id_gen g

  held-alloc_timer :
      (now delay : ℤ) (periodic : Bool) (args cb x : ℕ) (th : TimerHeap H)
      → held L (alloc_timer now delay periodic args cb th) x ≡ held L th x
  unfolding alloc_timer
  held-alloc_timer now delay periodic args cb x th = refl

  alloc_timer_stopped :
      (now delay : ℤ) (periodic : Bool) (args cb : ℕ) (th : TimerHeap H)
      → (alloc_timer now delay periodic args cb th).stopped ≡ th.stopped
  unfolding alloc_timer
  alloc_timer_stopped now delay periodic args cb th = refl

  unused_id :
      (id : ℕ) (th : TimerHeap H)
      → IsTables L th
      → id ≡ th.timer_id_gen + 1
      → th.timer_map id ≡ none
  unused_id id th t e = elim (Option-cases (th.timer_map id)) [
    | inl k ↦ k
    | inr (r, k) ↦
        let (h, i) = t.found id r k in
        let (_, low) = t.numbered r h in absurd (omega (arith, low, i, e))
  ]

  -- A timer that was not there is put in and taken out.
  put_back :
      (r x : ℕ) (th : TimerHeap H) (b : Bool)
      → held L th r ≡ false
      → b ≡ (if r == x then true else held L th x)
      → (if r == x then false else b) ≡ held L th x
  put_back r x th b new e = elim (Bool-cases (r == x)) [
    | inl k ↦ let same : r ≡ x = ground (arith, k) in rw k (sym new ∙ ap (λ y. held L th y) same)
    | inr k ↦ ground (arith, k, e)
  ]

  -- StartTimer with a delay above 0 on a TimerHeap that is not stopped returns an identifier that no
  -- timer has; StopTimer with it leaves the timers that were there before. The numbers keep their
  -- limits.
  pub stop_timer-start_timer :
      (now delay : ℤ) (periodic : Bool) (args cb x : ℕ) (th : TimerHeap H)
      → th.stopped ≡ false
      → pos 0 <ℤ delay
      → th.timer_id_gen + 1 < 2 ^ 64
      → IsTime (now +ℤ delay)
      → IsValid L th
      → (id : ℕ) × ((start_timer now delay periodic args (some cb) th).1 ≡ returned id)
        × (th.timer_map id ≡ none)
        × (held L (stop_timer id (start_timer now delay periodic args (some cb) th).0) x
            ≡ held L th x)
  stop_timer-start_timer now delay periodic args cb x th running positive g time v =
      let th1 = alloc_timer now delay periodic args cb th in
      let id = th1.timer_id_gen in
      let v1 = alloc_timer-IsValid L now delay periodic args cb th g v in
      let fresh = alloc_timer-IsFresh L now delay periodic args cb th g time v.0 in
      let v2 = insert_timer-IsValid L th.next th1 fresh v1 in
      let (in_heap, in_map, live) = insert_timer_lem th.next x th1 in
      let own = alloc_timer_id now delay periodic args cb th in
      let new : held L th1 th.next ≡ false = fresh.0 in
      let removed =
        held-stop_timer id th.next x (insert_timer th.next th1)
          (live ∙ alloc_timer_stopped now delay periodic args cb th ∙ running) v2.0
          (ap (λ i. (insert_timer th.next th1).timer_map i) (sym own) ∙ in_map) in
      rw (start_timer_inserts now delay periodic args cb th running positive) (
        id,
        refl,
        unused_id id th v.0 (alloc_timer_next now delay periodic args cb th g),
        removed
            ∙ put_back th.next x th1 (held L (insert_timer th.next th1) x) new in_heap
            ∙ held-alloc_timer now delay periodic args cb x th,
      )
