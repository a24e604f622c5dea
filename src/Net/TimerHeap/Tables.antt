-- ===== src/Net/TimerHeap/Tables.antt =====
-- What stays true of a TimerHeap: its heap and its map have the same timers, and the system's timer is
-- never later than the first of them.
use mathlib.Core.Path.{subst}
use gcluster.Common.{
  ℕ, ◌≤◌, ◌<◌, ◌≡◌, ◌≢◌, ◌⊎◌, ◌∙◌, sym, ap, Bool, true, false, some, some-injective, ◌==◌, arith,
  Bool-cases, inl, inr, if◌then◌else◌,
}
use gcluster.Common.Int.{ℤ, ◌≤ℤ◌}
use gcluster.Net.TimerHeap.{HeapOps, TimerHeap, add_timer, rem_timer}
use gcluster.Net.TimerHeap.Heap.{IsHeap}
use gcluster.Net.TimerHeap.Laws.{IsTime}

pub record IsTables {H : HeapOps} (L : IsHeap H) (th : TimerHeap H) : Type 0 where
  pub keeps : L.Keeps th.timers th.timer_heap
  pub mapped : (r : ℕ) → L.holds th.timer_heap r ≡ true → th.timer_map (th.timers r).id ≡ some r
  pub found :
      (id r : ℕ)
      → th.timer_map id ≡ some r
      → (L.holds th.timer_heap r ≡ true) × ((th.timers r).id ≡ id)
  pub allocated : (r : ℕ) → L.holds th.timer_heap r ≡ true → r < th.next
  pub numbered :
      (r : ℕ)
      → L.holds th.timer_heap r ≡ true
      → (0 < (th.timers r).id) × ((th.timers r).id ≤ th.timer_id_gen)
  pub in_time : (r : ℕ) → L.holds th.timer_heap r ≡ true → IsTime (th.timers r).expire_at

module _ {H : HeapOps} (L : IsHeap H) where
  abbrev pub held : TimerHeap H → ℕ → Bool
  held th r = L.holds th.timer_heap r

  -- The system's timer is due no later than any timer.
  abbrev pub IsArmed : TimerHeap H → Type 0
  IsArmed th =
      (r : ℕ)
      → held th r ≡ true
      → (e : ℤ) × (th.sys_timer.armed ≡ some e) × (e ≤ℤ (th.timers r).expire_at)

  -- No timer is forgotten: update runs, or a tick for it waits, or the system's timer is early enough.
  abbrev pub IsCovered : TimerHeap H → Type 0
  IsCovered th = (th.updating ≡ true) ⊎ ((th.sys_timer.ticked ≡ true) ⊎ IsArmed th)

  abbrev pub IsValid : TimerHeap H → Type 0
  IsValid th = IsTables L th × IsCovered th

  pub held_add :
      (r x : ℕ) (th : TimerHeap H) → held (add_timer r th) x ≡ (if r == x then true else held th x)
  unfolding add_timer
  held_add r x th = L.push_holds th.timers r x th.timer_heap

  pub held_rem :
      (r x : ℕ) (th : TimerHeap H)
      → IsTables L th
      → held th r ≡ true
      → held (rem_timer r th) x ≡ (if r == x then false else held th x)
  unfolding rem_timer
  held_rem r x th t h = L.remove_holds th.timers r x th.timer_heap t.keeps h

  -- A timer that is new may be added.
  abbrev pub IsFresh : ℕ → TimerHeap H → Type 0
  IsFresh r th =
      (held th r ≡ false)
      × (r < th.next)
      × (0 < (th.timers r).id)
      × ((th.timers r).id ≤ th.timer_id_gen)
      × IsTime (th.timers r).expire_at
      × ((x : ℕ) → held th x ≡ true → (th.timers x).id ≢ (th.timers r).id)

  -- What is true of the new timer and of those before is true of all.
  added :
      (P : ℕ → Type 0) (r x : ℕ) (th : TimerHeap H)
      → P r
      → ((y : ℕ) → r ≢ y → held th y ≡ true → P y)
      → held (add_timer r th) x ≡ true
      → P x
  added P r x th new old h = elim (Bool-cases (r == x)) [
    | inl e ↦ let same : r ≡ x = ground (arith, e) in subst (λ y. P y) same new
    | inr e ↦ old x (ground (arith, e)) (ground (arith, h, e, held_add r x th))
  ]

  found_added :
      (r : ℕ) (th : TimerHeap H)
      → IsTables L th
      → held th r ≡ false
      → (id x : ℕ) → (add_timer r th).timer_map id ≡ some x
      → (held (add_timer r th) x ≡ true) × ((th.timers x).id ≡ id)
  unfolding add_timer
  found_added r th t new id x h = elim (Bool-cases ((th.timers r).id == id)) [
    | inl e ↦
        let same : r ≡ x = ground (arith, h, e) in
        subst (λ y. (held (add_timer r th) y ≡ true) × ((th.timers y).id ≡ id)) same
          (held_add r r th ∙ ground arith, ground (arith, e))
    | inr e ↦
        let (k, l) = t.found id x (ground (arith, h, e)) in (held_add r x th ∙ ground (arith, k), l)
  ]

  pub add_timer-IsTables :
      (r : ℕ) (th : TimerHeap H) → IsFresh r th → IsTables L th → IsTables L (add_timer r th)
  unfolding add_timer
  add_timer-IsTables r th (new, low, pos_id, le_id, time, other) t = record {
    keeps = L.push_keeps th.timers r th.timer_heap t.keeps new time;
    mapped = λ x.
        added (λ y. (add_timer r th).timer_map (th.timers y).id ≡ some y) r x th (ground arith)
          (λ y n h. ground (arith, other y h, t.mapped y h));
    found = λ id x. found_added r th t new id x;
    allocated = λ x. added (λ y. y < th.next) r x th low (λ y _ h. t.allocated y h);
    numbered = λ x.
        added (λ y. (0 < (th.timers y).id) × ((th.timers y).id ≤ th.timer_id_gen)) r x th
          (pos_id, le_id) (λ y _ h. t.numbered y h);
    in_time = λ x. added (λ y. IsTime (th.timers y).expire_at) r x th time (λ y _ h. t.in_time y h);
  }

  -- A timer that is left was there before.
  pub left :
      (r x : ℕ) (th : TimerHeap H)
      → IsTables L th
      → held th r ≡ true
      → held (rem_timer r th) x ≡ true
      → (r ≢ x) × (held th x ≡ true)
  left r x th t h k = elim (Bool-cases (r == x)) [
    | inl e ↦ absurd (ground (arith, e, k, held_rem r x th t h))
    | inr e ↦ (ground (arith, e), ground (arith, e, k, held_rem r x th t h))
  ]

  still_held :
      (r x : ℕ) (th : TimerHeap H)
      → IsTables L th
      → held th r ≡ true
      → (th.timers r).id ≢ (th.timers x).id
      → held th x ≡ true
      → held (rem_timer r th) x ≡ true
  still_held r x th t h n k = elim (Bool-cases (r == x)) [
    | inl e ↦ let same : r ≡ x = ground (arith, e) in absurd (n (ap (λ y. (th.timers y).id) same))
    | inr e ↦ held_rem r x th t h ∙ ground (arith, e, k)
  ]

  -- Two timers have two identifiers.
  pub distinct :
      (r x : ℕ) (th : TimerHeap H)
      → IsTables L th
      → held th r ≡ true
      → held th x ≡ true
      → r ≢ x
      → (th.timers r).id ≢ (th.timers x).id
  distinct r x th t h k n e =
      n (some-injective _ _ (sym (t.mapped r h) ∙ ap (λ id. th.timer_map id) e ∙ t.mapped x k))

  pub rem_timer-IsTables :
      (r : ℕ) (th : TimerHeap H) → held th r ≡ true → IsTables L th → IsTables L (rem_timer r th)
  unfolding rem_timer
  rem_timer-IsTables r th h t = record {
    keeps = L.remove_keeps th.timers r th.timer_heap t.keeps h;
    mapped = λ x k.
        let (n, k') = left r x th t h k in ground (arith, distinct r x th t h k' n, t.mapped x k');
    found = λ id x k.
        let n : (th.timers r).id ≢ id = ground (arith, k) in
        let (k', e) = t.found id x (ground (arith, k)) in
        (still_held r x th t h (ground (arith, n, e)) k', e);
    allocated = λ x k. t.allocated x (left r x th t h k).1;
    numbered = λ x k. t.numbered x (left r x th t h k).1;
    in_time = λ x k. t.in_time x (left r x th t h k).1;
  }
