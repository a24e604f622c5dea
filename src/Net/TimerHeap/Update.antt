-- ===== src/Net/TimerHeap/Update.antt =====
-- The methods of net/timer_heap.go that the goroutine of loop runs.
use gcluster.Common.{ℕ, zero, suc, true, false, none, some, ◌==◌, not, ◌&&◌, if◌then◌else◌}
use gcluster.Common.Int.{ℤ, ◌+ℤ◌, ltb_ℤ, wrap64}
use gcluster.Net.TimerHeap.{HeapOps, TimerHeap, rem_timer, reset_sys_timer, set_timer}

-- How a round of update ends.
pub data RoundEnd : Type 0 where
  update_returns : RoundEnd
  calls : (cb tid args : ℕ) → RoundEnd
  nil_pointer : RoundEnd

-- How update ends; the last stands for a loop that was cut short.
pub data UpdateEnd : Type 0 where
  update_done update_panicked update_cut_short : UpdateEnd

module _ {H : HeapOps} where
  -- update: what it does to a timer that is due.
  unfoldable pub expire : ℕ → TimerHeap H → TimerHeap H
  unfolding rem_timer wrap64
  expire r th =
      let t = th.timers r in
      let moved =
        set_timer r (record t { expire_at = wrap64 (t.expire_at +ℤ t.delay) }) th.timers in
      if t.periodic
      then record th {
        timers = moved;
        timer_heap = H.fix moved (H.index th.timer_heap r) th.timer_heap;
      }
      else rem_timer r th

  -- update, one round: with the call that it makes after it has released the lock.
  unfoldable pub update_round : ℤ → TimerHeap H → TimerHeap H × RoundEnd
  unfolding expire reset_sys_timer
  update_round now th =
      let finished = record th { updating = false } in
      if th.nil_heap
      then (th, nil_pointer)
      else if H.len th.timer_heap == 0
      then (finished, update_returns)
      else elim (H.top th.timer_heap) [
        | none ↦ (finished, update_returns)
        | some r ↦
            let t = th.timers r in
            if ltb_ℤ now t.expire_at
            then (
              record finished { sys_timer = reset_sys_timer t.expire_at th.sys_timer },
              update_returns,
            )
            else (expire r th, calls t.cb t.id t.args)
      ]

  -- loop: the goroutine receives a tick and enters update.
  unfoldable pub receive_tick : TimerHeap H → TimerHeap H
  receive_tick th =
      if th.sys_timer.ticked && not th.updating
      then record th { sys_timer = record th.sys_timer { ticked = false }; updating = true }
      else th

  -- invokeCallback, while the lock is not held: what the callback and the other goroutines make of the
  -- heap before the next round takes the lock.
  unfoldable pub invoke_callback :
      (ℕ → ℕ → ℕ → TimerHeap H → TimerHeap H) → RoundEnd → TimerHeap H → TimerHeap H
  invoke_callback meanwhile update_returns th = th
  invoke_callback meanwhile (calls cb tid args) th = meanwhile cb tid args th
  invoke_callback meanwhile nil_pointer th = th

  -- update, where the callbacks return: the rounds read the clock one after another, and each is
  -- followed by its own call. With the number of the calls.
  unfoldable pub update :
      ℕ
      → (ℕ → ℕ → ℕ → ℕ → TimerHeap H → TimerHeap H)
      → (ℕ → ℤ)
      → TimerHeap H
      → TimerHeap H × ℕ × UpdateEnd
  unfolding update_round invoke_callback
  update zero meanwhile clock th = (th, 0, update_cut_short)
  update (suc fuel) meanwhile clock th =
      let (th1, end) = update_round (clock 0) th in
      let (th2, called, later) =
        update fuel (λ n. meanwhile (suc n)) (λ n. clock (suc n))
          (invoke_callback (meanwhile 0) end th1) in
      elim end [
        | update_returns ↦ (th1, 0, update_done)
        | calls _ _ _ ↦ (th2, suc called, later)
        | nil_pointer ↦ (th1, 0, update_panicked)
      ]
