-- ===== src/Net/TimerHeap/Steps.antt =====
-- TimerHeap under any sequence of calls, ticks and rounds of update.
use gcluster.Common.{
  ℕ, ◌+◌, ◌^◌, ◌<◌, ◌≡◌, Bool, true, Option, List, [], ◌∷◌, arith, either, if◌then◌else◌, inr,
}
use gcluster.Common.Int.{ℤ, ◌+ℤ◌}
use gcluster.Net.TimerHeap.{
  Timers, HeapOps, TimerHeap, start_timer, stop_timer, stop, fire, new_timer_heap,
}
use gcluster.Net.TimerHeap.Update.{update_round, receive_tick}
use gcluster.Net.TimerHeap.Heap.{IsHeap}
use gcluster.Net.TimerHeap.Laws.{IsTime}
use gcluster.Net.TimerHeap.Tables.{held, IsValid}
use gcluster.Net.TimerHeap.Valid.{start_timer-IsValid, same-IsTables}
use gcluster.Net.TimerHeap.Preserved.{
  stop_timer-IsValid, stop-IsValid, update_round-IsValid, fire-IsCovered, receive_tick-IsValid,
}

-- What happens to a TimerHeap, with the clock as it is then: a call of StartTimer, StopTimer or Stop,
-- time.Timer firing, loop receiving its tick, and a round of update.
pub data Step : Type 0 where
  starts : (now delay : ℤ) (periodic : Bool) (args : ℕ) (cb : Option ℕ) → Step
  stops : (tid : ℕ) → Step
  stops_all : Step
  fires : (now : ℤ) → Step
  receives : Step
  rounds : (now : ℤ) → Step

module _ {H : HeapOps} where
  unfoldable pub step : Step → TimerHeap H → TimerHeap H
  unfolding start_timer stop_timer stop fire receive_tick update_round
  step (starts now delay periodic args cb) th = (start_timer now delay periodic args cb th).0
  step (stops tid) th = stop_timer tid th
  step stops_all th = stop th
  step (fires now) th = record th { sys_timer = fire now th.sys_timer }
  step receives th = receive_tick th
  step (rounds now) th = if th.updating then (update_round now th).0 else th

  abbrev pub steps : List Step → TimerHeap H → TimerHeap H
  steps [] th = th
  steps (s ∷ ss) th = steps ss (step s th)

module _ {H : HeapOps} (L : IsHeap H) where
  -- The limits of the numbers: fewer than 2^64 timers, and times of an int64 after 1970.
  abbrev pub WithinLimits : Step → TimerHeap H → Type 0
  WithinLimits (starts now delay _ _ _) th = (th.timer_id_gen + 1 < 2 ^ 64) × IsTime (now +ℤ delay)
  WithinLimits (rounds _) th =
      (r : ℕ) → held L th r ≡ true → IsTime ((th.timers r).expire_at +ℤ (th.timers r).delay)
  WithinLimits _ th = Unit

  abbrev pub AllWithinLimits : List Step → TimerHeap H → Type 0
  AllWithinLimits [] th = Unit
  AllWithinLimits (s ∷ ss) th = WithinLimits s th × AllWithinLimits ss (step s th)

  step-IsValid :
      (s : Step) (th : TimerHeap H) → WithinLimits s th → IsValid L th → IsValid L (step s th)
  unfolding step
  step-IsValid (starts now delay periodic args cb) th (g, time) v =
      start_timer-IsValid L now delay periodic args cb th g time v
  step-IsValid (stops tid) th w v = stop_timer-IsValid L tid th v
  step-IsValid stops_all th w v = stop-IsValid L th v
  step-IsValid (fires now) th w (t, c) =
      (same-IsTables L th (fire now th.sys_timer) th.updating t, fire-IsCovered L now th c)
  step-IsValid receives th w v = receive_tick-IsValid L th v
  step-IsValid (rounds now) th w v =
      either (λ x. IsValid L x) th.updating _ th (λ u. update_round-IsValid L now th u w v) (λ _. v)

  pub new_timer_heap-IsValid : (timers : Timers) (now : ℤ) → IsValid L (new_timer_heap timers now)
  new_timer_heap-IsValid timers now = (
    record {
      keeps = L.new_keeps timers;
      mapped = λ r h. absurd (ground (arith, h, L.new_holds r));
      found = λ id r e. absurd (ground (arith, e));
      allocated = λ r h. absurd (ground (arith, h, L.new_holds r));
      numbered = λ r h. absurd (ground (arith, h, L.new_holds r));
      in_time = λ r h. absurd (ground (arith, h, L.new_holds r));
    },
    inr (inr (λ r h. absurd (ground (arith, h, L.new_holds r)))),
  )

  all_steps-IsValid :
      (ss : List Step) (th : TimerHeap H)
      → AllWithinLimits ss th
      → IsValid L th
      → IsValid L (steps ss th)
  all_steps-IsValid [] th w v = v
  all_steps-IsValid (s ∷ ss) th (w, ws) v =
      all_steps-IsValid ss (step s th) ws (step-IsValid s th w v)

  -- After any sequence of calls, ticks and rounds of update on a new TimerHeap, its heap and its map
  -- have the same timers, under different identifiers, and no timer is forgotten: update is running,
  -- or a tick for it waits, or the system's timer is due no later than every timer. The numbers keep
  -- their limits.
  pub steps-IsValid :
      (ss : List Step) (timers : Timers) (now : ℤ)
      → AllWithinLimits ss (new_timer_heap timers now)
      → IsValid L (steps ss (new_timer_heap timers now))
  steps-IsValid ss timers now w =
      all_steps-IsValid ss (new_timer_heap timers now) w (new_timer_heap-IsValid timers now)
