-- ===== src/Net/Examples/Timers.antt =====
-- The theorems on TimerHeap, on a heap that is a list.
use gcluster.Common.{ℕ, ◌≡◌, sym, refl, true, false, none, some, List, [], ◌∷◌, arith}
use gcluster.Common.Int.{pos, ◌+ℤ◌, leb_ℤ, ltb_ℤ}
use gcluster.Net.TimerHeap.{
  TimerHeap, Timers, new_timer_heap, start_timer, stop_timer, returned, stop, timer_id_none,
}
use gcluster.Net.TimerHeap.Update.{update_round, calls, nil_pointer, update}
use gcluster.Net.TimerHeap.Tables.{held, IsValid}
use gcluster.Net.TimerHeap.Steps.{
  Step, starts, fires, receives, step, steps, AllWithinLimits, steps-IsValid,
  new_timer_heap-IsValid,
}
use gcluster.Net.TimerHeap.Due.{IsRound, update_round-IsRound}
use gcluster.Net.TimerHeap.Turns.{GoodDelays, enough_rounds}
use gcluster.Net.TimerHeap.Returning.{IsDone, IsQuiet, update-IsDone}
use gcluster.Net.TimerHeap.Stopped.{after_stop}
use gcluster.Common.Chan.{closed}
use gcluster.Net.TimerHeap.Stopping.{stop_timer-start_timer}
use gcluster.Net.Examples.Heaps.{ListHeap, ListHeap-IsHeap}

abbrev no_timer : Timers
no_timer _ = record { id = 0; delay = pos 0; periodic = false; args = 0; cb = 0; expire_at = pos 0 }

-- A timer that is not periodic, due at 1020, and the tick that the new system's timer gives at once.
abbrev one_timer : List Step
one_timer = starts (pos 1000) (pos 20) false 8 (some 2) ∷ fires (pos 1020) ∷ receives ∷ []

one_timer-limits :
    AllWithinLimits ListHeap-IsHeap one_timer (new_timer_heap {H = ListHeap} no_timer (pos 990))
unfolding ◌+ℤ◌
one_timer-limits = ((omega arith, (omega arith, omega arith)), (tt, (tt, tt)))

steps-IsValid_example :
    IsValid ListHeap-IsHeap (steps one_timer (new_timer_heap {H = ListHeap} no_timer (pos 990)))
steps-IsValid_example = steps-IsValid ListHeap-IsHeap one_timer no_timer (pos 990) one_timer-limits

-- It is called at 1020.
test_called :
    (update_round (pos 1020) (steps one_timer (new_timer_heap {H = ListHeap} no_timer (pos 990)))).1
    ≡ calls 2 1 8
unfolding update_round step start_timer leb_ℤ ◌+ℤ◌ ltb_ℤ
test_called = refl

update_round-IsRound_example :
    let th = steps one_timer (new_timer_heap {H = ListHeap} no_timer (pos 990)) in
    IsRound ListHeap-IsHeap (pos 1020) th (update_round (pos 1020) th)
unfolding step leb_ℤ ◌+ℤ◌
update_round-IsRound_example =
    update_round-IsRound ListHeap-IsHeap (pos 1020)
      (steps one_timer (new_timer_heap {H = ListHeap} no_timer (pos 990))) refl
      (steps-IsValid ListHeap-IsHeap one_timer no_timer (pos 990) one_timer-limits).0

stop_timer-start_timer_example :
    let th = new_timer_heap {H = ListHeap} no_timer (pos 990) in
    let after = start_timer (pos 1000) (pos 20) true 8 (some 2) th in
    (id : ℕ) × (after.1 ≡ returned id)
    × (th.timer_map id ≡ none)
    × (held ListHeap-IsHeap (stop_timer id after.0) 0 ≡ held ListHeap-IsHeap th 0)
unfolding ◌+ℤ◌
stop_timer-start_timer_example =
    stop_timer-start_timer ListHeap-IsHeap (pos 1000) (pos 20) true 8 2 0
      (new_timer_heap {H = ListHeap} no_timer (pos 990)) refl (omega arith) (omega arith)
      (omega arith, omega arith) (new_timer_heap-IsValid ListHeap-IsHeap no_timer (pos 990))

after_stop_example :
    let th = new_timer_heap {H = ListHeap} no_timer (pos 990) in
    ((stop th).c_stopped ≡ closed)
    × (stop (stop th) ≡ stop th)
    × ((start_timer (pos 1000) (pos 20) false 8 (some 2) (stop th)).1 ≡ returned timer_id_none)
    × (stop_timer 1 (stop th) ≡ stop th)
    × (update_round (pos 1000) (stop th) ≡ (stop th, nil_pointer))
after_stop_example =
    after_stop (pos 1000) (pos 20) false 8 2 1 (new_timer_heap {H = ListHeap} no_timer (pos 990))
      refl refl (omega arith)

one_timer-GoodDelays :
    GoodDelays ListHeap-IsHeap
      (pos 1021)
      (steps one_timer (new_timer_heap {H = ListHeap} no_timer (pos 990)))
unfolding step leb_ℤ ◌+ℤ◌
one_timer-GoodDelays x h =
    let first : 0 ≡ x = ground (arith, h) in rw (sym first) (omega arith, omega arith)

-- Callbacks that leave the heap alone, as the one of a session's timer does.
abbrev elsewhere : ℕ → ℕ → ℕ → ℕ → TimerHeap ListHeap → TimerHeap ListHeap
elsewhere n cb id args th = th

elsewhere-IsQuiet : IsQuiet ListHeap-IsHeap (pos 1021) elsewhere
elsewhere-IsQuiet = record {
  keeps = λ n cb id args th live. live;
  adds_none = λ n cb id args th live. omega arith;
}

-- The timer is due at 1020: at 1021 it takes at most two rounds.
update-IsDone_example :
    let th = steps one_timer (new_timer_heap {H = ListHeap} no_timer (pos 990)) in
    IsDone ListHeap-IsHeap
      (pos 1021)
      (enough_rounds ListHeap-IsHeap (pos 1021) th)
      (update 3 elsewhere (λ _. pos 1021) th)
unfolding step leb_ℤ ◌+ℤ◌
update-IsDone_example =
    update-IsDone ListHeap-IsHeap (pos 1021) 3 elsewhere
      (steps one_timer (new_timer_heap {H = ListHeap} no_timer (pos 990))) elsewhere-IsQuiet
      (omega arith) refl
      (steps-IsValid ListHeap-IsHeap one_timer no_timer (pos 990) one_timer-limits).0
      one_timer-GoodDelays
