-- ===== src/Net/TimerHeap/Stopped.antt =====
-- TimerHeap after Stop.
use gcluster.Common.{ℕ, ◌≡◌, ◌∙◌, ap, refl, Bool, true, false, some}
use gcluster.Common.Int.{ℤ, pos, ◌<ℤ◌, lt→leb_ℤ_false}
use gcluster.Common.Chan.{opened, closed, close_chan}
use gcluster.Net.TimerHeap.{
  HeapOps, TimerHeap, stop, start_timer, stop_timer, returned, timer_id_none,
}
use gcluster.Net.TimerHeap.Update.{update_round, nil_pointer}

module _ {H : HeapOps} where
  stop_running :
      (th : TimerHeap H)
      → th.stopped ≡ false
      → ((stop th).stopped ≡ true)
        × ((stop th).nil_heap ≡ true)
        × ((stop th).c_stopped ≡ close_chan th.c_stopped)
  unfolding stop
  stop_running th running = rw running (refl, refl, refl)

  calls_after_stop :
      (now delay : ℤ) (periodic : Bool) (args cb tid : ℕ) (th : TimerHeap H)
      → pos 0 <ℤ delay
      → th.stopped ≡ true
      → th.nil_heap ≡ true
      → (stop th ≡ th)
        × ((start_timer now delay periodic args (some cb) th).1 ≡ returned timer_id_none)
        × (stop_timer tid th ≡ th)
        × (update_round now th ≡ (th, nil_pointer))
  unfolding stop start_timer stop_timer update_round
  calls_after_stop now delay periodic args cb tid th positive stopped nil =
      let d = lt→leb_ℤ_false delay (pos 0) positive in
      (rw stopped refl, rw (d, stopped) refl, rw stopped refl, rw nil refl)

  -- Stop on a running TimerHeap closes its channel; after it a second Stop and StopTimer do nothing and
  -- StartTimer with a delay above 0 returns TimerIdNone. A round of update that runs after it, where
  -- loop had received its tick before, uses the nil heap.
  pub after_stop :
      (now delay : ℤ) (periodic : Bool) (args cb tid : ℕ) (th : TimerHeap H)
      → th.stopped ≡ false
      → th.c_stopped ≡ opened
      → pos 0 <ℤ delay
      → ((stop th).c_stopped ≡ closed)
        × (stop (stop th) ≡ stop th)
        × ((start_timer now delay periodic args (some cb) (stop th)).1 ≡ returned timer_id_none)
        × (stop_timer tid (stop th) ≡ stop th)
        × (update_round now (stop th) ≡ (stop th, nil_pointer))
  after_stop now delay periodic args cb tid th running unclosed positive =
      let (s, n, c) = stop_running th running in
      let (a, b, d, e) = calls_after_stop now delay periodic args cb tid (stop th) positive s n in
      (c ∙ ap (λ x. close_chan x) unclosed, a, b, d, e)
