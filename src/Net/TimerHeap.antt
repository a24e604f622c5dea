-- ===== src/Net/TimerHeap.antt =====
-- net/timer_heap.go: timers in a heap by the time at which they are due, and one timer of the system
-- for the first of them. HeapOps is gutils' heap, which is not part of the repository.
pub mod Heap
pub mod Laws
pub mod Starting
pub mod Tables
pub mod Valid
pub mod Preserved
pub mod Steps
pub mod Due
pub mod Stopping
pub mod Stopped
pub mod Update
pub mod Turns
pub mod Returning
use gcluster.Common.{
  ℕ, ◌+◌, ◌%◌, ◌^◌, Bool, true, false, not, ◌&&◌, Option, none, some, ◌==◌, ltb, if◌then◌else◌,
}
use gcluster.Common.Int.{ℤ, pos, ◌+ℤ◌, ◌-ℤ◌, wrap64, leb_ℤ, ltb_ℤ, eqb_ℤ}
use gcluster.Common.Chan.{Chan, opened, close_chan}

-- timerOfTimerHeap, without heapIndex, which only the heap writes. A pointer to one is a number.
pub record Timer : Type 0 where
  pub id : ℕ
  pub delay : ℤ
  pub periodic : Bool
  pub args : ℕ
  pub cb : ℕ
  pub expire_at : ℤ

abbrev pub Timers : Type 0
Timers = ℕ → Timer

abbrev pub set_timer : ℕ → Timer → Timers → Timers
set_timer r t timers x = if r == x then t else timers x

-- HeapLess
unfoldable pub heap_less : Timer → Timer → Bool
heap_less t other =
    let n = wrap64 (t.expire_at -ℤ other.expire_at) in
    if eqb_ℤ n (pos 0) then ltb t.id other.id else ltb_ℤ n (pos 0)

-- heap.Heap of pointers to timers. `index` is what the heap has written to heapIndex, and an operation
-- that compares timers is given them.
pub record HeapOps : Type 1 where
  pub Heap : Type 0
  pub new_heap : Heap
  pub len : Heap → ℕ
  pub top : Heap → Option ℕ
  pub index : Heap → ℕ → ℤ
  pub push : Timers → ℕ → Heap → Heap
  pub remove : Timers → ℤ → Heap → Heap
  pub fix : Timers → ℤ → Heap → Heap

-- time.Timer: the time at which it fires, if it is running, and whether its channel holds a tick.
pub record SysTimer : Type 0 where
  pub armed : Option ℤ
  pub ticked : Bool

-- TimerHeap. `next` is the first pointer that is not in use, and `nil_heap` says that timerHeap and
-- timerMap are nil. `updating` says that the goroutine of loop is in update.
pub record TimerHeap (H : HeapOps) : Type 0 where
  pub timers : Timers
  pub next : ℕ
  pub sys_timer : SysTimer
  pub timer_id_gen : ℕ
  pub timer_heap : H.Heap
  pub timer_map : ℕ → Option ℕ
  pub nil_heap : Bool
  pub stopped : Bool
  pub c_stopped : Chan
  pub updating : Bool

abbrev pub timer_id_none : ℕ
timer_id_none = 0

-- How StartTimer ends.
pub data StartEnd : Type 0 where
  returned : ℕ → StartEnd
  start_panicked : StartEnd

-- genTimerId
unfoldable pub gen_timer_id : ℕ → ℕ
gen_timer_id gen =
    let timer_id = (gen + 1) % 2 ^ 64 in
    if timer_id == timer_id_none then (timer_id + 1) % 2 ^ 64 else timer_id

-- time.Timer fires.
unfoldable pub fire : ℤ → SysTimer → SysTimer
fire now s = elim s.armed [
  | none ↦ s
  | some e ↦ if leb_ℤ e now then record { armed = none; ticked = true } else s
]

-- stopSysTimer; a timer that is not running leaves at most a tick to be taken out.
unfoldable pub stop_sys_timer : SysTimer → SysTimer
stop_sys_timer s = elim s.armed [
  | some _ ↦ record s { armed = none }
  | none ↦ record s { ticked = false }
]

-- resetSysTimer: it fires `expireAt - now` from now.
unfoldable pub reset_sys_timer : ℤ → SysTimer → SysTimer
unfolding stop_sys_timer
reset_sys_timer expire_at s = record (stop_sys_timer s) { armed = some expire_at }

module _ {H : HeapOps} where
  -- NewTimerHeap
  abbrev pub new_timer_heap : Timers → ℤ → TimerHeap H
  new_timer_heap timers now = record {
    timers = timers;
    next = 0;
    sys_timer = record { armed = some now; ticked = false };
    timer_id_gen = 0;
    timer_heap = H.new_heap;
    timer_map = λ _. none;
    nil_heap = false;
    stopped = false;
    c_stopped = opened;
    updating = false;
  }

  -- addTimer
  unfoldable pub add_timer : ℕ → TimerHeap H → TimerHeap H
  add_timer r th = record th {
    timer_heap = H.push th.timers r th.timer_heap;
    timer_map = λ id. if (th.timers r).id == id then some r else th.timer_map id;
  }

  -- remTimer
  unfoldable pub rem_timer : ℕ → TimerHeap H → TimerHeap H
  rem_timer r th = record th {
    timer_heap = H.remove th.timers (H.index th.timer_heap r) th.timer_heap;
    timer_map = λ id. if (th.timers r).id == id then none else th.timer_map id;
  }

  -- Stop
  unfoldable pub stop : TimerHeap H → TimerHeap H
  unfolding stop_sys_timer
  stop th = if th.stopped then th else record th {
    sys_timer = stop_sys_timer th.sys_timer;
    timer_heap = H.new_heap;
    timer_map = λ _. none;
    nil_heap = true;
    c_stopped = close_chan th.c_stopped;
    stopped = true;
  }

  -- StartTimer: the new timer, at the first pointer that is free.
  unfoldable pub alloc_timer : ℤ → ℤ → Bool → ℕ → ℕ → TimerHeap H → TimerHeap H
  unfolding gen_timer_id wrap64
  alloc_timer now delay periodic args cb th =
      let id = gen_timer_id th.timer_id_gen in
      let t : Timer = record {
        id = id;
        delay = delay;
        periodic = periodic;
        args = args;
        cb = cb;
        expire_at = wrap64 (now +ℤ delay);
      } in
      record th { timers = set_timer th.next t th.timers; next = th.next + 1; timer_id_gen = id }

  -- StartTimer: the timer `r` is added, and the system's timer set again if it is the first one.
  unfoldable pub insert_timer : ℕ → TimerHeap H → TimerHeap H
  unfolding add_timer reset_sys_timer
  insert_timer r th =
      let th1 = add_timer r th in
      let reset = record th1 {
        sys_timer = reset_sys_timer (th.timers r).expire_at th1.sys_timer;
      } in
      elim (H.top th1.timer_heap) [ none ↦ th1 | some top ↦ if r == top then reset else th1 ]

  -- StartTimer
  unfoldable pub start_timer : ℤ → ℤ → Bool → ℕ → Option ℕ → TimerHeap H → TimerHeap H × StartEnd
  unfolding alloc_timer insert_timer
  start_timer now delay periodic args none th = (th, start_panicked)
  start_timer now delay periodic args (some cb) th =
      let th1 = alloc_timer now delay periodic args cb th in
      if leb_ℤ delay (pos 0)
      then (th, start_panicked)
      else if th.stopped
      then (th1, returned timer_id_none)
      else (insert_timer th.next th1, returned th1.timer_id_gen)

  -- StopTimer: the system's timer after the first timer has been removed.
  unfoldable pub rearm : TimerHeap H → TimerHeap H
  unfolding stop_sys_timer reset_sys_timer
  rearm th =
      if H.len th.timer_heap == 0
      then record th { sys_timer = stop_sys_timer th.sys_timer }
      else elim (H.top th.timer_heap) [
        | none ↦ th
        | some r ↦ record th { sys_timer = reset_sys_timer (th.timers r).expire_at th.sys_timer }
      ]

  -- StopTimer
  unfoldable pub stop_timer : ℕ → TimerHeap H → TimerHeap H
  unfolding rem_timer rearm
  stop_timer tid th = if th.stopped then th else elim (th.timer_map tid) [
    | none ↦ th
    | some r ↦ elim (H.top th.timer_heap) [
      | none ↦ rem_timer r th
      | some top ↦ if r == top then rearm (rem_timer r th) else rem_timer r th
    ]
  ]
