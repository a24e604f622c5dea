-- ===== src/Net/TimerHeap/Heap.antt =====
-- What net/timer_heap.go relies on of gutils' heap.
use gcluster.Common.{ℕ, ◌≡◌, ◌≢◌, Bool, true, false, some, ◌==◌, if◌then◌else◌}
use gcluster.Net.TimerHeap.{Timers, HeapOps, heap_less}
use gcluster.Net.TimerHeap.Laws.{IsTime}

-- A heap is a set of pointers, of which the top is a least one. `Keeps` says that the heap is in order
-- for the timers as they are; only the timer at the index that is given may have changed before fix.
-- HeapLess is an order only on times whose differences do not overflow: those of IsTime.
pub record IsHeap (H : HeapOps) : Type 1 where
  pub holds : H.Heap → ℕ → Bool
  pub Keeps : Timers → H.Heap → Type 0
  pub new_holds : (r : ℕ) → holds H.new_heap r ≡ false
  pub new_keeps : (ts : Timers) → Keeps ts H.new_heap
  pub keeps_same :
      (ts ts' : Timers) (h : H.Heap)
      → Keeps ts h
      → ((x : ℕ) → holds h x ≡ true → ts' x ≡ ts x)
      → Keeps ts' h
  pub len_none : (h : H.Heap) (r : ℕ) → (H.len h == 0) ≡ true → holds h r ≡ false
  pub top_some :
      (h : H.Heap) → (H.len h == 0) ≡ false → (r : ℕ) × (H.top h ≡ some r) × (holds h r ≡ true)
  pub top_holds : (h : H.Heap) (r : ℕ) → H.top h ≡ some r → holds h r ≡ true
  pub top_exists : (h : H.Heap) (x : ℕ) → holds h x ≡ true → (r : ℕ) × (H.top h ≡ some r)
  pub top_least :
      (ts : Timers) (h : H.Heap) (r x : ℕ)
      → Keeps ts h
      → H.top h ≡ some r
      → holds h x ≡ true
      → heap_less (ts x) (ts r) ≡ false
  pub push_holds :
      (ts : Timers) (r x : ℕ) (h : H.Heap)
      → holds (H.push ts r h) x ≡ (if r == x then true else holds h x)
  pub push_keeps :
      (ts : Timers) (r : ℕ) (h : H.Heap)
      → Keeps ts h
      → holds h r ≡ false
      → IsTime (ts r).expire_at
      → Keeps ts (H.push ts r h)
  pub remove_holds :
      (ts : Timers) (r x : ℕ) (h : H.Heap)
      → Keeps ts h
      → holds h r ≡ true
      → holds (H.remove ts (H.index h r) h) x ≡ (if r == x then false else holds h x)
  pub remove_keeps :
      (ts : Timers) (r : ℕ) (h : H.Heap)
      → Keeps ts h
      → holds h r ≡ true
      → Keeps ts (H.remove ts (H.index h r) h)
  pub fix_holds :
      (ts ts' : Timers) (r x : ℕ) (h : H.Heap)
      → Keeps ts h
      → holds h r ≡ true
      → holds (H.fix ts' (H.index h r) h) x ≡ holds h x
  pub fix_keeps :
      (ts ts' : Timers) (r : ℕ) (h : H.Heap)
      → Keeps ts h
      → holds h r ≡ true
      → ((x : ℕ) → r ≢ x → ts' x ≡ ts x)
      → IsTime (ts' r).expire_at
      → Keeps ts' (H.fix ts' (H.index h r) h)
