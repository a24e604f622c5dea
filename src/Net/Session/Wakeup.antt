-- ===== src/Net/Session/Wakeup.antt =====
-- net/session.go, sendDirect against SessionPendingPacket as interleaved atomic operations: any
-- number of senders, and the one goroutine that writes the connection. A failed Dequeue means that
-- the queue was empty.
use gcluster.Common.{ℕ, suc, ◌+◌, ◌<◌, ◌≡◌, refl, ◌⊎◌, Bool, true, false, arith, if◌then◌else◌}

-- Where the reader stands: in its caller, before its first Dequeue, before it announces that it
-- waits, before its second Dequeue, in the select, or before it takes the announcement back.
pub data Reader : Type 0 where
  away first announcing second selecting clearing : Reader

-- `enqueued` senders stand between their Enqueue and their load of waitNotify, and `notifying` ones
-- have read that the reader waits and not signalled yet.
pub record Protocol : Type 0 where
  pub queued : ℕ
  pub wait_notify : Bool
  pub notify : Bool
  pub reader : Reader
  pub enqueued : ℕ
  pub notifying : ℕ

pub data Step (t : Protocol) : Protocol → Type 0 where
  enqueue : Step t (record t { queued = suc t.queued; enqueued = suc t.enqueued })
  load :
      (n : ℕ)
      → t.enqueued ≡ suc n
      → Step t (record t {
        enqueued = n;
        notifying = if t.wait_notify then suc t.notifying else t.notifying;
      })
  signal : (n : ℕ) → t.notifying ≡ suc n → Step t (record t { notifying = n; notify = true })
  call : t.reader ≡ away → Step t (record t { reader = first })
  hit_first :
      (n : ℕ)
      → t.reader ≡ first
      → t.queued ≡ suc n
      → Step t (record t { queued = n; reader = clearing })
  miss_first : t.reader ≡ first → t.queued ≡ 0 → Step t (record t { reader = announcing })
  announce : t.reader ≡ announcing → Step t (record t { wait_notify = true; reader = second })
  hit_second :
      (n : ℕ)
      → t.reader ≡ second
      → t.queued ≡ suc n
      → Step t (record t { queued = n; reader = clearing })
  miss_second : t.reader ≡ second → t.queued ≡ 0 → Step t (record t { reader = selecting })
  receive :
      t.reader ≡ selecting → t.notify ≡ true → Step t (record t { notify = false; reader = first })
  clear : t.reader ≡ clearing → Step t (record t { wait_notify = false; reader = away })

pub data Reach (s : Protocol) : Protocol → Type 0 where
  here : Reach s s
  next : {t u : Protocol} → Reach s t → Step t u → Reach s u

-- A new session.
abbrev pub start : Protocol
start = record {
  queued = 0;
  wait_notify = false;
  notify = false;
  reader = away;
  enqueued = 0;
  notifying = 0;
}

-- A reader that is in the select, or about to be, has announced itself; and whatever is queued
-- while it is in the select has a signal, or a sender that is about to give one.
pub record IsAwake (t : Protocol) : Type 0 where
  pub announced_second : t.reader ≡ second → t.wait_notify ≡ true
  pub announced_selecting : t.reader ≡ selecting → t.wait_notify ≡ true
  pub signalled :
      t.reader ≡ selecting → (t.queued ≡ 0) ⊎ (t.notify ≡ true) ⊎ (0 < t.enqueued + t.notifying)

Step-IsAwake : {t u : Protocol} → Step t u → IsAwake t → IsAwake u
Step-IsAwake enqueue v = ground arith
Step-IsAwake (load n h) v = ground arith
Step-IsAwake (signal n h) v = ground arith
Step-IsAwake (call h) v = ground arith
Step-IsAwake (hit_first n h k) v = ground arith
Step-IsAwake (miss_first h k) v = ground arith
Step-IsAwake (announce h) v = ground arith
Step-IsAwake (hit_second n h k) v = ground arith
Step-IsAwake (miss_second h k) v = ground arith
Step-IsAwake (receive h k) v = ground arith
Step-IsAwake (clear h) v = ground arith

pub Reach-IsAwake : {s t : Protocol} → IsAwake s → Reach s t → IsAwake t
Reach-IsAwake v here = v
Reach-IsAwake v (next r st) = Step-IsAwake st (Reach-IsAwake v r)

-- No wake-up is lost: in whatever order senders and the reader run, a reader that waits in its
-- select while a packet is queued and no sender is in the middle of sending can go on, and goes on
-- to its first Dequeue.
pub no_lost_wakeup :
    {t : Protocol}
    → Reach start t
    → t.reader ≡ selecting
    → 0 < t.queued
    → t.enqueued + t.notifying ≡ 0
    → (u : Protocol) × Step t u × (u.reader ≡ first) × (u.queued ≡ t.queued)
no_lost_wakeup {t} r h q n =
    let v = Reach-IsAwake (ground arith) r in
    (record t { notify = false; reader = first }, receive h (ground (arith, v)), refl, refl)
