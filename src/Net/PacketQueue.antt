-- ===== src/Net/PacketQueue.antt =====
-- The queue of pending packets, gmpsc.Queue of github.com/godyy/gmpsc, is not part of the
-- repository: its operations are a parameter, and what the code relies on are the laws of IsFifo.
use gcluster.Common.{ℕ, ◌≡◌, Bool, true, false, Option, none, some, List, [], ◌∷◌, ◌++◌}
use gcluster.Common.Int.{ℤ}
use gcluster.Net.Packet.{Packet}

pub record PacketQueue : Type 1 where
  pub Queue : Type 0
  -- gmpsc.NewQueue(segment, limit)
  pub new_queue : ℕ → ℤ → Queue
  pub enqueue : Packet → Queue → Queue × Bool
  pub dequeue : Queue → Queue × Option Packet
  pub ready : Queue → ℕ
  pub close_queue : Queue → Queue

-- A queue hands out the packets that it accepted in their order, and nothing else.
pub record IsFifo (I : PacketQueue) : Type 0 where
  pub contents : I.Queue → List Packet
  pub contents-new : (n : ℕ) (m : ℤ) → contents (I.new_queue n m) ≡ []
  pub enqueue_stored :
      (p : Packet) (q : I.Queue)
      → (I.enqueue p q).1 ≡ true
      → contents (I.enqueue p q).0 ≡ contents q ++ p ∷ []
  pub enqueue_refused :
      (p : Packet) (q : I.Queue)
      → (I.enqueue p q).1 ≡ false
      → contents (I.enqueue p q).0 ≡ contents q
  pub dequeue_front :
      (p : Packet) (q : I.Queue)
      → (I.dequeue q).1 ≡ some p
      → contents q ≡ p ∷ contents (I.dequeue q).0
  pub dequeue_empty :
      (q : I.Queue) → (I.dequeue q).1 ≡ none → (contents q ≡ []) × (contents (I.dequeue q).0 ≡ [])
