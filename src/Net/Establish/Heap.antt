-- ===== src/Net/Establish/Heap.antt =====
-- How the establishing goroutines change the heap of establishments: only by the methods of an
-- establishment, and by new ones at its end.
use gcluster.Common.{
  ℕ, ◌≡◌, refl, inl, inr, ◌∙◌, ap, Bool, false, Option, none, some, arith, Option-cases, Bool-cases,
}
use gcluster.Common.Int.{ℤ}
use gcluster.Common.Bytes.{Bytes}
use gcluster.Net.Const.{state_closed}
use gcluster.Net.Error.{Err}
use gcluster.Net.PacketQueue.{PacketQueue}
use gcluster.Net.Ref.{Conn, SessionRef}
use gcluster.Net.Session.{same_state}
use gcluster.Net.Service.{Service, session_at, get_session, get_session_unlocked, add_session}
use gcluster.Net.Service.Lifecycle.{new_session, start_session, close_session, close_base_locked}
use gcluster.Net.Service.Closing.{
  close_open-SameHeap, close_base_locked_closed, close_session_dangling, close_session_opened,
}
use gcluster.Net.Establish.{forget_establishment, close_conn}

module _ {I : PacketQueue} where
  -- A step that leaves the heap of establishments alone.
  abbrev pub Apart : Service I → Service I → Type 0
  Apart w u = u.establishment_heap ≡ w.establishment_heap

  pub close_base_locked-Apart :
      (locked : Bool) (i : ℕ) (w : Service I) → Apart w (close_base_locked locked i w)
  close_base_locked-Apart locked i w = elim (Option-cases (session_at i w)) [
    | inl e ↦ ap (λ u. u.establishment_heap) (close_session_dangling locked i w e)
    | inr (s, e) ↦ elim (Bool-cases (same_state state_closed s.state)) [
      | inl c ↦
          ap (λ u. u.establishment_heap) (close_base_locked_closed locked i s w e (ground arith))
      | inr o ↦
          ap (λ u. u.establishment_heap) (close_session_opened locked i s w e (ground arith))
          ∙ (close_open-SameHeap locked i s w).5
    ]
  ]

  pub close_session-Apart : (i : ℕ) (w : Service I) → Apart w (close_session i w)
  unfolding close_session
  close_session-Apart i w = close_base_locked-Apart false i w

  pub get_session-Apart : (now : ℤ) (k : Bytes) (w : Service I) → Apart w (get_session now k w).0
  unfolding get_session
  get_session-Apart now k w = ground arith

  pub get_session_unlocked-Apart :
      (now : ℤ) (k : Bytes) (w : Service I) → Apart w (get_session_unlocked now k w).0
  unfolding get_session_unlocked
  get_session_unlocked-Apart now k w = ground arith

  pub new_session-Apart :
      (k : Bytes) (active : Bool) (c : Conn) (w : Service I) → Apart w (new_session k active c w).0
  unfolding new_session
  new_session-Apart k active c w = refl

  pub start_session-Apart :
      (now : ℤ) (tid : ℕ) (core_err : Option Err) (i : ℕ) (w : Service I)
      → Apart w (start_session now tid core_err i w).0
  unfolding start_session
  start_session-Apart now tid core_err i w = ground arith

  pub add_session-Apart : (r : SessionRef) (w : Service I) → Apart w (add_session r w)
  unfolding add_session
  add_session-Apart r w = ground arith

  pub forget_establishment-Apart :
      (k : Bytes) (id : ℕ) (w : Service I) → Apart w (forget_establishment k id w)
  unfolding forget_establishment
  forget_establishment-Apart k id w = ground arith

  pub close_conn-Apart : (c : Option Conn) (w : Service I) → Apart w (close_conn c w)
  unfolding close_conn
  close_conn-Apart none w = refl
  close_conn-Apart (some c) w = refl
