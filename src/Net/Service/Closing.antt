-- ===== src/Net/Service/Closing.antt =====
-- net/session.go, closeBaseLocked: closing a session, and which entry of the map it takes out.
use gcluster.Common.{
  ℕ, ◌≡◌, ◌≢◌, refl, ◌⊎◌, inl, inr, ◌∙◌, ap, if◌then◌else◌, Bool, false, none, some, arith,
  Option-cases, Bool-cases, get_elem?,
}
use gcluster.Common.Bytes.{Bytes, bytes_eq, bytes_eq_iff}
use gcluster.Common.Assoc.{lookup}
use gcluster.Net.Const.{state_closed}
use gcluster.Net.PacketQueue.{PacketQueue}
use gcluster.Net.Ref.{remote_session}
use gcluster.Net.Session.{Session, same_state}
use gcluster.Net.Service.{
  Service, same_ref, session_at, put_session, ref_node_id, stop_session_ticker, on_session_closed,
}
use gcluster.Net.Service.Lifecycle.{
  close_core, closed_session, close_open, close_base_locked, close_session,
}
use gcluster.Net.Service.Heap.{
  SubMap, same_ref_iff, same_ref_self, session_at-put_session_self, session_at-put_session_ne,
  stop_session_ticker-SameHeap, close_core-SameHeap, on_session_closed-SameHeap,
  lookup-compare_and_delete, on_session_closed-SubMap,
}

module _ {I : PacketQueue} where
  -- The service before the map forgets the session.
  abbrev unmapped : Bool → ℕ → Session I → Service I → Service I
  unmapped locked i s w =
      stop_session_ticker s.tick_timer_id
        (close_core s.core (put_session i (closed_session locked s) w))

  unmapped-heap :
      (locked : Bool) (i : ℕ) (s : Session I) (w : Service I)
      → let w' = unmapped locked i s w in
        (w'.session_heap ≡ (put_session i (closed_session locked s) w).session_heap)
        × (w'.cfg ≡ w.cfg)
        × (w'.state ≡ w.state)
        × (w'.c_closed ≡ w.c_closed)
        × (w'.sessions ≡ w.sessions)
        × (w'.establishments ≡ w.establishments)
        × (w'.establishment_heap ≡ w.establishment_heap)
        × (w'.c_tick_sessions ≡ w.c_tick_sessions)
  unfolding put_session
  unmapped-heap locked i s w =
      let w0 = put_session i (closed_session locked s) w in
      ground (
        arith,
        close_core-SameHeap s.core w0,
        stop_session_ticker-SameHeap s.tick_timer_id (close_core s.core w0),
      )

  pub session_at-heap :
      (i : ℕ) (u w : Service I) → u.session_heap ≡ w.session_heap → session_at i u ≡ session_at i w
  unfolding session_at
  session_at-heap i u w h = ap (λ l. get_elem? l i) h

  pub close_open-SameHeap :
      (locked : Bool) (i : ℕ) (s : Session I) (w : Service I)
      → let w' = close_open locked i s w in
        (w'.session_heap ≡ (put_session i (closed_session locked s) w).session_heap)
        × (w'.cfg ≡ w.cfg)
        × (w'.state ≡ w.state)
        × (w'.c_closed ≡ w.c_closed)
        × (w'.establishments ≡ w.establishments)
        × (w'.establishment_heap ≡ w.establishment_heap)
        × (w'.c_tick_sessions ≡ w.c_tick_sessions)
  unfolding close_open
  close_open-SameHeap locked i s w = ground (
    arith,
    unmapped-heap locked i s w,
    on_session_closed-SameHeap (remote_session i) (unmapped locked i s w),
  )

  pub close_open-SubMap :
      (locked : Bool) (i : ℕ) (s : Session I) (w : Service I) → SubMap w (close_open locked i s w)
  unfolding close_open
  close_open-SubMap locked i s w j = ground (
    arith,
    unmapped-heap locked i s w,
    on_session_closed-SubMap (remote_session i) (unmapped locked i s w) j,
  )

  -- Closing a session that is not closed yet: the session behind the pointer is closed, no other
  -- session changes, and neither do the service's state and establishments.
  pub close_session_opened :
      (locked : Bool) (i : ℕ) (s : Session I) (w : Service I)
      → session_at i w ≡ some s
      → s.state ≢ state_closed
      → close_base_locked locked i w ≡ close_open locked i s w
  unfolding close_base_locked
  close_session_opened locked i s w h k = ground arith

  pub close_open_at :
      (locked : Bool) (i : ℕ) (s : Session I) (w : Service I)
      → session_at i w ≡ some s
      → session_at i (close_open locked i s w) ≡ some (closed_session locked s)
  close_open_at locked i s w h =
      session_at-heap i _ _ (close_open-SameHeap locked i s w).0
      ∙ session_at-put_session_self i (closed_session locked s) s w h

  pub close_open_other :
      (locked : Bool) (i j : ℕ) (s : Session I) (w : Service I)
      → i ≢ j
      → session_at j (close_open locked i s w) ≡ session_at j w
  close_open_other locked i j s w h =
      session_at-heap j _ _ (close_open-SameHeap locked i s w).0
      ∙ session_at-put_session_ne i j (closed_session locked s) w h

  pub close_base_locked_closed :
      (locked : Bool) (i : ℕ) (s : Session I) (w : Service I)
      → session_at i w ≡ some s
      → s.state ≡ state_closed
      → close_base_locked locked i w ≡ w
  unfolding close_base_locked
  close_base_locked_closed locked i s w h k = ground arith

  pub close_session_dangling :
      (locked : Bool) (i : ℕ) (w : Service I)
      → session_at i w ≡ none
      → close_base_locked locked i w ≡ w
  unfolding close_base_locked
  close_session_dangling locked i w h = ground arith

  -- Closing a session a second time, from whatever callback, changes nothing: its channel is closed
  -- once, its core and its timer are stopped once, and no error stands in the way.
  pub close_session_twice :
      (i : ℕ) (w : Service I) → close_session i (close_session i w) ≡ close_session i w
  unfolding close_session
  close_session_twice i w = elim (Option-cases (session_at i w)) [
    | inl e ↦ ap (close_base_locked false i) (close_session_dangling false i w e)
    | inr (s, e) ↦ elim (Bool-cases (same_state state_closed s.state)) [
      | inl c ↦
          ap (close_base_locked false i) (close_base_locked_closed false i s w e (ground arith))
      | inr o ↦ rw (close_session_opened false i s w e (ground arith)) (
          close_base_locked_closed false i (closed_session false s) _ (close_open_at false i s w e)
            (unfold closed_session in refl))
    ]
  ]

  lookup-close_open :
      (locked : Bool) (i : ℕ) (s : Session I) (w : Service I) (j : Bytes)
      → session_at i w ≡ some s
      → lookup j (close_open locked i s w).sessions ≡ (
          if bytes_eq s.remote_node_id j
          then (elim (lookup j w.sessions) [
            | none ↦ none
            | some r ↦ if same_ref r (remote_session i) then none else some r
          ])
          else lookup j w.sessions)
  unfolding close_open on_session_closed ref_node_id closed_session
  lookup-close_open locked i s w j h =
      let w1 = unmapped locked i s w in
      let at1 : session_at i w1 ≡ some (closed_session locked s) =
        session_at-heap i w1 (put_session i (closed_session locked s) w)
          (unmapped-heap locked i s w).0
        ∙ session_at-put_session_self i (closed_session locked s) s w h in
      ground (
        arith,
        at1,
        unmapped-heap locked i s w,
        lookup-compare_and_delete s.remote_node_id j (remote_session i) w1,
      )

  -- The entry of the map for `j` is that of the session `s` behind the pointer `i`.
  abbrev pub IsOwnEntry : ℕ → Session I → Bytes → Service I → Type 0
  IsOwnEntry i s j w = (j ≡ s.remote_node_id) × (lookup j w.sessions ≡ some (remote_session i))

  -- Closing a session that is behind a pointer takes its own entry out of the map, if it has one:
  -- that of its remote node, where this holds that pointer. Every other entry stays as it is, also
  -- that of its remote node where it holds another session.
  pub close_open_unmaps :
      (locked : Bool) (i : ℕ) (s : Session I) (w : Service I) (j : Bytes)
      → session_at i w ≡ some s
      → (IsOwnEntry i s j w × (lookup j (close_open locked i s w).sessions ≡ none))
        ⊎ (¬ IsOwnEntry i s j w
            × (lookup j (close_open locked i s w).sessions ≡ lookup j w.sessions))
  close_open_unmaps locked i s w j h = elim (Option-cases (lookup j w.sessions)) [
    | inl gone ↦
        inr (
          λ own. ground (arith, own, gone),
          ground (arith, gone, lookup-close_open locked i s w j h),
        )
    | inr (r, held) ↦ ground (
      arith,
      held,
      lookup-close_open locked i s w j h,
      bytes_eq_iff s.remote_node_id j,
      same_ref_iff r (remote_session i),
      same_ref_self (remote_session i),
    )
  ]
