-- ===== src/Net/Service/Shutdown.antt =====
-- net/service.go, Close: what is left of the sessions, and of their timers, when a service closes.
use gcluster.Common.{
  ℕ, ◌≡◌, ◌≢◌, refl, inl, inr, ◌∙◌, sym, ap, Bool, false, none, some, List, [], ◌∷◌, arith,
  Option-cases, Bool-cases, ◌==◌,
}
use gcluster.Common.Bytes.{Bytes, bytes_eq}
use gcluster.Common.Assoc.{lookup}
use gcluster.Common.Chan.{close_chan}
use gcluster.Net.Const.{state_started, state_closed}
use gcluster.Net.PacketQueue.{PacketQueue}
use gcluster.Net.Ref.{SessionRef, local_session, remote_session}
use gcluster.Net.Session.{Session, same_state}
use gcluster.Net.Service.{Service, session_at}
use gcluster.Net.Service.Lifecycle.{
  closed_session, close_base_locked, close_ref, close_sessions, close_listener, close_service,
}
use gcluster.Net.Service.Heap.{compare_and_delete-SameHeap}
use gcluster.Net.Service.Closing.{
  close_open_at, close_open_other, close_base_locked_closed, close_session_dangling,
  close_session_opened, session_at-heap,
}
use gcluster.Net.Service.Entries.{close_sessions_gone, close_sessions-SubMap, closed_entry}

module _ {I : PacketQueue} where
  -- The pointer has a session, which is closed.
  abbrev pub IsClosedAt : ℕ → Service I → Type 0
  IsClosedAt i w = (s : Session I) × (session_at i w ≡ some s) × (s.state ≡ state_closed)

  abbrev pub Exists : ℕ → Service I → Type 0
  Exists i w = (s : Session I) × (session_at i w ≡ some s)

  pub closing_closes :
      (locked : Bool) (i : ℕ) (w : Service I)
      → Exists i w
      → IsClosedAt i (close_base_locked locked i w)
  closing_closes locked i w (s, h) = elim (Bool-cases (same_state state_closed s.state)) [
    | inl c ↦
        let e : s.state ≡ state_closed = ground arith in
        rw (close_base_locked_closed locked i s w h e) (s, h, e)
    | inr o ↦
        rw (close_session_opened locked i s w h (ground arith))
          (closed_session locked s, close_open_at locked i s w h, unfold closed_session in refl)
  ]

  pub closing_other :
      (locked : Bool) (i j : ℕ) (w : Service I)
      → i ≢ j
      → session_at j (close_base_locked locked i w) ≡ session_at j w
  closing_other locked i j w ne = elim (Option-cases (session_at i w)) [
    | inl e ↦ ap (session_at j) (close_session_dangling locked i w e)
    | inr (s, e) ↦ elim (Bool-cases (same_state state_closed s.state)) [
      | inl c ↦ ap (session_at j) (close_base_locked_closed locked i s w e (ground arith))
      | inr o ↦
          ap (session_at j) (close_session_opened locked i s w e (ground arith))
          ∙ close_open_other locked i j s w ne
    ]
  ]

  pub closing-IsClosedAt :
      (locked : Bool) (i j : ℕ) (w : Service I)
      → IsClosedAt j w
      → IsClosedAt j (close_base_locked locked i w)
  closing-IsClosedAt locked i j w (s, h, c) = elim (Bool-cases (i == j)) [
    | inl same ↦
        let e : i ≡ j = ground arith in
        rw (close_base_locked_closed locked i s w (ap (λ n. session_at n w) e ∙ h) c) (s, h, c)
    | inr other ↦ (s, closing_other locked i j w (ground arith) ∙ h, c)
  ]

  pub closing-Exists :
      (locked : Bool) (i j : ℕ) (w : Service I)
      → Exists j w
      → Exists j (close_base_locked locked i w)
  closing-Exists locked i j w (s, h) = elim (Bool-cases (i == j)) [
    | inl same ↦
        let e : i ≡ j = ground arith in
        let (t, k, _) = closing_closes locked i w (s, ap (λ n. session_at n w) e ∙ h) in
        (t, ap (λ n. session_at n (close_base_locked locked i w)) (sym e) ∙ k)
    | inr other ↦ (s, closing_other locked i j w (ground arith) ∙ h)
  ]

  pub entry-heap :
      (i : ℕ) (k : Bytes) (r : SessionRef) (w : Service I)
      → session_at i (closed_entry k r w) ≡ session_at i (close_ref r w)
  entry-heap i k r w =
      session_at-heap i (closed_entry k r w) (close_ref r w)
        (compare_and_delete-SameHeap k r (close_ref r w)).0.0

  entry-IsClosedAt :
      (j : ℕ) (k : Bytes) (r : SessionRef) (w : Service I)
      → IsClosedAt j w
      → IsClosedAt j (closed_entry k r w)
  unfolding close_ref
  entry-IsClosedAt j k local_session w (s, h, c) = (s, entry-heap j k local_session w ∙ h, c)
  entry-IsClosedAt j k (remote_session i) w v =
      let (s, h, c) = closing-IsClosedAt false i j w v in
      (s, entry-heap j k (remote_session i) w ∙ h, c)

  entry-Exists :
      (j : ℕ) (k : Bytes) (r : SessionRef) (w : Service I)
      → Exists j w
      → Exists j (closed_entry k r w)
  unfolding close_ref
  entry-Exists j k local_session w (s, h) = (s, entry-heap j k local_session w ∙ h)
  entry-Exists j k (remote_session i) w v =
      let (s, h) = closing-Exists false i j w v in (s, entry-heap j k (remote_session i) w ∙ h)

  pub close_sessions-IsClosedAt :
      (l : List (Bytes × SessionRef)) (i : ℕ) (w : Service I)
      → IsClosedAt i w
      → IsClosedAt i (close_sessions l w)
  unfolding close_sessions
  close_sessions-IsClosedAt [] i w v = v
  close_sessions-IsClosedAt ((k, r) ∷ l) i w v =
      close_sessions-IsClosedAt l i (closed_entry k r w) (entry-IsClosedAt i k r w v)

  pub close_sessions_closes :
      (l : List (Bytes × SessionRef)) (k : Bytes) (i : ℕ) (w : Service I)
      → lookup k l ≡ some (remote_session i)
      → Exists i w
      → IsClosedAt i (close_sessions l w)
  unfolding close_sessions lookup close_ref
  close_sessions_closes [] k i w h v = absurd (cc)
  close_sessions_closes ((j, local_session) ∷ l) k i w h v = elim (Bool-cases (bytes_eq j k)) [
    | inl same ↦ absurd (ground (arith, h, same))
    | inr other ↦
        close_sessions_closes l k i (closed_entry j local_session w) (ground (arith, h, other))
          (entry-Exists i j local_session w v)
  ]
  close_sessions_closes ((j, remote_session n) ∷ l) k i w h v = elim (Bool-cases (bytes_eq j k)) [
    | inl same ↦
        let e : n ≡ i = ground (arith, h, same) in
        let (s, a, c) = closing_closes false n w (v.0, ap (λ m. session_at m w) e ∙ v.1) in
        let w1 = closed_entry j (remote_session n) w in
        close_sessions-IsClosedAt l i w1
          (s, ap (λ m. session_at m w1) (sym e) ∙ entry-heap n j (remote_session n) w ∙ a, c)
    | inr other ↦
        close_sessions_closes l k i (closed_entry j (remote_session n) w) (ground (arith, h, other))
          (entry-Exists i j (remote_session n) w v)
  ]

  -- The service when Close comes to its sessions.
  abbrev pub closing : Service I → Service I
  closing w = close_listener (record w { state = state_closed; c_closed = close_chan w.c_closed })

  pub closing_keeps :
      (w : Service I)
      → ((closing w).sessions ≡ w.sessions)
        × ((closing w).session_heap ≡ w.session_heap)
        × ((closing w).state ≡ state_closed)
  unfolding close_listener
  closing_keeps w = ground arith

  pub close_service_started :
      (w : Service I)
      → w.state ≡ state_started
      → close_service w ≡ (close_sessions (closing w).sessions (closing w), none)
  unfolding close_service
  close_service_started w h = ground arith

  -- Closing a started service returns no error; afterwards no node has an entry in the map of
  -- sessions, and every session that was in it is closed.
  pub close_service_closes :
      (w : Service I) (k : Bytes) (i : ℕ)
      → w.state ≡ state_started
      → lookup k w.sessions ≡ some (remote_session i)
      → Exists i w
      → let (w', e) = close_service w in
        (e ≡ none) × ((j : Bytes) → lookup j w'.sessions ≡ none) × IsClosedAt i w'
  close_service_closes w k i st h (s, at) =
      let (same_map, same_heap, _) = closing_keeps w in
      rw (close_service_started w st) (
        refl,
        λ j. elim (Option-cases (lookup j (closing w).sessions)) [
          | inl e ↦ ground (arith, e, close_sessions-SubMap (closing w).sessions (closing w) j)
          | inr (r, e) ↦ close_sessions_gone (closing w).sessions (closing w) j r e (inr e)
        ],
        close_sessions_closes (closing w).sessions k i (closing w) (ap (lookup k) same_map ∙ h)
            (s, session_at-heap i (closing w) w same_heap ∙ at),
      )
