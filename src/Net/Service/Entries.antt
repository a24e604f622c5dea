-- ===== src/Net/Service/Entries.antt =====
-- net/net.go, sessionMap.close: closing sessions only takes entries out of the map, and closing all of
-- them takes out each entry that it is given.
use gcluster.Common.{
  ℕ, ◌≡◌, refl, ◌⊎◌, inl, inr, Bool, false, none, some, List, [], ◌∷◌, arith, Option-cases,
  Bool-cases,
}
use gcluster.Common.Bytes.{Bytes, bytes_eq, bytes_eq_iff, bytes_eq_self}
use gcluster.Common.Assoc.{lookup}
use gcluster.Net.Const.{state_closed}
use gcluster.Net.PacketQueue.{PacketQueue}
use gcluster.Net.Ref.{SessionRef, local_session, remote_session}
use gcluster.Net.Session.{same_state}
use gcluster.Net.Service.{Service, session_at, compare_and_delete}
use gcluster.Net.Service.Lifecycle.{close_base_locked, close_ref, close_sessions}
use gcluster.Net.Service.Heap.{
  SubMap, SubMap-trans, same_ref_self, lookup-compare_and_delete, compare_and_delete-SubMap,
}
use gcluster.Net.Service.Closing.{
  close_session_opened, close_base_locked_closed, close_session_dangling, close_open-SubMap,
}

module _ {I : PacketQueue} where
  pub close_base_locked-SubMap :
      (locked : Bool) (i : ℕ) (w : Service I) → SubMap w (close_base_locked locked i w)
  close_base_locked-SubMap locked i w j = elim (Option-cases (session_at i w)) [
    | inl e ↦ rw (close_session_dangling locked i w e) (inr refl)
    | inr (s, e) ↦ elim (Bool-cases (same_state state_closed s.state)) [
      | inl c ↦ rw (close_base_locked_closed locked i s w e (ground arith)) (inr refl)
      | inr o ↦
          rw (close_session_opened locked i s w e (ground arith)) (close_open-SubMap locked i s w j)
    ]
  ]

  close_ref-SubMap : (r : SessionRef) (w : Service I) → SubMap w (close_ref r w)
  unfolding close_ref
  close_ref-SubMap local_session w j = inr refl
  close_ref-SubMap (remote_session i) w j = close_base_locked-SubMap false i w j

  -- One round of sessionMap.close.
  abbrev pub closed_entry : Bytes → SessionRef → Service I → Service I
  closed_entry k r w = compare_and_delete k r (close_ref r w)

  closed_entry-SubMap : (k : Bytes) (r : SessionRef) (w : Service I) → SubMap w (closed_entry k r w)
  closed_entry-SubMap k r w =
      SubMap-trans w (close_ref r w) (closed_entry k r w) (close_ref-SubMap r w)
        (compare_and_delete-SubMap k r (close_ref r w))

  pub close_sessions-SubMap :
      (l : List (Bytes × SessionRef)) (w : Service I) → SubMap w (close_sessions l w)
  unfolding close_sessions
  close_sessions-SubMap [] w j = inr refl
  close_sessions-SubMap ((k, r) ∷ l) w j =
      SubMap-trans w (closed_entry k r w) (close_sessions l (closed_entry k r w))
        (closed_entry-SubMap k r w) (close_sessions-SubMap l (closed_entry k r w)) j

  -- An entry that is gone or holds `r`.
  abbrev pub AtMost : Bytes → SessionRef → Service I → Type 0
  AtMost k r w = (lookup k w.sessions ≡ none) ⊎ (lookup k w.sessions ≡ some r)

  closed_entry_gone :
      (k : Bytes) (r : SessionRef) (w : Service I)
      → AtMost k r w
      → lookup k (closed_entry k r w).sessions ≡ none
  closed_entry_gone k r w h = ground (
    arith,
    close_ref-SubMap r w k,
    lookup-compare_and_delete k k r (close_ref r w),
    bytes_eq_self k,
    same_ref_self r,
  )

  pub close_sessions_gone :
      (l : List (Bytes × SessionRef)) (w : Service I) (k : Bytes) (r : SessionRef)
      → lookup k l ≡ some r
      → AtMost k r w
      → lookup k (close_sessions l w).sessions ≡ none
  unfolding close_sessions lookup
  close_sessions_gone [] w k r h m = absurd (cc)
  close_sessions_gone ((j, v) ∷ l) w k r h m =
      let w1 = closed_entry j v w in
      elim (Bool-cases (bytes_eq j k)) [
        | inl same ↦
            let e : j ≡ k = (bytes_eq_iff j k).0 same in
            let v' : v ≡ r = ground (arith, h, same) in
            let gone : lookup k w1.sessions ≡ none =
              ground (arith, e, v', closed_entry_gone k r w m) in
            ground (arith, gone, close_sessions-SubMap l w1 k)
        | inr other ↦
            close_sessions_gone l w1 k r (ground (arith, h, other))
              (ground (arith, m, closed_entry-SubMap j v w k))
      ]
