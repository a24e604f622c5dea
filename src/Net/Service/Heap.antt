-- ===== src/Net/Service/Heap.antt =====
-- How the steps of the service's methods act on its heap of sessions, its map and its effects.
use gcluster.Common.{
  ℕ, ◌≡◌, ◌≢◌, refl, ◌⊎◌, inl, inr, true, Option, none, some, arith, get_elem?-set_self,
  get_elem?-set_ne, lt-length_of_get_elem?, if◌then◌else◌, Option-cases,
}
use gcluster.Common.Bytes.{Bytes, bytes_eq, bytes_eq_iff}
use gcluster.Common.Assoc.{lookup, lookup-delete}
use gcluster.Net.PacketQueue.{PacketQueue}
use gcluster.Net.Ref.{Conn, SessionRef, local_session, remote_session}
use gcluster.Net.Session.{Session}
use gcluster.Net.Service.{
  Service, same_ref, session_at, put_session, ref_node_id, stop_session_ticker, on_session_closed,
  compare_and_delete,
}
use gcluster.Net.Service.Lifecycle.{close_core, start_core}

pub same_ref_iff : (r r' : SessionRef) → same_ref r r' ≡ true → r ≡ r'
same_ref_iff local_session local_session h = refl
same_ref_iff local_session (remote_session j) h = absurd (cc)
same_ref_iff (remote_session i) local_session h = absurd (cc)
same_ref_iff (remote_session i) (remote_session j) h = ground arith

pub same_ref_self : (r : SessionRef) → same_ref r r ≡ true
same_ref_self local_session = refl
same_ref_self (remote_session i) = ground arith

module _ {I : PacketQueue} where
  pub session_at-put_session_self :
      (i : ℕ) (s t : Session I) (w : Service I)
      → session_at i w ≡ some t
      → session_at i (put_session i s w) ≡ some s
  unfolding session_at put_session
  session_at-put_session_self i s t w h =
      get_elem?-set_self w.session_heap i s (lt-length_of_get_elem? w.session_heap i t h)

  pub session_at-put_session_ne :
      (i j : ℕ) (s : Session I) (w : Service I)
      → i ≢ j
      → session_at j (put_session i s w) ≡ session_at j w
  unfolding session_at put_session
  session_at-put_session_ne i j s w h = get_elem?-set_ne w.session_heap i j s h

  -- What a step leaves alone when it touches the map and the effects alone.
  abbrev pub SameHeap : Service I → Service I → Type 0
  SameHeap w w' =
      (w'.session_heap ≡ w.session_heap)
      × (w'.cfg ≡ w.cfg)
      × (w'.state ≡ w.state)
      × (w'.c_closed ≡ w.c_closed)
      × (w'.establishments ≡ w.establishments)
      × (w'.establishment_heap ≡ w.establishment_heap)
      × (w'.c_tick_sessions ≡ w.c_tick_sessions)

  pub stop_session_ticker-SameHeap :
      (tid : ℕ) (w : Service I)
      → SameHeap w (stop_session_ticker tid w) × ((stop_session_ticker tid w).sessions ≡ w.sessions)
  unfolding stop_session_ticker
  stop_session_ticker-SameHeap tid w = ground arith

  pub close_core-SameHeap :
      (c : Option Conn) (w : Service I)
      → SameHeap w (close_core c w) × ((close_core c w).sessions ≡ w.sessions)
  unfolding close_core
  close_core-SameHeap none w = ground arith
  close_core-SameHeap (some c) w = ground arith

  pub start_core-SameHeap :
      (c : Option Conn) (w : Service I)
      → SameHeap w (start_core c w) × ((start_core c w).sessions ≡ w.sessions)
  unfolding start_core
  start_core-SameHeap none w = ground arith
  start_core-SameHeap (some c) w = ground arith

  pub compare_and_delete-SameHeap :
      (k : Bytes) (r : SessionRef) (w : Service I)
      → SameHeap w (compare_and_delete k r w) × ((compare_and_delete k r w).effects ≡ w.effects)
  unfolding compare_and_delete
  compare_and_delete-SameHeap k r w = ground arith

  pub on_session_closed-SameHeap :
      (r : SessionRef) (w : Service I)
      → SameHeap w (on_session_closed r w) × ((on_session_closed r w).effects ≡ w.effects)
  unfolding on_session_closed
  on_session_closed-SameHeap r w = ground arith

  -- The entry is deleted exactly if it holds that pointer; every other entry stays.
  pub lookup-compare_and_delete :
      (k j : Bytes) (r : SessionRef) (w : Service I)
      → lookup j (compare_and_delete k r w).sessions ≡ (
          if bytes_eq k j
          then (elim (lookup j w.sessions) [
            | none ↦ none
            | some r' ↦ if same_ref r' r then none else some r'
          ])
          else lookup j w.sessions)
  unfolding compare_and_delete
  lookup-compare_and_delete k j r w = ground (arith, bytes_eq_iff k j, lookup-delete k j w.sessions)

  -- A map of sessions only loses entries.
  abbrev pub SubMap : Service I → Service I → Type 0
  SubMap w w' =
      (j : Bytes) → (lookup j w'.sessions ≡ none) ⊎ (lookup j w'.sessions ≡ lookup j w.sessions)

  pub compare_and_delete-SubMap :
      (k : Bytes) (r : SessionRef) (w : Service I) → SubMap w (compare_and_delete k r w)
  compare_and_delete-SubMap k r w j = ground (arith, lookup-compare_and_delete k j r w)

  pub SubMap-trans : (u v w : Service I) → SubMap u v → SubMap v w → SubMap u w
  SubMap-trans u v w p q j = ground (arith, p j, q j)

  pub on_session_closed-SubMap : (r : SessionRef) (w : Service I) → SubMap w (on_session_closed r w)
  unfolding on_session_closed
  on_session_closed-SubMap r w j = elim (Option-cases (ref_node_id r w)) [
    | inl e ↦ rw (e, on_session_closed) (inr refl)
    | inr (k, e) ↦ rw (e, on_session_closed) (compare_and_delete-SubMap k r w j)
  ]
