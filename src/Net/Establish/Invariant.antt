-- ===== src/Net/Establish/Invariant.antt =====
-- The establishing goroutines touch an establishment only through its methods.
use gcluster.Common.{
  ℕ, ◌≡◌, refl, inl, inr, ◌∙◌, Bool, true, false, Option, none, some, [], ◌∷◌, ◌++◌, set,
  if◌then◌else◌, Option-cases, Bool-cases,
}
use gcluster.Common.Bytes.{Bytes}
use gcluster.Common.Assoc.{lookup}
use gcluster.Net.Const.{state_started}
use gcluster.Net.Error.{Err}
use gcluster.Net.Establishment.Outcome.{Decision, decide}
use gcluster.Net.Establishment.{
  Establishment, new_establishment, is_end, end, active_success, active_fail, passive_success,
  passive_fail,
}
use gcluster.Net.Establishment.Laws.{
  Op, ends, active_succeeds, active_fails, passive_succeeds, passive_fails, apply,
}
use gcluster.Net.PacketQueue.{PacketQueue}
use gcluster.Net.Prog.{Answers}
use gcluster.Net.Ref.{Conn, SessionRef, remote_session}
use gcluster.Net.Service.{Service, check_state, add_session}
use gcluster.Net.Service.Lifecycle.{new_session, start_session, close_session}
use gcluster.Net.Establish.{
  establishment_at, on_establishment, end_establishment, close_conn, load_or_store_establishment,
  establish_end_failed, session_lock_err, establish_end_locked, establish_end_create_session,
  establish_end_decided, establish_end, active_establish_success, active_establish_fail,
  passive_establish_success, passive_establish_fail,
}
use gcluster.Net.Establish.Heap.{
  Apart, close_session-Apart, new_session-Apart, start_session-Apart, add_session-Apart,
  forget_establishment-Apart, close_conn-Apart,
}

-- A property of the service that does not depend on more than the heap of establishments, and is
-- kept by every method of every establishment in it and by the allocation of new ones.
pub record IsStable {I : PacketQueue} (P : Service I → Type 0) : Type 0 where
  pub apart : (w u : Service I) → Apart w u → P w → P u
  pub method :
      (w : Service I) (id : ℕ) (es : Establishment) (op : Op)
      → establishment_at id w ≡ some es
      → P w
      → P (record w { establishment_heap = set w.establishment_heap id (apply op es) })
  pub allocation :
      (w : Service I) (k : Bytes)
      → P w
      → P (record w { establishment_heap = w.establishment_heap ++ new_establishment k ∷ [] })

module _ {I : PacketQueue} (P : Service I → Type 0) (st : IsStable P) where
  -- A method given as a function, which is one of the operations.
  pub on_establishment-stable :
      (f : Establishment → Establishment × Bool) (op : Op) (id : ℕ) (w : Service I)
      → ((es : Establishment) → (f es).0 ≡ apply op es)
      → P w
      → P (on_establishment f id w).0
  unfolding on_establishment
  on_establishment-stable f op id w same p = elim (Option-cases (establishment_at id w)) [
    | inl e ↦ rw (e, on_establishment) p
    | inr (es, e) ↦ rw (e, on_establishment, same es) (st.method w id es op e p)
  ]

  pub end_establishment-stable :
      (s : Option SessionRef) (e : Option Err) (id : ℕ) (w : Service I)
      → P w
      → P (end_establishment s e id w)
  unfolding end_establishment
  end_establishment-stable s e id w p =
      on_establishment-stable (λ es. (end s e es, true)) (ends s e) id w
        (λ es. unfold apply in refl) p

  pub load_or_store-stable :
      (k : Bytes) (w : Service I) → P w → P (load_or_store_establishment k w).0
  unfolding load_or_store_establishment
  load_or_store-stable k w p = elim (Option-cases (lookup k w.establishments)) [
    | inr (id, e) ↦ rw (e, load_or_store_establishment) p
    | inl e ↦ rw (e, load_or_store_establishment) (st.apart _ _ refl (st.allocation w k p))
  ]

  establish_end_failed-stable :
      (id : ℕ) (k : Bytes) (e : Err) (w : Service I) → P w → P (establish_end_failed id k e w)
  unfolding establish_end_failed
  establish_end_failed-stable id k e w p =
      st.apart _ _ (forget_establishment-Apart k id (end_establishment none (some e) id w))
        (end_establishment-stable none (some e) id w p)

  establish_end_locked-stable :
      (id : ℕ) (k : Bytes) (i : ℕ) (w : Service I) → P w → P (establish_end_locked id k i w)
  unfolding establish_end_locked
  establish_end_locked-stable id k i w p = elim (Option-cases (session_lock_err i w)) [
    | inr (e, h) ↦ rw (h, establish_end_locked) (establish_end_failed-stable id k e w p)
    | inl h ↦
        rw (h, establish_end_locked)
          (elim (Option-cases (check_state state_started w)) [
            | inr (e, g) ↦ rw g (
                establish_end_failed-stable id k e (close_session i w)
                  (st.apart _ _ (close_session-Apart i w) p))
            | inl g ↦ rw g (
                end_establishment-stable (some (remote_session i)) none id _ (
                  st.apart _ _
                    (forget_establishment-Apart k id (add_session (remote_session i) w)
                      ∙ add_session-Apart (remote_session i) w)
                    p))
          ])
  ]

  dying-stable : (b : Bool) (i : ℕ) (w : Service I) → P w → P (if b then close_session i w else w)
  dying-stable true i w p = st.apart _ _ (close_session-Apart i w) p
  dying-stable false i w p = p

  establish_end_create_session-stable :
      (a : Answers) (id : ℕ) (k : Bytes) (c : Conn) (active : Bool) (w : Service I)
      → P w
      → P (establish_end_create_session a id k c active w)
  unfolding establish_end_create_session
  establish_end_create_session-stable a id k c active w p =
      let w1 = (new_session k active c w).0 in
      let i = (new_session k active c w).1 in
      let w2 = (start_session a.now a.tid a.core_err i w1).0 in
      let p2 : P w2 =
        st.apart w w2
          (start_session-Apart a.now a.tid a.core_err i w1 ∙ new_session-Apart k active c w) p in
      elim (Option-cases (start_session a.now a.tid a.core_err i w1).1) [
        | inr (e, h) ↦
            rw (h, establish_end_create_session)
              (establish_end_failed-stable id k e (close_conn (some c) w2)
                (st.apart w2 _ (close_conn-Apart (some c) w2) p2))
        | inl h ↦
            rw (h, establish_end_create_session)
              (establish_end_locked-stable id k i _ (dying-stable a.died i w2 p2))
      ]

  establish_end_decided-stable :
      (a : Answers) (id : ℕ) (k : Bytes) (d : Decision) (w : Service I)
      → P w
      → P (establish_end_decided a id k d w)
  unfolding establish_end_decided
  establish_end_decided-stable a id k d w p =
      let w1 = close_conn d.closes w in
      let p1 : P w1 = st.apart w w1 (close_conn-Apart d.closes w) p in
      elim (Option-cases d.err) [
        | inr (e, h) ↦ rw h (establish_end_failed-stable id k e w1 p1)
        | inl h ↦ rw h (elim (Option-cases d.conn) [
          | inl g ↦ rw g p1
          | inr (c, g) ↦ rw g (establish_end_create_session-stable a id k c d.active w1 p1)
        ])
      ]

  pub establish_end-stable :
      (a : Answers) (id : ℕ) (k : Bytes) (w : Service I) → P w → P (establish_end a id k w)
  unfolding establish_end
  establish_end-stable a id k w p = elim (Option-cases (establishment_at id w)) [
    | inl h ↦ rw (h, establish_end) p
    | inr (es, h) ↦
        rw (h, establish_end)
          (elim (Bool-cases (is_end es)) [
            | inl g ↦ rw g p
            | inr g ↦ rw g (establish_end_decided-stable a id k (decide w.cfg.node_id es) w p)
          ])
  ]

  -- The common shape of the four ends of an attempt.
  finish-stable :
      (done waits : Bool) (a : Answers) (id : ℕ) (k : Bytes) (w u : Service I)
      → P w
      → P u
      → P (if done then if waits then w else establish_end a id k w else u)
  finish-stable true true a id k w u p q = p
  finish-stable true false a id k w u p q = establish_end-stable a id k w p
  finish-stable false _ a id k w u p q = q

  pub active_establish_success-stable :
      (a : Answers) (id : ℕ) (k : Bytes) (c : Conn) (w : Service I)
      → P w
      → P (active_establish_success a id k c w)
  unfolding active_establish_success
  active_establish_success-stable a id k c w p =
      let r = on_establishment (active_success c) id w in
      let p1 : P r.0 =
        on_establishment-stable (active_success c) (active_succeeds c) id w
          (λ es. unfold apply in refl) p in
      finish-stable r.1 _ a id k r.0 (close_conn (some c) r.0) p1
        (st.apart r.0 _ (close_conn-Apart (some c) r.0) p1)

  pub active_establish_fail-stable :
      (a : Answers) (id : ℕ) (k : Bytes) (e : Err) (w : Service I)
      → P w
      → P (active_establish_fail a id k e w)
  unfolding active_establish_fail
  active_establish_fail-stable a id k e w p =
      let r = on_establishment (active_fail e) id w in
      let p1 : P r.0 =
        on_establishment-stable (active_fail e) (active_fails e) id w (λ es. unfold apply in refl)
          p in
      finish-stable r.1 _ a id k r.0 r.0 p1 p1

  pub passive_establish_success-stable :
      (a : Answers) (id : ℕ) (k : Bytes) (c : Conn) (w : Service I)
      → P w
      → P (passive_establish_success a id k c w)
  unfolding passive_establish_success
  passive_establish_success-stable a id k c w p =
      let r = on_establishment (passive_success c) id w in
      let p1 : P r.0 =
        on_establishment-stable (passive_success c) (passive_succeeds c) id w
          (λ es. unfold apply in refl) p in
      finish-stable r.1 _ a id k r.0 r.0 p1 p1

  pub passive_establish_fail-stable :
      (a : Answers) (id : ℕ) (k : Bytes) (e : Err) (w : Service I)
      → P w
      → P (passive_establish_fail a id k e w)
  unfolding passive_establish_fail
  passive_establish_fail-stable a id k e w p =
      let r = on_establishment (passive_fail e) id w in
      let p1 : P r.0 =
        on_establishment-stable (passive_fail e) (passive_fails e) id w (λ es. unfold apply in refl)
          p in
      finish-stable r.1 _ a id k r.0 r.0 p1 p1
