-- ===== src/Net/Establish/Interleaved.antt =====
-- What the establishing goroutines keep in every interleaving.
use gcluster.Common.{ℕ, refl, Bool, true, false, Option, none, some, if◌then◌else◌, ◌&&◌}
use gcluster.Common.Int.{ℤ}
use gcluster.Common.Bytes.{Bytes, bytes_eq}
use gcluster.Net.Error.{Err}
use gcluster.Net.Establishment.Laws.{
  starts_active, starts_active_handshake, active_about_succeeds as about, apply as apply_op,
}
use gcluster.Net.Establishment.{start_active, start_active_handshake, active_about_success}
use gcluster.Net.Message.{Message, apply, accepted, rejected, completed, completed_ack}
use gcluster.Net.PacketQueue.{PacketQueue}
use gcluster.Net.Prog.{action, time_now, answers, dial_addr, write_message, read_message, wait_for}
use gcluster.Net.Prog.Keeps.{Keeps, bind-Keeps, then-Keeps, action-Keeps, effect-Keeps}
use gcluster.Net.Ref.{Conn, SessionRef}
use gcluster.Net.Service.{Service, get_session}
use gcluster.Net.Establish.{load_establishment, close_conn}
use gcluster.Net.Establish.Heap.{get_session-Apart, close_conn-Apart}
use gcluster.Net.Establish.Invariant.{
  IsStable, on_establishment-stable, end_establishment-stable, load_or_store-stable,
  active_establish_success-stable, active_establish_fail-stable,
}
use gcluster.Net.Establish.Programs.{
  Go, reads, closes, own_token, own_node_id, get_or_create_establishment, wait, active_fails,
  active_succeeds, active_about_succeeds, active_answered, active_handshake, active_connect,
  start_active_establish, connected, connect, is_completed_ack,
}

module _ {I : PacketQueue} (P : Service I → Type 0) (st : IsStable P) where
  pub reads-Keeps : {A : Type 0} (f : Service I → A) → Keeps P (reads f)
  unfolding reads
  reads-Keeps f = action-Keeps P _ (λ w p. p)

  pub own_token-Keeps : Keeps P own_token
  unfolding own_token
  own_token-Keeps = reads-Keeps _

  pub own_node_id-Keeps : Keeps P own_node_id
  unfolding own_node_id
  own_node_id-Keeps = reads-Keeps _

  pub closes-Keeps : (c : Option Conn) → Keeps P (closes c)
  unfolding closes
  closes-Keeps c = effect-Keeps P (close_conn c) (λ w p. st.apart w _ (close_conn-Apart c w) p)

  pub if-Keeps :
      {A : Type 0} (b : Bool) (m n : Go I A) → Keeps P m → Keeps P n → Keeps P (if b then m else n)
  if-Keeps true m n h k = h
  if-Keeps false m n h k = k

  pub get_session-Keeps : (now : ℤ) (k : Bytes) → Keeps P (action (get_session now k))
  get_session-Keeps now k =
      action-Keeps P (get_session now k) (λ w p. st.apart w _ (get_session-Apart now k w) p)

  pub answers-Keeps : Keeps P answers
  unfolding answers
  answers-Keeps = λ a. tt

  pub time_now-Keeps : Keeps P time_now
  unfolding time_now
  time_now-Keeps = λ t. tt

  pub write-Keeps : (c : Conn) (m : Message) → Keeps P (write_message c m)
  unfolding write_message
  write-Keeps c m = λ b. tt

  pub read-Keeps : (c : Conn) → Keeps P (read_message c)
  unfolding read_message
  read-Keeps c = λ m. tt

  dial-Keeps : (addr : Bytes) → Keeps P (dial_addr addr)
  unfolding dial_addr
  dial-Keeps addr = λ c. tt

  pub wait-Keeps : (id : ℕ) → Keeps P (wait id)
  unfolding wait
  wait-Keeps id = then-Keeps P _ _ (unfold wait_for in tt) (reads-Keeps _)

  load-Keeps : (k : Bytes) → Keeps P (action (load_establishment k))
  unfolding load_establishment
  load-Keeps k = action-Keeps P _ (λ w p. p)

  pub get_or_create-Keeps : (k : Bytes) → Keeps P (get_or_create_establishment k)
  unfolding get_or_create_establishment
  get_or_create-Keeps k =
      bind-Keeps P _ _ (load-Keeps k)
        (elim [ none ↦ action-Keeps P _ (λ w p. load_or_store-stable P st k w p) | some id ↦ tt ])

  active_fails-Keeps :
      (id : ℕ) (k : Bytes) (c : Option Conn) (e : Err) → Keeps P (active_fails id k c e)
  unfolding active_fails
  active_fails-Keeps id k c e = then-Keeps P _ _ (closes-Keeps c) (
      bind-Keeps P _ _ answers-Keeps
        (λ a. effect-Keeps P _ (λ w p. active_establish_fail-stable P st a id k e w p)))

  active_succeeds-Keeps : (id : ℕ) (k : Bytes) (c : Conn) → Keeps P (active_succeeds id k c)
  unfolding active_succeeds
  active_succeeds-Keeps id k c =
      bind-Keeps P _ _ answers-Keeps
        (λ a. effect-Keeps P _ (λ w p. active_establish_success-stable P st a id k c w p))

  active_about_succeeds-Keeps :
      (id : ℕ) (k : Bytes) (c : Conn) → Keeps P (active_about_succeeds id k c)
  unfolding active_about_succeeds
  active_about_succeeds-Keeps id k c =
      bind-Keeps P _ _
        (action-Keeps P _ (λ w p.
          on_establishment-stable P st active_about_success about id w
            (λ es. unfold apply_op in refl) p))
        λ _. bind-Keeps P _ _ (write-Keeps c completed) λ b.
          if-Keeps b _ _
            (bind-Keeps P _ _ (read-Keeps c) (λ m.
              if-Keeps (is_completed_ack m) _ _ (active_succeeds-Keeps id k c)
                (active_fails-Keeps id k (some c) _)))
            (active_fails-Keeps id k (some c) _)

  active_answered-Keeps :
      (id : ℕ) (k : Bytes) (c : Conn) (m : Option Message) → Keeps P (active_answered id k c m)
  unfolding active_answered
  active_answered-Keeps id k c none = active_fails-Keeps id k (some c) _
  active_answered-Keeps id k c (some (accepted n t)) = bind-Keeps P _ _ own_token-Keeps λ own.
      if-Keeps (bytes_eq n k && bytes_eq t own) _ _ (active_about_succeeds-Keeps id k c)
        (bind-Keeps P _ _ (write-Keeps c _) (λ _. active_fails-Keeps id k (some c) _))
  active_answered-Keeps id k c (some (rejected r)) = active_fails-Keeps id k (some c) _
  active_answered-Keeps id k c (some (apply _ _ _)) = active_fails-Keeps id k (some c) _
  active_answered-Keeps id k c (some completed) = active_fails-Keeps id k (some c) _
  active_answered-Keeps id k c (some completed_ack) = active_fails-Keeps id k (some c) _

  active_handshake-Keeps : (id : ℕ) (k : Bytes) (c : Conn) → Keeps P (active_handshake id k c)
  unfolding active_handshake
  active_handshake-Keeps id k c =
      bind-Keeps P _ _
        (action-Keeps P _ (λ w p.
          on_establishment-stable P st start_active_handshake starts_active_handshake id w
            (λ es. unfold apply_op in refl) p))
        λ b.
          if-Keeps b _ _
            (bind-Keeps P _ _ own_node_id-Keeps (λ me. bind-Keeps P _ _ own_token-Keeps (λ token.
              bind-Keeps P _ _ (reads-Keeps _) (λ t. bind-Keeps P _ _ (write-Keeps c _) (λ written.
                if-Keeps written _ _
                  (bind-Keeps P _ _ (read-Keeps c) (active_answered-Keeps id k c))
                  (active_fails-Keeps id k (some c) _))))))
            tt

  active_connect-Keeps : (id : ℕ) (k addr : Bytes) → Keeps P (active_connect id k addr)
  unfolding active_connect
  active_connect-Keeps id k addr =
      bind-Keeps P _ _ (dial-Keeps addr)
        (elim [ none ↦ active_fails-Keeps id k none _ | some c ↦ active_handshake-Keeps id k c ])

  start_active_establish-Keeps :
      (id : ℕ) (k addr : Bytes) → Keeps P (start_active_establish id k addr)
  unfolding start_active_establish
  start_active_establish-Keeps id k addr = bind-Keeps P _ _ time_now-Keeps λ t.
      bind-Keeps P _ _
        (action-Keeps P _ (λ w p.
          on_establishment-stable P st (start_active t) (starts_active t) id w
            (λ es. unfold apply_op in refl) p))
        λ b.
          if-Keeps b _ _
            (bind-Keeps P _ _ time_now-Keeps (λ now.
              bind-Keeps P _ _ (get_session-Keeps now k) (elim [
                | some r ↦
                    then-Keeps P _ _
                      (effect-Keeps P _ (λ w p. end_establishment-stable P st (some r) none id w p))
                      tt
                | none ↦ then-Keeps P _ _ (active_connect-Keeps id k addr) tt
              ])))
            tt

  connected-Keeps : (k : Bytes) (r : Option SessionRef × Option Err) → Keeps P (connected k r)
  unfolding connected
  connected-Keeps k (s, none) = tt
  connected-Keeps k (s, some e) =
      bind-Keeps P _ _ time_now-Keeps
        λ now. bind-Keeps P _ _ (get_session-Keeps now k) (elim [ some r ↦ tt | none ↦ tt ])

  -- Connect keeps every stable property, whatever runs beside it.
  pub connect-Keeps : (k addr : Bytes) → Keeps P (connect k addr)
  unfolding connect
  connect-Keeps k addr = bind-Keeps P _ _ time_now-Keeps λ now.
      bind-Keeps P _ _ (get_session-Keeps now k) (elim [
        | some r ↦ tt
        | none ↦ bind-Keeps P _ _ (reads-Keeps _) (elim [
          | some e ↦ tt
          | none ↦ bind-Keeps P _ _ (get_or_create-Keeps k) (λ id.
              bind-Keeps P _ _ (start_active_establish-Keeps id k addr)
                (λ _. bind-Keeps P _ _ (wait-Keeps id) (connected-Keeps k)))
        ])
      ])
