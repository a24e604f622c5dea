-- ===== src/Net/Establish/Accepting.antt =====
-- What the goroutines of accepted connections keep, and every interleaving of the goroutines.
use gcluster.Common.{ℕ, refl, Option, none, some}
use gcluster.Common.Int.{ℤ}
use gcluster.Common.Bytes.{Bytes, bytes_eq}
use gcluster.Net.Error.{Err}
use gcluster.Net.Establishment.{start_passive}
use gcluster.Net.Establishment.Laws.{starts_passive, apply as apply_op}
use gcluster.Net.Message.{Message, apply, accepted, rejected, completed, completed_ack}
use gcluster.Net.PacketQueue.{PacketQueue}
use gcluster.Net.Prog.Keeps.{Keeps, bind-Keeps, then-Keeps, action-Keeps, effect-Keeps}
use gcluster.Net.Ref.{Conn}
use gcluster.Net.Service.{Service, get_session_unlocked}
use gcluster.Net.Establish.Heap.{get_session_unlocked-Apart}
use gcluster.Net.Establish.Invariant.{
  IsStable, on_establishment-stable, end_establishment-stable, passive_establish_success-stable,
  passive_establish_fail-stable,
}
use gcluster.Net.Establish.Interleaved.{
  reads-Keeps, own_token-Keeps, own_node_id-Keeps, closes-Keeps, if-Keeps, get_session-Keeps,
  answers-Keeps, time_now-Keeps, write-Keeps, read-Keeps, wait-Keeps, get_or_create-Keeps,
}
use gcluster.Net.Establish.Passive.{
  passive_fails, passive_succeeds, passive_answered, passive_handshake, start_passive_establish,
  refuse, passive_applied, on_passive_message, on_passive_conn,
}

module _ {I : PacketQueue} (P : Service I → Type 0) (st : IsStable P) where
  passive_fails-Keeps : (id : ℕ) (k : Bytes) (c : Conn) (e : Err) → Keeps P (passive_fails id k c e)
  unfolding passive_fails
  passive_fails-Keeps id k c e = then-Keeps P _ _ (closes-Keeps P st (some c)) (
      bind-Keeps P _ _ (answers-Keeps P st)
        (λ a. effect-Keeps P _ (λ w p. passive_establish_fail-stable P st a id k e w p)))

  passive_succeeds-Keeps : (id : ℕ) (k : Bytes) (c : Conn) → Keeps P (passive_succeeds id k c)
  unfolding passive_succeeds
  passive_succeeds-Keeps id k c =
      bind-Keeps P _ _ (answers-Keeps P st)
        (λ a. effect-Keeps P _ (λ w p. passive_establish_success-stable P st a id k c w p))

  passive_answered-Keeps :
      (id : ℕ) (k : Bytes) (c : Conn) (m : Option Message) → Keeps P (passive_answered id k c m)
  unfolding passive_answered
  passive_answered-Keeps id k c none = passive_fails-Keeps id k c _
  passive_answered-Keeps id k c (some completed) =
      bind-Keeps P _ _ (write-Keeps P st c _)
        λ b. if-Keeps P st b _ _ (passive_succeeds-Keeps id k c) (passive_fails-Keeps id k c _)
  passive_answered-Keeps id k c (some (rejected r)) = passive_fails-Keeps id k c _
  passive_answered-Keeps id k c (some (apply _ _ _)) = passive_fails-Keeps id k c _
  passive_answered-Keeps id k c (some (accepted _ _)) = passive_fails-Keeps id k c _
  passive_answered-Keeps id k c (some completed_ack) = passive_fails-Keeps id k c _

  passive_handshake-Keeps : (id : ℕ) (k : Bytes) (c : Conn) → Keeps P (passive_handshake id k c)
  unfolding passive_handshake
  passive_handshake-Keeps id k c = bind-Keeps P _ _ (own_node_id-Keeps P st) λ me.
      bind-Keeps P _ _ (own_token-Keeps P st) λ token. bind-Keeps P _ _ (write-Keeps P st c _) λ b.
        if-Keeps P st b _ _ (bind-Keeps P _ _ (read-Keeps P st c) (passive_answered-Keeps id k c))
          (passive_fails-Keeps id k c _)

  start_passive_establish-Keeps :
      (id : ℕ) (k : Bytes) (c : Conn) (t : ℤ) → Keeps P (start_passive_establish id k c t)
  unfolding start_passive_establish
  start_passive_establish-Keeps id k c t =
      bind-Keeps P _ _
        (action-Keeps P _ (λ w p.
          on_establishment-stable P st (start_passive t) (starts_passive t) id w
            (λ es. unfold apply_op in refl) p))
        λ b.
          if-Keeps P st b _ _
            (bind-Keeps P _ _ (time_now-Keeps P st) (λ now.
              bind-Keeps P _ _ (get_session-Keeps P st now k) (elim [
                | some r ↦
                    then-Keeps P _ _
                      (effect-Keeps P _ (λ w p. end_establishment-stable P st (some r) none id w p))
                      tt
                | none ↦ then-Keeps P _ _ (passive_handshake-Keeps id k c) tt
              ])))
            tt

  refuse-Keeps : (c : Conn) (m : Message) → Keeps P (refuse c m)
  unfolding refuse
  refuse-Keeps c m = bind-Keeps P _ _ (write-Keeps P st c m) (λ _. closes-Keeps P st (some c))

  passive_applied-Keeps : (c : Conn) (k : Bytes) (t : ℤ) → Keeps P (passive_applied c k t)
  unfolding passive_applied
  passive_applied-Keeps c k t = bind-Keeps P _ _ (reads-Keeps P st _) (elim [
    | some e ↦ closes-Keeps P st (some c)
    | none ↦ bind-Keeps P _ _ (time_now-Keeps P st) (λ now.
        bind-Keeps P _ _
          (action-Keeps P (get_session_unlocked now k)
            (λ w p. st.apart w _ (get_session_unlocked-Apart now k w) p))
          (elim [
            | some r ↦ refuse-Keeps c _
            | none ↦ bind-Keeps P _ _ (get_or_create-Keeps P st k) (λ id.
                bind-Keeps P _ _ (start_passive_establish-Keeps id k c t) (λ b.
                  if-Keeps P st b _ _ (bind-Keeps P _ _ (wait-Keeps P st id) (λ _. tt))
                    (refuse-Keeps c _)))
          ]))
  ])

  on_passive_message-Keeps : (c : Conn) (m : Option Message) → Keeps P (on_passive_message c m)
  unfolding on_passive_message
  on_passive_message-Keeps c none = closes-Keeps P st (some c)
  on_passive_message-Keeps c (some (apply n token t)) =
      bind-Keeps P _ _ (own_token-Keeps P st) λ own.
        if-Keeps P st (bytes_eq token own) _ _ (passive_applied-Keeps c n t) (refuse-Keeps c _)
  on_passive_message-Keeps c (some (accepted _ _)) = closes-Keeps P st (some c)
  on_passive_message-Keeps c (some (rejected _)) = closes-Keeps P st (some c)
  on_passive_message-Keeps c (some completed) = closes-Keeps P st (some c)
  on_passive_message-Keeps c (some completed_ack) = closes-Keeps P st (some c)

  -- A connection that is accepted keeps every stable property, whatever the other end writes.
  pub on_passive_conn-Keeps : (c : Conn) → Keeps P (on_passive_conn c)
  unfolding on_passive_conn
  on_passive_conn-Keeps c = bind-Keeps P _ _ (read-Keeps P st c) (on_passive_message-Keeps c)
