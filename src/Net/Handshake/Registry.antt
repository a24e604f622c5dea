-- ===== src/Net/Handshake/Registry.antt =====
-- The two maps of handshakeHelper, and what the init of the package registers in them.
use mathlib.Core.Path.{subst}
use gcluster.Common.{
  ok-injective, ◌≡◌, ◌↔◌, refl, true, none, some, [], ◌∷◌, ok, arith, Option-cases, inl, inr,
}
use gcluster.Common.Int.{eqb_ℤ, eqb_ℤ_iff}
use gcluster.Net.Message.{Message}
use gcluster.Net.ProtoType.{
  ProtoType, IsInt8, hs_apply, hs_accepted, hs_completed, hs_completed_ack, hs_rejected,
}
use gcluster.Net.Handshake.{
  HandshakeHelper, Kind, apply_kind, accepted_kind, completed_kind, rejected_kind,
  completed_ack_kind, same_kind, find_kind, find_proto, reg_proto_pb, init_helper, kind_of,
  get_proto_type, create_pb,
}

-- A protocol type stands for a type of messages exactly when the latter is sent under the former.
pub record IsInverse (h : HandshakeHelper) : Type 0 where
  pub inverse :
      (pt : ProtoType) (k : Kind)
      → find_kind pt h.proto_pb_type ≡ some k ↔ find_proto k h.pb_proto_type ≡ some pt

same_kind_iff : (j k : Kind) → same_kind j k ≡ true ↔ j ≡ k
same_kind_iff j k = ground arith

entered :
    (pt : ProtoType) (k : Kind) (h : HandshakeHelper)
    → IsInverse h
    → find_kind pt h.proto_pb_type ≡ none
    → find_proto k h.pb_proto_type ≡ none
    → IsInverse (record {
      proto_pb_type = (pt, k) ∷ h.proto_pb_type;
      pb_proto_type = (k, pt) ∷ h.pb_proto_type;
    })
unfolding find_kind find_proto
entered pt k h v e f = record {
  inverse = λ pt' k'. ground (arith, eqb_ℤ_iff pt pt', same_kind_iff k k', v.inverse pt' k', e, f);
}

reg_ok :
    (pt : ProtoType) (k : Kind) (h : HandshakeHelper)
    → find_kind pt h.proto_pb_type ≡ none
    → find_proto k h.pb_proto_type ≡ none
    → reg_proto_pb pt k h
      ≡ ok (record {
        proto_pb_type = (pt, k) ∷ h.proto_pb_type;
        pb_proto_type = (k, pt) ∷ h.pb_proto_type;
      })
unfolding reg_proto_pb
reg_ok pt k h e f = rw (e, reg_proto_pb, f) refl

-- Registering a pair that is refused by neither map keeps the two maps inverse to each other.
pub reg_proto_pb-IsInverse :
    (pt : ProtoType) (k : Kind) (h h' : HandshakeHelper)
    → IsInverse h
    → reg_proto_pb pt k h ≡ ok h'
    → IsInverse h'
unfolding reg_proto_pb
reg_proto_pb-IsInverse pt k h h' v e = elim (Option-cases (find_kind pt h.proto_pb_type)) [
  | inr (x, a) ↦ absurd (ground (arith, e, a))
  | inl a ↦ elim (Option-cases (find_proto k h.pb_proto_type)) [
    | inr (x, b) ↦ absurd (ground (arith, e, a, b))
    | inl b ↦ subst IsInverse (ok-injective (rw (reg_ok pt k h a b) at e)) (entered pt k h v a b)
  ]
]

pub empty-IsInverse : IsInverse (record { proto_pb_type = []; pb_proto_type = [] })
unfolding find_kind find_proto
empty-IsInverse = record { inverse = λ pt k. ground arith }

-- What init makes of the two maps, the latest entry first.
abbrev pub handshake_helper : HandshakeHelper
handshake_helper = record {
  proto_pb_type =
      (hs_completed_ack, completed_ack_kind)
      ∷ (hs_rejected, rejected_kind)
      ∷ (hs_completed, completed_kind)
      ∷ (hs_accepted, accepted_kind)
      ∷ (hs_apply, apply_kind)
      ∷ [];
  pb_proto_type =
      (completed_ack_kind, hs_completed_ack)
      ∷ (rejected_kind, hs_rejected)
      ∷ (completed_kind, hs_completed)
      ∷ (accepted_kind, hs_accepted)
      ∷ (apply_kind, hs_apply)
      ∷ [];
}

init_helper_ok : init_helper ≡ ok handshake_helper
unfolding init_helper reg_proto_pb find_kind find_proto eqb_ℤ
init_helper_ok = refl

pub handshake_helper-IsInverse : IsInverse handshake_helper
unfolding find_kind find_proto eqb_ℤ
handshake_helper-IsInverse =
    entered hs_completed_ack completed_ack_kind _
      (entered hs_rejected rejected_kind _
        (entered hs_completed completed_kind _
          (entered hs_accepted accepted_kind _
            (entered hs_apply apply_kind _ empty-IsInverse refl refl) refl refl)
          refl refl)
        refl refl)
      refl refl

-- The protocol type of each type of messages, by the constants of net/proto.go.
abbrev pub proto_of : Kind → ProtoType
proto_of apply_kind = hs_apply
proto_of accepted_kind = hs_accepted
proto_of completed_kind = hs_completed
proto_of rejected_kind = hs_rejected
proto_of completed_ack_kind = hs_completed_ack

pub get_proto_type_registered :
    (m : Message) → get_proto_type handshake_helper m ≡ some (proto_of (kind_of m))
unfolding get_proto_type find_proto
get_proto_type_registered m = ground arith

create_pb_registered : (k : Kind) → create_pb handshake_helper (proto_of k) ≡ some k
unfolding create_pb find_kind eqb_ℤ
create_pb_registered k = ground arith

-- The init of the package does not panic. It registers each of the five types of messages under its
-- protocol type, in both directions, and leaves the two maps inverse to each other.
pub init_helper-IsInverse :
    (h : HandshakeHelper) × (init_helper ≡ ok h)
    × ((m : Message) → get_proto_type h m ≡ some (proto_of (kind_of m)))
    × ((k : Kind) → create_pb h (proto_of k) ≡ some k)
    × IsInverse h
init_helper-IsInverse = (
  handshake_helper, init_helper_ok, get_proto_type_registered, create_pb_registered,
  handshake_helper-IsInverse,
)

-- Every type of messages is sent under a protocol type, which is an int8.
pub registered :
    (k : Kind)
    → (pt : ProtoType) × IsInt8 pt × (find_proto k handshake_helper.pb_proto_type ≡ some pt)
unfolding find_proto
registered apply_kind = (hs_apply, (omega arith, omega arith), refl)
registered accepted_kind = (hs_accepted, (omega arith, omega arith), refl)
registered completed_kind = (hs_completed, (omega arith, omega arith), refl)
registered rejected_kind = (hs_rejected, (omega arith, omega arith), refl)
registered completed_ack_kind = (hs_completed_ack, (omega arith, omega arith), refl)
