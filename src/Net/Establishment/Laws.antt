-- ===== src/Net/Establishment/Laws.antt =====
-- The invariant of an establishment, over every sequence of its methods.
use gcluster.Common.{◌<◌, ◌⊎◌, ◌≢◌, ℕ, ◌≤◌, ◌≡◌, Option, none, some, List, [], ◌∷◌, arith}
use gcluster.Common.Int.{ℤ}
use gcluster.Common.Bytes.{Bytes}
use gcluster.Common.Chan.{opened, closed}
use gcluster.Net.Error.{Err}
use gcluster.Net.Ref.{Conn, SessionRef}
use gcluster.Net.Establishment.Attempt.{Establishing, establish_success, establish_fail}
use gcluster.Net.Establishment.{
  Establishment, establishment_started, establishment_end, new_establishment, end, start_active,
  start_active_handshake, active_about_success, active_success, active_fail, start_passive,
  passive_success, passive_fail,
}

-- An attempt is under way, or has succeeded with a connection, or has failed with an error.
abbrev pub IsAttempt : Establishing → Type 0
IsAttempt a =
    (a.state < establish_success)
    ⊎ ((a.state ≡ establish_success) × (a.conn ≢ none))
    ⊎ ((a.state ≡ establish_fail) × (a.err ≢ none))

abbrev pub Attempts : Option Establishing → Type 0
Attempts none = Unit {0}
Attempts (some a) = IsAttempt a

-- Before an establishment ends its channel is open and it has no result; once it has ended its
-- channel is closed, and was closed once.
pub record IsValid (es : Establishment) : Type 0 where
  pub phase :
      ((es.state ≤ establishment_started)
        × (es.ch_end ≡ opened)
        × (es.session ≡ none)
        × (es.err ≡ none))
      ⊎ ((es.state ≡ establishment_end) × (es.ch_end ≡ closed))
  pub active_attempt : Attempts es.active
  pub passive_attempt : Attempts es.passive

-- The methods that mutate an establishment.
pub data Op : Type 0 where
  ends : Option SessionRef → Option Err → Op
  starts_active starts_passive : ℤ → Op
  starts_active_handshake active_about_succeeds : Op
  active_succeeds passive_succeeds : Conn → Op
  active_fails passive_fails : Err → Op

unfoldable pub apply : Op → Establishment → Establishment
apply (ends s e) es = end s e es
apply (starts_active t) es = (start_active t es).0
apply (starts_passive t) es = (start_passive t es).0
apply starts_active_handshake es = (start_active_handshake es).0
apply active_about_succeeds es = (active_about_success es).0
apply (active_succeeds c) es = (active_success c es).0
apply (passive_succeeds c) es = (passive_success c es).0
apply (active_fails e) es = (active_fail e es).0
apply (passive_fails e) es = (passive_fail e es).0

unfoldable pub apply_all : List Op → Establishment → Establishment
apply_all [] es = es
apply_all (op ∷ ops) es = apply_all ops (apply op es)

pub end-IsValid :
    (s : Option SessionRef) (e : Option Err) (es : Establishment)
    → IsValid es
    → IsValid (end s e es)
unfolding end
end-IsValid s e es v = ground arith

pub start_active-IsValid : (t : ℤ) (es : Establishment) → IsValid es → IsValid (start_active t es).0
unfolding start_active
start_active-IsValid t es v = ground arith

pub start_passive-IsValid :
    (t : ℤ) (es : Establishment) → IsValid es → IsValid (start_passive t es).0
unfolding start_passive
start_passive-IsValid t es v = ground arith

pub start_active_handshake-IsValid :
    (es : Establishment) → IsValid es → IsValid (start_active_handshake es).0
unfolding start_active_handshake
start_active_handshake-IsValid es v = ground arith

pub active_about_success-IsValid :
    (es : Establishment) → IsValid es → IsValid (active_about_success es).0
unfolding active_about_success
active_about_success-IsValid es v = ground arith

pub active_success-IsValid :
    (c : Conn) (es : Establishment) → IsValid es → IsValid (active_success c es).0
unfolding active_success
active_success-IsValid c es v = ground arith

pub passive_success-IsValid :
    (c : Conn) (es : Establishment) → IsValid es → IsValid (passive_success c es).0
unfolding passive_success
passive_success-IsValid c es v = ground arith

pub active_fail-IsValid : (e : Err) (es : Establishment) → IsValid es → IsValid (active_fail e es).0
unfolding active_fail
active_fail-IsValid e es v = ground arith

pub passive_fail-IsValid :
    (e : Err) (es : Establishment) → IsValid es → IsValid (passive_fail e es).0
unfolding passive_fail
passive_fail-IsValid e es v = ground arith

pub new_establishment-IsValid : (n : Bytes) → IsValid (new_establishment n)
unfolding new_establishment
new_establishment-IsValid n = ground arith

pub apply-IsValid : (op : Op) (es : Establishment) → IsValid es → IsValid (apply op es)
unfolding apply
apply-IsValid (ends s e) es v = end-IsValid s e es v
apply-IsValid (starts_active t) es v = start_active-IsValid t es v
apply-IsValid (starts_passive t) es v = start_passive-IsValid t es v
apply-IsValid starts_active_handshake es v = start_active_handshake-IsValid es v
apply-IsValid active_about_succeeds es v = active_about_success-IsValid es v
apply-IsValid (active_succeeds c) es v = active_success-IsValid c es v
apply-IsValid (passive_succeeds c) es v = passive_success-IsValid c es v
apply-IsValid (active_fails e) es v = active_fail-IsValid e es v
apply-IsValid (passive_fails e) es v = passive_fail-IsValid e es v

apply_all-IsValid : (ops : List Op) (es : Establishment) → IsValid es → IsValid (apply_all ops es)
unfolding apply_all
apply_all-IsValid [] es v = v
apply_all-IsValid (op ∷ ops) es v = apply_all-IsValid ops (apply op es) (apply-IsValid op es v)

-- Every sequence of methods on a new establishment keeps it valid: the channel is closed exactly
-- when the establishment has ended and never twice, there is no result before that, a successful
-- attempt has its connection and a failed one its error.
pub reachable-IsValid : (n : Bytes) (ops : List Op) → IsValid (apply_all ops (new_establishment n))
reachable-IsValid n ops = apply_all-IsValid ops (new_establishment n) (new_establishment-IsValid n)

-- What `wait` reads, and that it may read it.
abbrev pub Ended : Option SessionRef → Option Err → Establishment → Type 0
Ended s e es =
    (es.state ≡ establishment_end) × (es.session ≡ s) × (es.err ≡ e) × (es.ch_end ≡ closed)

pub apply-Ended :
    (op : Op) (s : Option SessionRef) (e : Option Err) (es : Establishment)
    → Ended s e es
    → Ended s e (apply op es)
unfolding apply end start_active start_passive start_active_handshake active_about_success
    active_success passive_success active_fail passive_fail
apply-Ended (ends s' e') s e es h = ground arith
apply-Ended (starts_active t) s e es h = ground arith
apply-Ended (starts_passive t) s e es h = ground arith
apply-Ended starts_active_handshake s e es h = ground arith
apply-Ended active_about_succeeds s e es h = ground arith
apply-Ended (active_succeeds c) s e es h = ground arith
apply-Ended (passive_succeeds c) s e es h = ground arith
apply-Ended (active_fails e') s e es h = ground arith
apply-Ended (passive_fails e') s e es h = ground arith

apply_all-Ended :
    (ops : List Op) (s : Option SessionRef) (e : Option Err) (es : Establishment)
    → Ended s e es
    → Ended s e (apply_all ops es)
unfolding apply_all
apply_all-Ended [] s e es h = h
apply_all-Ended (op ∷ ops) s e es h =
    apply_all-Ended ops s e (apply op es) (apply-Ended op s e es h)

end-Ended :
    (s : Option SessionRef) (e : Option Err) (es : Establishment)
    → IsValid es
    → es.state ≤ establishment_started
    → Ended s e (end s e es)
unfolding end
end-Ended s e es v h = ground arith

-- The first `end` of a valid establishment that has not ended decides what every `wait` returns:
-- no method called later, a second `end` included, changes the session, the error or the state, or
-- closes the channel again.
pub first_end_wins :
    (s : Option SessionRef) (e : Option Err) (es : Establishment) (ops : List Op)
    → IsValid es
    → es.state ≤ establishment_started
    → Ended s e (apply_all ops (end s e es))
first_end_wins s e es ops v h = apply_all-Ended ops s e (end s e es) (end-Ended s e es v h)

-- The furthest that an attempt has come; methods never take it back.
abbrev pub progress : Option Establishing → ℕ
progress none = 0
progress (some a) = a.state

-- No method takes an establishment or one of its attempts back to an earlier state.
pub apply_monotone :
    (op : Op) (es : Establishment)
    → (es.state ≤ (apply op es).state)
      × (progress es.active ≤ progress (apply op es).active)
      × (progress es.passive ≤ progress (apply op es).passive)
unfolding apply end start_active start_passive start_active_handshake active_about_success
    active_success passive_success active_fail passive_fail
apply_monotone (ends s' e') es = ground arith
apply_monotone (starts_active t) es = ground arith
apply_monotone (starts_passive t) es = ground arith
apply_monotone starts_active_handshake es = ground arith
apply_monotone active_about_succeeds es = ground arith
apply_monotone (active_succeeds c) es = ground arith
apply_monotone (passive_succeeds c) es = ground arith
apply_monotone (active_fails e') es = ground arith
apply_monotone (passive_fails e') es = ground arith
