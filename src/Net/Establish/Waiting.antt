-- ===== src/Net/Establish/Waiting.antt =====
-- net/service_establish.go, any number of establishing goroutines beside each other: what the
-- goroutines that wait on an establishment return.
use mathlib.Core.Path.{subst}
use gcluster.Common.{
  ℕ, zero, suc, ◌≡◌, ◌≢◌, ◌∙◌, sym, ap, refl, Bool, true, Option, some, some-injective, List, [],
  ◌∷◌, ◌++◌, set, get_elem?, get_elem?-set_self, get_elem?-set_ne, lt-length_of_get_elem?,
  Bool-cases, inl, inr, ◌==◌, arith, length, ◌<◌,
}
use gcluster.Common.Bytes.{Bytes}
use gcluster.Common.Chan.{is_closed_chan}
use gcluster.Net.Error.{Err}
use gcluster.Net.Establishment.{Establishment, new_establishment}
use gcluster.Net.Establishment.Laws.{
  IsValid, Ended, apply, apply-IsValid, new_establishment-IsValid,
}
use gcluster.Net.PacketQueue.{PacketQueue}
use gcluster.Net.Prog.{ret, ◌>>=◌, effect}
use gcluster.Net.Prog.Keeps.{Keeps, bind-Keeps, effect-Keeps, Interleaving, Interleaving-Keeps}
use gcluster.Net.Ref.{Conn, SessionRef}
use gcluster.Net.Service.{Service}
use gcluster.Net.Establish.{establishment_at, test_establishment}
use gcluster.Net.Establish.Heap.{Apart}
use gcluster.Net.Establish.Invariant.{IsStable}
use gcluster.Net.Establish.Interleaved.{connect-Keeps}
use gcluster.Net.Establish.Accepting.{on_passive_conn-Keeps}
use gcluster.Net.Establish.Programs.{Go, connect, result_of}
use gcluster.Net.Establish.Passive.{on_passive_conn}

IsValid-set :
    (xs : List Establishment) (i : ℕ) (es : Establishment)
    → i < length xs
    → IsValid es
    → ((j : ℕ) (x : Establishment) → get_elem? xs j ≡ some x → IsValid x)
    → (j : ℕ) (x : Establishment) → get_elem? (set xs i es) j ≡ some x
    → IsValid x
IsValid-set xs i es h v all j x e = elim (Bool-cases (i == j)) [
  | inl b ↦
      let same : i ≡ j = ground arith in
      subst IsValid
        (some-injective _ _
          (sym (get_elem?-set_self xs i es h) ∙ ap (get_elem? (set xs i es)) same ∙ e))
        v
  | inr b ↦ let other : i ≢ j = ground arith in all j x (sym (get_elem?-set_ne xs i j es other) ∙ e)
]

IsValid-append :
    (xs : List Establishment) (es : Establishment)
    → IsValid es
    → ((j : ℕ) (x : Establishment) → get_elem? xs j ≡ some x → IsValid x)
    → (j : ℕ) (x : Establishment) → get_elem? (xs ++ es ∷ []) j ≡ some x
    → IsValid x
IsValid-append [] es v all zero x e = subst IsValid (some-injective _ _ e) v
IsValid-append [] es v all (suc j) x e = all j x e
IsValid-append (y ∷ xs) es v all zero x e = all zero x e
IsValid-append (y ∷ xs) es v all (suc j) x e =
    IsValid-append xs es v (λ i z h. all (suc i) z h) j x e

module _ {I : PacketQueue} where
  -- The goroutines of a service: callers of Connect, accepted connections, and steps of the rest of
  -- the service, which leave the heap of establishments alone.
  pub data Goroutine (p : Go I (Unit {0})) : Type 0 where
    connects : (k addr : Bytes) → p ≡ (connect k addr >>= λ _. ret tt) → Goroutine p
    accepts : (c : Conn) → p ≡ on_passive_conn c → Goroutine p
    others :
        (f : Service I → Service I) → ((w : Service I) → Apart w (f w)) → p ≡ effect f → Goroutine p

  Goroutine-Keeps :
      (P : Service I → Type 0) → IsStable P → (p : Go I (Unit {0})) → Goroutine p → Keeps P p
  Goroutine-Keeps P st p (connects k addr e) =
      subst (Keeps P) (sym e) (bind-Keeps P _ _ (connect-Keeps P st k addr) (λ _. tt))
  Goroutine-Keeps P st p (accepts c e) = subst (Keeps P) (sym e) (on_passive_conn-Keeps P st c)
  Goroutine-Keeps P st p (others f h e) =
      subst (Keeps P) (sym e) (effect-Keeps P f (λ w x. st.apart w (f w) (h w) x))

  -- What a valid heap of establishments is.
  abbrev pub AllValid : Service I → Type 0
  AllValid w =
      (id : ℕ) (es : Establishment) → get_elem? w.establishment_heap id ≡ some es → IsValid es

  AllValid-IsStable : IsStable AllValid
  unfolding establishment_at
  AllValid-IsStable = record {
    apart = λ w u same all id es e. all id es (ap (λ xs. get_elem? xs id) (sym same) ∙ e);
    method = λ w id es op e all.
        IsValid-set w.establishment_heap id (apply op es)
          (lt-length_of_get_elem? w.establishment_heap id es e) (apply-IsValid op es (all id es e))
          all;
    allocation = λ w k all.
        IsValid-append w.establishment_heap (new_establishment k) (new_establishment-IsValid k) all;
  }

  -- After any interleaving of callers of Connect, accepted connections and steps of the rest of the
  -- service, every establishment of a service that began with none is valid.
  pub interleaved-AllValid :
      {w u : Service I} {qs : List (Go I (Unit {0}))}
      → w.establishment_heap ≡ []
      → Interleaving Goroutine [] w qs u
      → AllValid u
  interleaved-AllValid e run =
      (Interleaving-Keeps Goroutine AllValid (Goroutine-Keeps AllValid AllValid-IsStable) run tt).1
        (λ id es h. absurd (cc))

  -- The establishment behind a pointer has ended with these results.
  abbrev pub EndedAt : ℕ → Option SessionRef → Option Err → Service I → Type 0
  EndedAt id s e w =
      (es : Establishment) × (get_elem? w.establishment_heap id ≡ some es) × Ended s e es

  -- Whether a goroutine that waits on the establishment goes on.
  abbrev pub may_read : ℕ → Service I → Bool
  may_read id w = test_establishment (λ es. is_closed_chan es.ch_end) id w

  may_read-some :
      (id : ℕ) (w : Service I) (es : Establishment)
      → get_elem? w.establishment_heap id ≡ some es
      → may_read id w ≡ is_closed_chan es.ch_end
  unfolding test_establishment establishment_at
  may_read-some id w es e = rw (e, test_establishment, establishment_at) refl

  result_of-some :
      (id : ℕ) (w : Service I) (es : Establishment)
      → get_elem? w.establishment_heap id ≡ some es
      → result_of id w ≡ (es.session, es.err)
  unfolding result_of establishment_at
  result_of-some id w es e = rw (e, result_of, establishment_at) refl

  pub EndedAt-may_read :
      (id : ℕ) (s : Option SessionRef) (e : Option Err) (u : Service I)
      → EndedAt id s e u
      → (may_read id u ≡ true) × (result_of id u ≡ (s, e))
  EndedAt-may_read id s e u (es, h, (_, hs, he, hc)) =
      (may_read-some id u es h ∙ ap is_closed_chan hc, result_of-some id u es h ∙ rw (hs, he) refl)
