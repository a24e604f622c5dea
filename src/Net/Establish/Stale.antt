-- ===== src/Net/Establish/Stale.antt =====
-- net/service_establish.go, Connect beside an establishment that has ended but was never taken out
-- of s.establishments, as startActiveEstablish and startPassiveEstablish leave it when the session
-- already exists.
use gcluster.Common.{
  ℕ, ◌≡◌, ◌∙◌, sym, ap, refl, Bool, true, false, Option, none, some, List, [], ◌∷◌, set, get_elem?,
  if◌then◌else◌, zero, suc, arith, some-injective,
}
use gcluster.Common.Int.{ℤ}
use gcluster.Common.Bytes.{Bytes}
use gcluster.Common.Assoc.{lookup}
use gcluster.Net.Const.{state_started}
use gcluster.Net.Error.{Err}
use gcluster.Net.Establishment.{Establishment, start_active, is_end}
use gcluster.Net.Establishment.Laws.{Ended}
use gcluster.Net.PacketQueue.{PacketQueue}
use gcluster.Net.Prog.{
  Prog, ret, atomic, await, clock, dial, write, read, ask, ◌>>=◌, ◌>>◌, action, time_now, wait_for,
}
use gcluster.Net.Ref.{SessionRef}
use gcluster.Net.Service.{Service, check_state, get_session, get_session_unlocked, get_ref}
use gcluster.Net.Establish.{establishment_at, on_establishment, load_establishment}
use gcluster.Net.Establish.Waiting.{may_read, EndedAt-may_read}
use gcluster.Net.Establish.Programs.{
  reads, get_or_create_establishment, start_active_establish, wait, connected, connect,
}

-- A goroutine that runs alone, at time `t`, as long as it asks nothing of the network; `none` where
-- it asks, or waits for ever.
unfoldable pub run_alone : {W A : Type 0} → ℤ → Prog W A → W → Option (A × W)
run_alone t (ret a) w = some (a, w)
run_alone t (atomic f k) w = run_alone t (k w) (f w)
run_alone t (await p k) w = let rest = run_alone t k w in if p w then rest else none
run_alone t (clock k) w = run_alone t (k t) w
run_alone t (dial addr k) w = none
run_alone t (write c m k) w = none
run_alone t (read c k) w = none
run_alone t (ask k) w = none

pub run_alone-bind :
    {W A B : Type 0} (t : ℤ) (m : Prog W A) (g : A → Prog W B) (w u : W) (a : A)
    → run_alone t m w ≡ some (a, u)
    → run_alone t (m >>= g) w ≡ run_alone t (g a) u
unfolding run_alone ◌>>=◌
run_alone-bind t (ret a) g w u b h = ap (λ r. run_alone t (g r.0) r.1) (some-injective _ _ h)
run_alone-bind t (atomic f k) g w u b h = run_alone-bind t (k w) g (f w) u b h
run_alone-bind t (await p k) g w u b h = go (p w) (λ e. run_alone-bind t k g w u b e) h
  where
    go :
        (c : Bool)
        → (run_alone t k w ≡ some (b, u) → run_alone t (k >>= g) w ≡ run_alone t (g b) u)
        → (if c then run_alone t k w else none) ≡ some (b, u)
        → (if c then run_alone t (k >>= g) w else none) ≡ run_alone t (g b) u
    go true rec e = rec e
    go false rec e = absurd (cc)
run_alone-bind t (clock k) g w u b h = run_alone-bind t (k t) g w u b h
run_alone-bind t (dial addr k) g w u b h = absurd (cc)
run_alone-bind t (write c m k) g w u b h = absurd (cc)
run_alone-bind t (read c k) g w u b h = absurd (cc)
run_alone-bind t (ask k) g w u b h = absurd (cc)

pub run_alone-action :
    {W A : Type 0} (t : ℤ) (f : W → W × A) (w u : W) (a : A)
    → f w ≡ (u, a)
    → run_alone t (action f) w ≡ some (a, u)
unfolding run_alone action
run_alone-action t f w u a e = rw e refl

run_alone-wait_for :
    {W : Type 0} (t : ℤ) (p : W → Bool) (w : W)
    → p w ≡ true
    → run_alone t (wait_for p) w ≡ some (tt, w)
unfolding run_alone wait_for
run_alone-wait_for t p w h = rw h refl

set-get_elem? :
    {A : Type 0} (xs : List A) (i : ℕ) (a : A) → get_elem? xs i ≡ some a → set xs i a ≡ xs
set-get_elem? [] i a e = refl
set-get_elem? (x ∷ xs) zero a e = ap (λ y. y ∷ xs) (sym (some-injective _ _ e))
set-get_elem? (x ∷ xs) (suc i) a e = ap (◌∷◌ x) (set-get_elem? xs i a e)

-- No active attempt starts in an establishment that has ended.
start_active-Ended :
    (t : ℤ) (s : Option SessionRef) (e : Option Err) (es : Establishment)
    → Ended s e es
    → start_active t es ≡ (es, false)
unfolding start_active is_end
start_active-Ended t s e es h = ground arith

module _ {I : PacketQueue} where
  pub get_session_missing :
      (now : ℤ) (k : Bytes) (w : Service I)
      → check_state state_started w ≡ none
      → lookup k w.sessions ≡ none
      → get_session now k w ≡ (w, none)
  unfolding get_session get_session_unlocked get_ref
  get_session_missing now k w hs hl = rw (hs, get_session, hl, get_session_unlocked, get_ref) refl

  on_establishment-Ended :
      (t : ℤ) (id : ℕ) (s : Option SessionRef) (e : Option Err) (es : Establishment) (w : Service I)
      → get_elem? w.establishment_heap id ≡ some es
      → Ended s e es
      → on_establishment (start_active t) id w ≡ (w, false)
  unfolding on_establishment establishment_at
  on_establishment-Ended t id s e es w h x =
      rw
        (
          h,
          on_establishment,
          establishment_at,
          start_active-Ended t s e es x,
          set-get_elem? w.establishment_heap id es h,
        )
        refl

  start_active_establish-Ended :
      (t : ℤ) (k addr : Bytes) (id : ℕ) (s : Option SessionRef) (e : Option Err)
      (es : Establishment) (w : Service I)
      → get_elem? w.establishment_heap id ≡ some es
      → Ended s e es
      → run_alone t (start_active_establish id k addr) w ≡ some (false, w)
  unfolding start_active_establish
  start_active_establish-Ended t k addr id s e es w h x =
      run_alone-bind t time_now _ w w t (unfold run_alone time_now in refl)
      ∙ run_alone-bind t (action (on_establishment (start_active t) id)) _ w w false
          (run_alone-action t _ w w false (on_establishment-Ended t id s e es w h x))
      ∙ (unfold run_alone in refl)

  wait-Ended :
      (t : ℤ) (id : ℕ) (s : Option SessionRef) (e : Option Err) (es : Establishment) (w : Service I)
      → get_elem? w.establishment_heap id ≡ some es
      → Ended s e es
      → run_alone t (wait id) w ≡ some ((s, e), w)
  unfolding wait ◌>>◌
  wait-Ended t id s e es w h x =
      run_alone-bind t (wait_for (λ u. may_read id u)) _ w w tt
        (run_alone-wait_for t _ w (EndedAt-may_read id s e w (es, h, x)).0)
      ∙ (unfold reads in
          run_alone-action t _ w w (s, e)
            (ap (λ r. (w, r)) (EndedAt-may_read id s e w (es, h, x)).1))

  get_or_create_found :
      (t : ℤ) (k : Bytes) (id : ℕ) (w : Service I)
      → lookup k w.establishments ≡ some id
      → run_alone t (get_or_create_establishment k) w ≡ some (id, w)
  unfolding get_or_create_establishment load_establishment
  get_or_create_found t k id w h =
      run_alone-bind t (action (load_establishment k)) _ w w (some id)
        (run_alone-action t _ w w (some id) (unfold load_establishment in rw h refl))
      ∙ (unfold run_alone in refl)

  -- While s.establishments holds an establishment that ended with a session, Connect returns that
  -- session and a nil error, in a started service that has no session with the node (any more), and
  -- changes nothing: it never dials the node again.
  pub connect_stale :
      (t : ℤ) (k addr : Bytes) (id : ℕ) (r : SessionRef) (es : Establishment) (w : Service I)
      → check_state state_started w ≡ none
      → lookup k w.sessions ≡ none
      → lookup k w.establishments ≡ some id
      → get_elem? w.establishment_heap id ≡ some es
      → Ended (some r) none es
      → run_alone t (connect k addr) w ≡ some ((some r, none), w)
  unfolding run_alone connect
  connect_stale t k addr id r es w hs hl he h x =
      run_alone-bind t time_now _ w w t (unfold time_now in refl)
      ∙ run_alone-bind t (action (get_session t k)) _ w w none
          (run_alone-action t _ w w none (get_session_missing t k w hs hl))
      ∙ run_alone-bind t (reads (check_state state_started)) _ w w none
          (unfold reads in run_alone-action t _ w w none (rw hs refl))
      ∙ run_alone-bind t (get_or_create_establishment k) _ w w id (get_or_create_found t k id w he)
      ∙ run_alone-bind t (start_active_establish id k addr) _ w w false
          (start_active_establish-Ended t k addr id (some r) none es w h x)
      ∙ run_alone-bind t (wait id) _ w w (some r, none) (wait-Ended t id (some r) none es w h x)
      ∙ (unfold connected in refl)
