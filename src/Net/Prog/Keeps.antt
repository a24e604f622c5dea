-- ===== src/Net/Prog/Keeps.antt =====
-- Invariants of the shared memory under every interleaving of programs.
use mathlib.Core.Path.{subst}
use mathlib.Core.Option.{some-injective}
use gcluster.Common.{
  ℕ, zero, suc, ◌≡◌, sym, Bool, true, Option, List, [], ◌∷◌, set, get_elem?, some,
}
use gcluster.Common.Int.{ℤ}
use gcluster.Common.Bytes.{Bytes}
use gcluster.Net.Message.{Message}
use gcluster.Net.Ref.{Conn}
use gcluster.Net.Prog.{
  Prog, ret, atomic, await, clock, dial, write, read, ask, ◌>>=◌, ◌>>◌, Answers, action, effect,
}

-- Every atomic step of the program keeps `P`, whatever the world outside answers.
abbrev pub Keeps : {W A : Type 0} → (W → Type 0) → Prog W A → Type 0
Keeps P (ret a) = Unit {0}
Keeps {W} P (atomic f k) = (w : W) → (P w → P (f w)) × Keeps P (k w)
Keeps P (await p k) = Keeps P k
Keeps P (clock k) = (t : ℤ) → Keeps P (k t)
Keeps P (dial addr k) = (c : Option Conn) → Keeps P (k c)
Keeps P (write c m k) = (b : Bool) → Keeps P (k b)
Keeps P (read c k) = (m : Option Message) → Keeps P (k m)
Keeps P (ask k) = (a : Answers) → Keeps P (k a)

pub bind-Keeps :
    {W A B : Type 0} (P : W → Type 0) (m : Prog W A) (g : A → Prog W B)
    → Keeps P m
    → ((a : A) → Keeps P (g a))
    → Keeps P (m >>= g)
unfolding ◌>>=◌
bind-Keeps P (ret a) g h k = k a
bind-Keeps P (atomic f c) g h k = λ w. ((h w).0, bind-Keeps P (c w) g (h w).1 k)
bind-Keeps P (await p c) g h k = bind-Keeps P c g h k
bind-Keeps P (clock c) g h k = λ t. bind-Keeps P (c t) g (h t) k
bind-Keeps P (dial addr c) g h k = λ r. bind-Keeps P (c r) g (h r) k
bind-Keeps P (write x m c) g h k = λ r. bind-Keeps P (c r) g (h r) k
bind-Keeps P (read x c) g h k = λ r. bind-Keeps P (c r) g (h r) k
bind-Keeps P (ask c) g h k = λ r. bind-Keeps P (c r) g (h r) k

pub then-Keeps :
    {W B : Type 0} (P : W → Type 0) (m : Prog W (Unit {0})) (n : Prog W B)
    → Keeps P m
    → Keeps P n
    → Keeps P (m >> n)
unfolding ◌>>◌
then-Keeps P m n h k = bind-Keeps P m (λ _. n) h (λ _. k)

pub action-Keeps :
    {W A : Type 0} (P : W → Type 0) (f : W → W × A)
    → ((w : W) → P w → P (f w).0)
    → Keeps P (action f)
unfolding action
action-Keeps P f h = λ w. (h w, tt)

pub effect-Keeps :
    {W : Type 0} (P : W → Type 0) (f : W → W) → ((w : W) → P w → P (f w)) → Keeps P (effect f)
unfolding effect
effect-Keeps P f h = λ w. (h w, tt)

-- One step of a goroutine.
pub data Runs {W A : Type 0} : Prog W A → W → Prog W A → W → Type 0 where
  runs_atomic :
      {f : W → W} {k : W → Prog W A} {q : Prog W A} {w u : W}
      → u ≡ f w
      → q ≡ k w
      → Runs (atomic f k) w q u
  runs_await : {p : W → Bool} {k : Prog W A} {w : W} → p w ≡ true → Runs (await p k) w k w
  runs_clock : {k : ℤ → Prog W A} {q : Prog W A} {w : W} (t : ℤ) → q ≡ k t → Runs (clock k) w q w
  runs_dial :
      {addr : Bytes} {k : Option Conn → Prog W A} {q : Prog W A} {w : W} (c : Option Conn)
      → q ≡ k c
      → Runs (dial addr k) w q w
  runs_write :
      {c : Conn} {m : Message} {k : Bool → Prog W A} {q : Prog W A} {w : W} (b : Bool)
      → q ≡ k b
      → Runs (write c m k) w q w
  runs_read :
      {c : Conn} {k : Option Message → Prog W A} {q : Prog W A} {w : W} (m : Option Message)
      → q ≡ k m
      → Runs (read c k) w q w
  runs_ask :
      {k : Answers → Prog W A} {q : Prog W A} {w : W} (a : Answers) → q ≡ k a → Runs (ask k) w q w

pub Runs-Keeps :
    {W A : Type 0} (P : W → Type 0) {p q : Prog W A} {w u : W}
    → Runs p w q u
    → Keeps P p
    → Keeps P q × (P w → P u)
Runs-Keeps P (runs_atomic {w = w} eu eq) h =
    (subst (Keeps P) (sym eq) (h w).1, λ x. subst P (sym eu) ((h w).0 x))
Runs-Keeps P (runs_await e) h = (h, λ x. x)
Runs-Keeps P (runs_clock t eq) h = (subst (Keeps P) (sym eq) (h t), λ x. x)
Runs-Keeps P (runs_dial c eq) h = (subst (Keeps P) (sym eq) (h c), λ x. x)
Runs-Keeps P (runs_write b eq) h = (subst (Keeps P) (sym eq) (h b), λ x. x)
Runs-Keeps P (runs_read m eq) h = (subst (Keeps P) (sym eq) (h m), λ x. x)
Runs-Keeps P (runs_ask a eq) h = (subst (Keeps P) (sym eq) (h a), λ x. x)

-- The goroutines that run, and the memory that they share. `Allowed` says which programs may be
-- started, at any time and any number of them.
pub data Interleaving {W : Type 0} (Allowed : Prog W (Unit {0}) → Type 0)
    : List (Prog W (Unit {0})) → W → List (Prog W (Unit {0})) → W → Type 0 where
  done : {ps : List (Prog W (Unit {0}))} {w : W} → Interleaving Allowed ps w ps w
  spawn :
      {ps qs : List (Prog W (Unit {0}))} {w u : W} (p : Prog W (Unit {0}))
      → Allowed p
      → Interleaving Allowed (p ∷ ps) w qs u
      → Interleaving Allowed ps w qs u
  turn :
      {ps qs : List (Prog W (Unit {0}))} {w v u : W} {p q : Prog W (Unit {0})} (i : ℕ)
      → get_elem? ps i ≡ some p
      → Runs p w q v
      → Interleaving Allowed (set ps i q) v qs u
      → Interleaving Allowed ps w qs u

abbrev pub AllKeep : {W : Type 0} → (W → Type 0) → List (Prog W (Unit {0})) → Type 0
AllKeep P [] = Unit {0}
AllKeep P (p ∷ ps) = Keeps P p × AllKeep P ps

AllKeep-get_elem? :
    {W : Type 0} (P : W → Type 0) (ps : List (Prog W (Unit {0}))) (i : ℕ) {p : Prog W (Unit {0})}
    → AllKeep P ps
    → get_elem? ps i ≡ some p
    → Keeps P p
AllKeep-get_elem? P [] i h e = absurd (cc)
AllKeep-get_elem? P (q ∷ ps) zero h e = subst (Keeps P) (some-injective _ _ e) h.0
AllKeep-get_elem? P (q ∷ ps) (suc i) h e = AllKeep-get_elem? P ps i h.1 e

AllKeep-set :
    {W : Type 0} (P : W → Type 0) (ps : List (Prog W (Unit {0}))) (i : ℕ) (p : Prog W (Unit {0}))
    → AllKeep P ps
    → Keeps P p
    → AllKeep P (set ps i p)
AllKeep-set P [] i p h k = tt
AllKeep-set P (q ∷ ps) zero p h k = (k, h.1)
AllKeep-set P (q ∷ ps) (suc i) p h k = (h.0, AllKeep-set P ps i p h.1 k)

-- What every allowed program keeps is kept by the programs that still run after any interleaving,
-- and holds then if it held before.
pub Interleaving-Keeps :
    {W : Type 0} (Allowed : Prog W (Unit {0}) → Type 0) (P : W → Type 0)
    {ps qs : List (Prog W (Unit {0}))} {w u : W}
    → ((p : Prog W (Unit {0})) → Allowed p → Keeps P p)
    → Interleaving Allowed ps w qs u
    → AllKeep P ps
    → AllKeep P qs × (P w → P u)
Interleaving-Keeps Allowed P keep done a = (a, λ x. x)
Interleaving-Keeps Allowed P keep (spawn p ok rest) a =
    Interleaving-Keeps Allowed P keep rest (keep p ok, a)
Interleaving-Keeps Allowed P keep (turn {ps = ps} {q = q} i e r rest) a =
    let (k, step) = Runs-Keeps P r (AllKeep-get_elem? P ps i a e) in
    let (b, go) = Interleaving-Keeps Allowed P keep rest (AllKeep-set P ps i q a k) in
    (b, λ x. go (step x))
