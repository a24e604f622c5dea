-- ===== src/Net/Prog/Drive.antt =====
-- One goroutine run by an executable scheduler, against a world outside that always answers alike.
use gcluster.Common.{
  ℕ, zero, suc, ◌≡◌, ◌⊎◌, refl, Bool, true, false, Option, List, [], ◌∷◌, if◌then◌else◌, Bool-cases,
  inl, inr,
}
use gcluster.Common.Int.{ℤ}
use gcluster.Net.Message.{Message}
use gcluster.Net.Ref.{Conn}
use gcluster.Net.Prog.{Prog, ret, atomic, await, clock, dial, write, read, ask, Answers}
use gcluster.Net.Prog.Keeps.{
  Interleaving, done, turn, runs_atomic, runs_await, runs_clock, runs_dial, runs_write, runs_read,
  runs_ask,
}

-- What the world outside answers.
pub record World : Type 0 where
  pub time : ℤ
  pub dialled : Option Conn
  pub written : Bool
  pub received : Option Message
  pub decided : Answers

-- One step, where the goroutine can go on.
unfoldable pub step : {W A : Type 0} → World → Prog W A → W → Prog W A × W
step o (ret a) w = (ret a, w)
step o (atomic f k) w = (k w, f w)
step o (await p k) w = (if p w then k else await p k, w)
step o (clock k) w = (k o.time, w)
step o (dial addr k) w = (k o.dialled, w)
step o (write c m k) w = (k o.written, w)
step o (read c k) w = (k o.received, w)
step o (ask k) w = (k o.decided, w)

unfoldable pub drive : {W A : Type 0} → World → ℕ → Prog W A → W → Prog W A × W
unfolding step
drive o zero p w = (p, w)
drive o (suc n) p w = drive o n (step o p w).0 (step o p w).1

module _ {W : Type 0} (Allowed : Prog W (Unit {0}) → Type 0) where
  step-Interleaving :
      {qs : List (Prog W (Unit {0}))} {u : W} (o : World) (p : Prog W (Unit {0})) (w : W)
      → Interleaving Allowed ((step o p w).0 ∷ []) (step o p w).1 qs u
      → Interleaving Allowed (p ∷ []) w qs u
  unfolding step
  step-Interleaving o (ret a) w r = r
  step-Interleaving o (atomic f k) w r = turn 0 refl (runs_atomic {f = f} {k = k} refl refl) r
  step-Interleaving {qs} {u} o (await p k) w r = go (Bool-cases (p w)) r
    where
      go :
          (p w ≡ true) ⊎ (p w ≡ false)
          → Interleaving Allowed ((if p w then k else await p k) ∷ []) w qs u
          → Interleaving Allowed (await p k ∷ []) w qs u
      go (inl e) s = turn 0 refl (runs_await {p = p} {k = k} e) (rw e at s)
      go (inr e) s = rw e at s
  step-Interleaving o (clock k) w r = turn 0 refl (runs_clock {k = k} o.time refl) r
  step-Interleaving o (dial addr k) w r =
      turn 0 refl (runs_dial {addr = addr} {k = k} o.dialled refl) r
  step-Interleaving o (write c m k) w r =
      turn 0 refl (runs_write {c = c} {m = m} {k = k} o.written refl) r
  step-Interleaving o (read c k) w r = turn 0 refl (runs_read {c = c} {k = k} o.received refl) r
  step-Interleaving o (ask k) w r = turn 0 refl (runs_ask {k = k} o.decided refl) r

  -- What the scheduler runs is an interleaving.
  pub drive-Interleaving :
      (o : World) (n : ℕ) (p : Prog W (Unit {0})) (w : W)
      → Interleaving Allowed (p ∷ []) w ((drive o n p w).0 ∷ []) (drive o n p w).1
  unfolding drive
  drive-Interleaving o zero p w = done
  drive-Interleaving o (suc n) p w =
      step-Interleaving o p w (drive-Interleaving o n (step o p w).0 (step o p w).1)
