-- ===== src/Net/Prog.antt =====
-- Goroutines: a program is a tree of atomic steps on the shared memory and of questions to the
-- world outside. A step that holds a mutex from lock to unlock is one atomic step.
pub mod Keeps
pub mod Drive
use gcluster.Common.{ℕ, Bool, Option}
use gcluster.Common.Int.{ℤ}
use gcluster.Common.Bytes.{Bytes}
use gcluster.Net.Error.{Err}
use gcluster.Net.Message.{Message}
use gcluster.Net.Ref.{Conn}

-- What the world outside decides while a session is created: the time, the id of the timer, the
-- error of core.Start, and whether the new session closes before its creator has locked it.
pub record Answers : Type 0 where
  pub now : ℤ
  pub tid : ℕ
  pub core_err : Option Err
  pub died : Bool

-- `atomic f k` replaces the memory `w` by `f w` and goes on with `k w`; `await` waits for a test.
pub data Prog (W : Type 0) (A : Type 0) : Type 0 where
  ret : A → Prog W A
  atomic : (W → W) → (W → Prog W A) → Prog W A
  await : (W → Bool) → Prog W A → Prog W A
  clock : (ℤ → Prog W A) → Prog W A
  dial : Bytes → (Option Conn → Prog W A) → Prog W A
  write : Conn → Message → (Bool → Prog W A) → Prog W A
  read : Conn → (Option Message → Prog W A) → Prog W A
  ask : (Answers → Prog W A) → Prog W A

infixl 5 ◌>>=◌ ◌>>◌
unfoldable pub ◌>>=◌ : {W A B : Type 0} → Prog W A → (A → Prog W B) → Prog W B
ret a >>= g = g a
atomic f k >>= g = atomic f (λ w. k w >>= g)
await p k >>= g = await p (k >>= g)
clock k >>= g = clock (λ t. k t >>= g)
dial addr k >>= g = dial addr (λ c. k c >>= g)
write c m k >>= g = write c m (λ b. k b >>= g)
read c k >>= g = read c (λ m. k m >>= g)
ask k >>= g = ask (λ a. k a >>= g)

unfoldable pub ◌>>◌ : {W B : Type 0} → Prog W (Unit {0}) → Prog W B → Prog W B
unfolding ◌>>=◌
m >> k = m >>= λ _. k

-- An atomic step that changes the memory and returns a value.
unfoldable pub action : {W A : Type 0} → (W → W × A) → Prog W A
action f = atomic (λ w. (f w).0) (λ w. ret (f w).1)

-- An atomic step that only changes the memory.
unfoldable pub effect : {W : Type 0} → (W → W) → Prog W (Unit {0})
effect f = atomic f (λ _. ret tt)

unfoldable pub time_now : {W : Type 0} → Prog W ℤ
time_now = clock ret

unfoldable pub answers : {W : Type 0} → Prog W Answers
answers = ask ret

unfoldable pub dial_addr : {W : Type 0} → Bytes → Prog W (Option Conn)
dial_addr addr = dial addr ret

unfoldable pub write_message : {W : Type 0} → Conn → Message → Prog W Bool
write_message c m = write c m ret

unfoldable pub read_message : {W : Type 0} → Conn → Prog W (Option Message)
read_message c = read c ret

unfoldable pub wait_for : {W : Type 0} → (W → Bool) → Prog W (Unit {0})
wait_for p = await p (ret tt)
