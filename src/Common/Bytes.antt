-- ===== src/Common/Bytes.antt =====
-- Go strings as lists of bytes, with their equality and their lexicographic order.
use Prim.Native.Nat.{ℕ}
use mathlib.Core.Path.{◌≡◌, refl}
use mathlib.Core.Logic.{◌↔◌, ◌≢◌}
use mathlib.Core.Bool.{Bool, true, false}
use mathlib.Core.List.{List, [], ◌∷◌}
use native.Mathlib.Omega.{arith}
use gcluster.Common.Tests.{ltb, ◌==◌, if◌then◌else◌}

abbrev pub Bytes : Type 0
Bytes = List ℕ

unfoldable pub bytes_eq : Bytes → Bytes → Bool
bytes_eq [] [] = true
bytes_eq [] (_ ∷ _) = false
bytes_eq (_ ∷ _) [] = false
bytes_eq (a ∷ as') (b ∷ bs) = let rest = bytes_eq as' bs in if a == b then rest else false

-- `a < b` on strings.
unfoldable pub bytes_ltb : Bytes → Bytes → Bool
bytes_ltb [] [] = false
bytes_ltb [] (_ ∷ _) = true
bytes_ltb (_ ∷ _) [] = false
bytes_ltb (a ∷ as') (b ∷ bs) =
    let rest = bytes_ltb as' bs in if ltb a b then true else if a == b then rest else false

pub bytes_eq→eq : (a b : Bytes) → bytes_eq a b ≡ true → a ≡ b
unfolding bytes_eq
bytes_eq→eq [] [] h = refl
bytes_eq→eq [] (y ∷ b) h = absurd (cc)
bytes_eq→eq (x ∷ a) [] h = absurd (cc)
bytes_eq→eq (x ∷ a) (y ∷ b) h = ground (arith, bytes_eq→eq a b)

pub bytes_eq_self : (a : Bytes) → bytes_eq a a ≡ true
unfolding bytes_eq
bytes_eq_self [] = refl
bytes_eq_self (x ∷ a) = ground (arith, bytes_eq_self a)

pub bytes_eq_iff : (a b : Bytes) → (bytes_eq a b ≡ true) ↔ (a ≡ b)
bytes_eq_iff a b = (bytes_eq→eq a b, λ e. ground (arith, e, bytes_eq_self a))

-- Of two different strings exactly one is the smaller.
pub bytes_ltb_total :
    (a b : Bytes) → a ≢ b → bytes_ltb b a ≡ (if bytes_ltb a b then false else true)
unfolding bytes_ltb
bytes_ltb_total [] [] h = absurd (h refl)
bytes_ltb_total [] (y ∷ b) h = refl
bytes_ltb_total (x ∷ a) [] h = refl
bytes_ltb_total (x ∷ a) (y ∷ b) h = ground (arith, bytes_ltb_total a b)
