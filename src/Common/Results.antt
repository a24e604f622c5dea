-- ===== src/Common/Results.antt =====
-- `(T, error)` results of Go as a sum, with its `do` blocks.
use mathlib.Core.Path.{◌≡◌, refl, ap}

pub data Result {ε α} (E : Type ε) (A : Type α) : Type (α ⊔ ε) where
  err : E → Result E A
  ok : A → Result E A

module _ {ε α β} {E : Type ε} {B : Type β} where
  infixl 5 ◌>>=◌
  -- What follows a call runs only if the call returned a nil error.
  abbrev pub ◌>>=◌ : {A : Type α} → Result E A → (A → Result E B) → Result E B
  err failed >>= next = err failed
  ok value >>= next = next value

  -- Inversion of a successful bind.
  pub >>=-eq-ok :
      {A : Type α} (first : Result E A) (next : A → Result E B) {b : B}
      → (first >>= next) ≡ ok b
      → (a : A) × (first ≡ ok a) × (next a ≡ ok b)
  >>=-eq-ok (err failed) next h = absurd (cc)
  >>=-eq-ok (ok value) next h = (value, refl, h)

infixl 5 ◌>>◌
-- A call whose value is not used.
abbrev pub ◌>>◌ {ε β} : {E : Type ε} {B : Type β} → Result E (Unit {0}) → Result E B → Result E B
first >> rest = first >>= λ _. rest

abbrev ok_or {ℓ ι} : {E : Type ι} {A : Type ℓ} → A → Result E A → A
ok_or d (ok a) = a
ok_or d (err e) = d

pub ok-injective {ℓ ι} :
    {E : Type ι} {A : Type ℓ} {a b : A} → ◌≡◌ {A = Result E A} (ok a) (ok b) → a ≡ b
ok-injective {a = a} h = ap (ok_or a) h
