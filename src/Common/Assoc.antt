-- ===== src/Common/Assoc.antt =====
-- Maps with byte strings for keys, as association lists (sync.Map, Go maps).
use mathlib.Core.Path.{◌≡◌, refl}
use mathlib.Core.Option.{Option, none, some}
use mathlib.Core.List.{List, [], ◌∷◌}
use native.Mathlib.Omega.{arith}
use gcluster.Common.Tests.{if◌then◌else◌}
use gcluster.Common.Bytes.{Bytes, bytes_eq, bytes_eq_iff}

module _ {ℓ} {V : Type ℓ} where
  unfoldable pub delete : Bytes → List (Bytes × V) → List (Bytes × V)
  delete key [] = []
  delete key (entry ∷ others) =
      let kept = delete key others in if bytes_eq entry.0 key then kept else entry ∷ kept

  unfoldable pub insert : Bytes → V → List (Bytes × V) → List (Bytes × V)
  insert key value [] = (key, value) ∷ []
  insert key value (entry ∷ others) =
      if bytes_eq entry.0 key then (key, value) ∷ others else entry ∷ insert key value others

  unfoldable pub lookup : Bytes → List (Bytes × V) → Option V
  lookup key [] = none
  lookup key (entry ∷ others) = if bytes_eq entry.0 key then some entry.1 else lookup key others

  pub lookup-insert :
      (key other : Bytes) (value : V) (entries : List (Bytes × V))
      → lookup other (insert key value entries)
        ≡ (if bytes_eq key other then some value else lookup other entries)
  unfolding insert lookup
  lookup-insert key other value [] = refl
  lookup-insert key other value (entry ∷ entries) = ground (
    arith,
    lookup-insert key other value entries,
    bytes_eq_iff entry.0 other,
    bytes_eq_iff key other,
    bytes_eq_iff entry.0 key,
  )

  pub lookup-delete :
      (k j : Bytes) (m : List (Bytes × V))
      → lookup j (delete k m) ≡ (if bytes_eq k j then none else lookup j m)
  unfolding lookup delete
  lookup-delete k j [] = ground arith
  lookup-delete k j ((i, w) ∷ m) =
      ground (arith, bytes_eq_iff k j, bytes_eq_iff i k, bytes_eq_iff i j, lookup-delete k j m)
