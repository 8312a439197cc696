-- ===== src/Base/GoMap.antt =====
-- A Go map: an association list, read and written through an equality test on the keys.
use mathlib.Core.Path.{◌≡◌, refl}
use mathlib.Core.List.{List, [], ◌∷◌}
use mathlib.Core.Option.{Option, none, some}
use native.Mathlib.Omega.{arith}
use golly.Base.Tests.{if◌then◌else◌, Comparable}

abbrev pub GoMap {ℓ κ} : Type ℓ → Type κ → Type (ℓ ⊔ κ)
GoMap K V = List (K × V)

module _ {ℓ κ} {K : Type ℓ} {V : Type κ} ⦃key : Comparable K⦄ where
  -- `v, found := m[k]`
  unfoldable pub lookup : K → GoMap K V → Option V
  lookup k [] = none
  lookup k (entry ∷ m) = if key.same entry.0 k then some entry.1 else lookup k m

  -- `m[k] = v`; the key of an old entry stays
  unfoldable pub insert : K → V → GoMap K V → GoMap K V
  insert k v [] = (k, v) ∷ []
  insert k v (entry ∷ m) = if key.same entry.0 k then (entry.0, v) ∷ m else entry ∷ insert k v m

  -- `delete(m, k)`
  unfoldable pub remove : K → GoMap K V → GoMap K V
  remove k [] = []
  remove k (entry ∷ m) = if key.same entry.0 k then remove k m else entry ∷ remove k m

  module _ (k q : K) where
    pub lookup-insert :
        (v : V) (m : GoMap K V)
        → lookup q (insert k v m) ≡ (if key.same k q then some v else lookup q m)
    unfolding lookup insert
    lookup-insert v [] = refl
    lookup-insert v (entry ∷ m) =
        ground (
          arith,
          key.same_iff entry.0 q,
          key.same_iff entry.0 k,
          key.same_iff k q,
          lookup-insert v m,
        )

    pub lookup-remove :
        (m : GoMap K V) → lookup q (remove k m) ≡ (if key.same k q then none else lookup q m)
    unfolding lookup remove
    lookup-remove [] = ground arith
    lookup-remove (entry ∷ m) =
        ground
          (arith, key.same_iff entry.0 q, key.same_iff entry.0 k, key.same_iff k q, lookup-remove m)
