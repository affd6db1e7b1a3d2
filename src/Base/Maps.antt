-- ===== src/Base/Maps.antt =====
-- `Map<number, V>`, as the list of its entries.
use Prim.Native.Nat.{ℕ}
use mathlib.Core.Path.{◌≡◌, refl}
use mathlib.Core.Option.{Option, none, some}
use mathlib.Core.List.{List, [], ◌∷◌}
use native.Mathlib.Omega.{arith}
use oblimap.Base.Tests.{◌==◌, if◌then◌else◌}

module _ {ℓ} {V : Type ℓ} where
  -- `map.get(k)`
  unfoldable pub lookup : ℕ → List (ℕ × V) → Option V
  lookup k [] = none
  lookup k ((j, v) ∷ m) = if k == j then some v else lookup k m

  -- `map.set(k, v)`
  unfoldable pub put : ℕ → V → List (ℕ × V) → List (ℕ × V)
  put k v [] = (k, v) ∷ []
  put k v ((j, w) ∷ m) = if k == j then (j, v) ∷ m else (j, w) ∷ put k v m

  -- `map.delete(k)`
  unfoldable pub erase : ℕ → List (ℕ × V) → List (ℕ × V)
  erase k [] = []
  erase k ((j, w) ∷ m) = if k == j then erase k m else (j, w) ∷ erase k m

  -- `for (const [, v] of map) { … }`, where the body changes the value
  unfoldable pub change_all : (V → V) → List (ℕ × V) → List (ℕ × V)
  change_all f [] = []
  change_all f ((j, w) ∷ m) = (j, f w) ∷ change_all f m

  abbrev pub map_some : (V → V) → Option V → Option V
  map_some f none = none
  map_some f (some v) = some (f v)

  pub lookup-put :
      (j k : ℕ) (v : V) (m : List (ℕ × V))
      → lookup j (put k v m) ≡ (if j == k then some v else lookup j m)
  unfolding lookup put
  lookup-put j k v [] = refl
  lookup-put j k v ((i, w) ∷ m) = ground (arith, lookup-put j k v m)

  pub lookup-erase :
      (j k : ℕ) (m : List (ℕ × V)) → lookup j (erase k m) ≡ (if j == k then none else lookup j m)
  unfolding lookup erase
  lookup-erase j k [] = ground arith
  lookup-erase j k ((i, w) ∷ m) = ground (arith, lookup-erase j k m)

  pub lookup-change_all :
      (f : V → V) (j : ℕ) (m : List (ℕ × V)) → lookup j (change_all f m) ≡ map_some f (lookup j m)
  unfolding lookup change_all
  lookup-change_all f j [] = refl
  lookup-change_all f j ((i, w) ∷ m) = ground (arith, lookup-change_all f j m)
