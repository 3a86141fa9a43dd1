-- ===== src/Base/Dict/Defs.antt =====
-- Operations of a finite map, each as one pass over its entries.
use mathlib.Core.Path.{◌≡◌}
use mathlib.Core.Bool.{Bool, true, false}
use mathlib.Core.Option.{Option, none, some}
use mathlib.Core.List.{List, [], ◌∷◌}
use atlas_hpc.Base.Tests.{if◌then◌else◌}
use atlas_hpc.Base.Equality.{Eq, ◌==◌}

abbrev pub Dict : Type 0 → Type 0 → Type 0
Dict K V = List (K × V)

module _ {K V : Type 0} ⦃e : Eq K⦄ where
  unfoldable pub lookup : K → Dict K V → Option V
  lookup k [] = none
  lookup k ((j, v) ∷ m) = if k == j then some v else lookup k m

  -- `map.entry(k).or_insert(d)`, and the write of `f` through the reference.
  unfoldable pub upsert : K → V → (V → V) → Dict K V → Dict K V
  upsert k d f [] = (k, f d) ∷ []
  upsert k d f ((j, v) ∷ m) = if k == j then (j, f v) ∷ m else (j, v) ∷ upsert k d f m

  -- `map.insert(k, v)`.
  unfoldable pub insert : K → V → Dict K V → Dict K V
  insert k v = upsert k v (λ _. v)

  -- A write through `map.get_mut(&k)`, if the key is there.
  unfoldable pub alter : K → (V → V) → Dict K V → Dict K V
  alter k f [] = []
  alter k f ((j, v) ∷ m) = if k == j then (j, f v) ∷ m else (j, v) ∷ alter k f m

  -- A write through every reference of `map.iter_mut()`.
  unfoldable pub alter_all : (V → V) → Dict K V → Dict K V
  alter_all f [] = []
  alter_all f ((j, v) ∷ m) = (j, f v) ∷ alter_all f m

  -- `map.retain(p)`.
  unfoldable pub retain : (K → V → Bool) → Dict K V → Dict K V
  retain p [] = []
  retain p ((j, v) ∷ m) = let rest = retain p m in if p j v then (j, v) ∷ rest else rest

  -- `map.remove(&k)`.
  unfoldable pub remove : K → Dict K V → Dict K V
  remove k [] = []
  remove k ((j, v) ∷ m) = let rest = remove k m in if k == j then rest else (j, v) ∷ rest

  -- No key stands twice.
  abbrev pub Distinct : Dict K V → Type 0
  Distinct [] = Unit
  Distinct ((j, v) ∷ m) = (lookup j m ≡ none) × Distinct m

-- `Option::filter`.
abbrev pub keep_if {ℓ} : {V : Type ℓ} → (V → Bool) → Option V → Option V
keep_if p none = none
keep_if p (some v) = if p v then some v else none

abbrev pub is_some {ℓ} : {V : Type ℓ} → Option V → Bool
is_some none = false
is_some (some v) = true
