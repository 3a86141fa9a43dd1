-- ===== src/Base/Dict/Laws.antt =====
-- What a lookup sees after each operation, and that keys stay distinct.
use mathlib.Core.Path.{◌≡◌, refl, sym, subst}
use mathlib.Core.Logic.{inl, inr}
use mathlib.Core.Bool.{Bool}
use mathlib.Core.Option.{Option, none, some}
use mathlib.Core.Option
use mathlib.Core.List.{[], ◌∷◌}
use native.Mathlib.Omega.{arith}
use atlas_hpc.Base.Tests.{if◌then◌else◌, Bool-cases}
use atlas_hpc.Base.Equality.{Eq, ◌==◌}
use atlas_hpc.Base.Dict.Defs.{
  Dict, lookup, upsert, insert, alter, alter_all, retain, remove, Distinct, keep_if,
}

module _ {K V : Type 0} ⦃e : Eq K⦄ where
  pub lookup-upsert :
      (k : K) (d : V) (f : V → V) (j : K) (m : Dict K V)
      → lookup j (upsert k d f m)
        ≡ (if k == j then some (f (Option.get_or (lookup k m) d)) else lookup j m)
  unfolding lookup upsert
  lookup-upsert k d f j [] = ground (arith, e.beq_iff k j, e.beq_iff j k)
  lookup-upsert k d f j ((i, w) ∷ m) =
      ground
        (arith, e.beq_iff k j, e.beq_iff j k, e.beq_iff j i, e.beq_iff k i, lookup-upsert k d f j m)

  pub lookup-insert :
      (k : K) (v : V) (j : K) (m : Dict K V)
      → lookup j (insert k v m) ≡ (if k == j then some v else lookup j m)
  unfolding insert
  lookup-insert k v j m = lookup-upsert k v (λ _. v) j m

  pub lookup-alter :
      (k : K) (f : V → V) (j : K) (m : Dict K V)
      → lookup j (alter k f m) ≡ (if k == j then Option.map f (lookup j m) else lookup j m)
  unfolding lookup alter
  lookup-alter k f j [] = ground arith
  lookup-alter k f j ((i, w) ∷ m) =
      ground (arith, e.beq_iff k j, e.beq_iff j i, e.beq_iff k i, lookup-alter k f j m)

  pub lookup-alter_all :
      (f : V → V) (j : K) (m : Dict K V) → lookup j (alter_all f m) ≡ Option.map f (lookup j m)
  unfolding lookup alter_all
  lookup-alter_all f j [] = refl
  lookup-alter_all f j ((i, w) ∷ m) = ground (arith, lookup-alter_all f j m)

  retain_none :
      (p : K → V → Bool) (j : K) (m : Dict K V) → lookup j m ≡ none → lookup j (retain p m) ≡ none
  unfolding lookup retain
  retain_none p j [] h = refl
  retain_none p j ((i, w) ∷ m) h = ground (arith, retain_none p j m)

  pub lookup-retain :
      (p : K → V → Bool) (j : K) (m : Dict K V)
      → Distinct m
      → lookup j (retain p m) ≡ keep_if (p j) (lookup j m)
  unfolding lookup retain
  lookup-retain p j [] d = refl
  lookup-retain p j ((i, w) ∷ m) d = elim (Bool-cases (j == i)) [
    | inl same ↦
        let e' : i ≡ j = sym ((e.beq_iff j i).0 same) in
        let gone = retain_none p j m (subst (λ x. lookup x m ≡ none) e' d.0) in
        subst (λ x. lookup j (retain p ((x, w) ∷ m)) ≡ keep_if (p j) (lookup j ((x, w) ∷ m)))
          (sym e') (ground (arith, e.beq_iff j j, gone))
    | inr other ↦ ground (arith, lookup-retain p j m d.1)
  ]

  remove-none : (k j : K) (m : Dict K V) → lookup j m ≡ none → lookup j (remove k m) ≡ none
  unfolding lookup remove
  remove-none k j [] h = refl
  remove-none k j ((i, w) ∷ m) h = ground (arith, remove-none k j m)

  pub lookup-remove :
      (k j : K) (m : Dict K V) → lookup j (remove k m) ≡ (if k == j then none else lookup j m)
  unfolding lookup remove
  lookup-remove k j [] = ground arith
  lookup-remove k j ((i, w) ∷ m) =
      ground (arith, e.beq_iff k j, e.beq_iff j i, e.beq_iff k i, lookup-remove k j m)

  -- Every operation keeps the keys distinct.
  pub upsert-Distinct :
      (k : K) (d : V) (f : V → V) (m : Dict K V) → Distinct m → Distinct (upsert k d f m)
  unfolding upsert lookup
  upsert-Distinct k d f [] h = ground arith
  upsert-Distinct k d f ((i, w) ∷ m) h =
      ground (arith, e.beq_iff k i, lookup-upsert k d f i m, upsert-Distinct k d f m h.1)

  pub insert-Distinct : (k : K) (v : V) (m : Dict K V) → Distinct m → Distinct (insert k v m)
  unfolding insert
  insert-Distinct k v m h = upsert-Distinct k v (λ _. v) m h

  pub alter-Distinct : (k : K) (f : V → V) (m : Dict K V) → Distinct m → Distinct (alter k f m)
  unfolding alter
  alter-Distinct k f [] h = tt
  alter-Distinct k f ((i, w) ∷ m) h = ground (arith, lookup-alter k f i m, alter-Distinct k f m h.1)

  pub alter_all-Distinct : (f : V → V) (m : Dict K V) → Distinct m → Distinct (alter_all f m)
  unfolding alter_all
  alter_all-Distinct f [] h = tt
  alter_all-Distinct f ((i, w) ∷ m) h =
      ground (arith, lookup-alter_all f i m, alter_all-Distinct f m h.1)

  pub retain-Distinct : (p : K → V → Bool) (m : Dict K V) → Distinct m → Distinct (retain p m)
  unfolding retain
  retain-Distinct p [] h = tt
  retain-Distinct p ((i, w) ∷ m) h = ground (arith, retain_none p i m, retain-Distinct p m h.1)

  pub remove-Distinct : (k : K) (m : Dict K V) → Distinct m → Distinct (remove k m)
  unfolding remove
  remove-Distinct k [] h = tt
  remove-Distinct k ((i, w) ∷ m) h = ground (arith, remove-none k i m, remove-Distinct k m h.1)
