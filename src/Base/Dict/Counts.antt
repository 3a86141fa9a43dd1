-- ===== src/Base/Dict/Counts.antt =====
-- Two finite maps with the same lookups have as many entries that pass a test: what is counted
-- does not depend on the order of iteration.
use Prim.Native.Nat.{ℕ, ◌+◌}
use mathlib.Core.Path.{◌≡◌, refl, sym, ◌∙◌}
use mathlib.Core.Bool.{Bool, true}
use mathlib.Core.Option.{none, some}
use mathlib.Core.List.{[], ◌∷◌}
use native.Mathlib.Omega.{arith}
use atlas_hpc.Base.Tests.{if◌then◌else◌}
use atlas_hpc.Base.Equality.{Eq, ==_refl}
use atlas_hpc.Base.Lists.{length}
use atlas_hpc.Base.Dict.Defs.{
  Dict, lookup, upsert, insert, alter, alter_all, retain, remove, Distinct, is_some,
}
use atlas_hpc.Base.Dict.Laws.{remove-Distinct, lookup-remove}

module _ {K V : Type 0} ⦃e : Eq K⦄ where
  -- How many entries pass `p`.
  abbrev pub count_where : (K → V → Bool) → Dict K V → ℕ
  count_where p [] = 0
  count_where p ((j, v) ∷ m) = (if p j v then 1 else 0) + count_where p m

  remove_absent : (k : K) (m : Dict K V) → lookup k m ≡ none → remove k m ≡ m
  unfolding lookup remove
  remove_absent k [] h = refl
  remove_absent k ((i, w) ∷ m) h = ground (arith, remove_absent k m)

  -- Taking one entry out takes its share out of the count.
  count_where-remove :
      (p : K → V → Bool) (k : K) (v : V) (m : Dict K V)
      → Distinct m
      → lookup k m ≡ some v
      → count_where p m ≡ (if p k v then 1 else 0) + count_where p (remove k m)
  unfolding lookup remove
  count_where-remove p k v [] d h = cc
  count_where-remove p k v ((i, w) ∷ m) d h =
      ground (arith, e.beq_iff k i, remove_absent k m, count_where-remove p k v m d.1)

  no_entries : (m : Dict K V) → ((j : K) → lookup j m ≡ none) → m ≡ []
  unfolding lookup
  no_entries [] h = refl
  no_entries ((i, w) ∷ m) h = ground (arith, h i, ==_refl i)

  pub count_where-eq :
      (p : K → V → Bool) (m n : Dict K V)
      → Distinct m
      → Distinct n
      → ((j : K) → lookup j m ≡ lookup j n)
      → count_where p m ≡ count_where p n
  unfolding lookup
  count_where-eq p [] n c d h = rw (no_entries n (λ j. sym (h j)))
  count_where-eq p ((i, w) ∷ m) n c d h =
      let found : lookup i n ≡ some w = sym (h i) ∙ rw (==_refl i) in
      let rest : (j : K) → lookup j m ≡ lookup j (remove i n) =
        λ j. ground (arith, lookup-remove i j n, h j, e.beq_iff i j, e.beq_iff j i) in
      omega (
        arith,
        count_where-remove p i w n d found,
        count_where-eq p m (remove i n) c.1 (remove-Distinct i n d) rest,
      )

  pub length-eq-count_where : (m : Dict K V) → length m ≡ count_where (λ _ _. true) m
  length-eq-count_where [] = refl
  length-eq-count_where (x ∷ m) = omega (arith, length-eq-count_where m)

  pub count_where-retain : (p : K → V → Bool) (m : Dict K V) → length (retain p m) ≡ count_where p m
  unfolding retain
  count_where-retain p [] = refl
  count_where-retain p ((i, w) ∷ m) = ground (arith, count_where-retain p m)

  pub count_where-alter_all :
      (p : K → V → Bool) (f : V → V) (m : Dict K V)
      → count_where p (alter_all f m) ≡ count_where (λ j v. p j (f v)) m
  unfolding alter_all
  count_where-alter_all p f [] = refl
  count_where-alter_all p f ((i, w) ∷ m) = ground (arith, count_where-alter_all p f m)

  pub length-insert :
      (k : K) (v : V) (m : Dict K V)
      → length (insert k v m) ≡ (if is_some (lookup k m) then length m else length m + 1)
  unfolding insert upsert lookup
  length-insert k v [] = omega arith
  length-insert k v ((i, w) ∷ m) = ground (arith, e.beq_iff k i, length-insert k v m)

  pub length-alter : (k : K) (f : V → V) (m : Dict K V) → length (alter k f m) ≡ length m
  unfolding alter
  length-alter k f [] = refl
  length-alter k f ((i, w) ∷ m) = ground (arith, length-alter k f m)
