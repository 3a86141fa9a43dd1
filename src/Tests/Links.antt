-- ===== src/Tests/Links.antt =====
-- Correlations and link materialisation on two entities with ten returns each.
use mathlib.Core.Bool.{xor}
use native.Mathlib.Nat.{mul_comm}
use atlas_hpc.Base.{
  ℕ, suc, ◌+◌, ◌*◌, ◌/◌, ◌≤◌, ◌≡◌, refl, ap, ◌⊎◌, true, some, List, [], ◌∷◌, ◌++◌, map, nat_eq,
  pair_eq, arith,
}
use atlas_hpc.Base.Dict
use atlas_hpc.Base.Dict.{Dict}
use atlas_hpc.Base.Fixed.{
  ℤ, pos, negsuc, fixed, fixed_narrow, fixed_sqrt, fixed_exp, pos_part, signed,
}
use atlas_hpc.Base.Float.{Narrow}
use atlas_hpc.Base.Outcome.{done, panic}
use atlas_hpc.Types.Label.{LabelId, label_eq, label}
use atlas_hpc.Types.Link.{TemporalLink, new_link}
use atlas_hpc.WarmTier.Graph.{GraphInner, new_graph, temporal_link_count}
use atlas_hpc.WarmTier.Stats.{pearson_with_pvalue, mean, moments, conclude, p_value_of}
use atlas_hpc.WarmTier.Stats.Symmetry.{pearson_symmetric, pearson_prefix}
use atlas_hpc.WarmTier.Materialize.{
  materialize_temporal_link, examine_all, examine, links_between, links_from, commit, candidates,
  add_candidates,
}
use atlas_hpc.WarmTier.Materialize.Links.{links-IsJustified}
use atlas_hpc.WarmTier.Materialize.Pairs.{IsJustified}
use atlas_hpc.WarmTier.Materialize.Counts.{IsCounted, materialize_counts}
use atlas_hpc.WarmTier.Materialize.Panics.{materialize_panics}

abbrev units : List ℕ → List ℤ
units ns = map (λ k. pos (k * 1_000_000)) ns

abbrev xs : List ℤ
xs = units (1 ∷ 2 ∷ 3 ∷ 4 ∷ 5 ∷ 6 ∷ 7 ∷ 8 ∷ 9 ∷ 10 ∷ [])

abbrev ys : List ℤ
ys = units (4 ∷ 1 ∷ 2 ∷ 8 ∷ 3 ∷ 9 ∷ 5 ∷ 6 ∷ 10 ∷ 7 ∷ [])

computed : pearson_with_pvalue xs ys ≡ some (pos 648_484, pos 31_556)
unfolding pearson_with_pvalue mean moments conclude p_value_of fixed_sqrt fixed_exp xor
computed = refl

fixed_mul_comm : (a b : ℤ) → fixed.mul a b ≡ fixed.mul b a
unfolding xor
fixed_mul_comm (pos m) (pos n) = ap (λ k. pos (k / 1_000_000)) (mul_comm m n)
fixed_mul_comm (pos m) (negsuc n) = ap (λ k. signed true (k / 1_000_000)) (mul_comm m (suc n))
fixed_mul_comm (negsuc m) (pos n) = ap (λ k. signed true (k / 1_000_000)) (mul_comm (suc m) n)
fixed_mul_comm (negsuc m) (negsuc n) = ap (λ k. pos (k / 1_000_000)) (mul_comm (suc m) (suc n))

pearson_symmetric_example : pearson_with_pvalue xs ys ≡ pearson_with_pvalue ys xs
pearson_symmetric_example = pearson_symmetric fixed_mul_comm xs ys

pearson_prefix_example : pearson_with_pvalue (xs ++ pos 99 ∷ []) ys ≡ pearson_with_pvalue xs ys
pearson_prefix_example = pearson_prefix xs (pos 99 ∷ []) ys (omega arith)

-- Entity 1 has label 1, entity 2 the labels 1 and 2.
abbrev pub pair : GraphInner ℤ ℤ
pair = record new_graph {
  entity_labels = (1, label 1 ∷ []) ∷ (2, label 2 ∷ label 1 ∷ []) ∷ [];
  label_entities = (label 1, 1 ∷ 2 ∷ []) ∷ (label 2, 2 ∷ []) ∷ [];
  return_samples = (1, xs) ∷ (2, ys) ∷ [];
}

abbrev pub now : ℕ → ℕ
now k = 1_000 + k

abbrev new_link_found : TemporalLink ℤ
new_link_found = record {
  src = label 1;
  dst = label 2;
  p_value = pos 31_556;
  created_ns = 1_000;
  correlation_abs = pos 648_484;
}

abbrev linked_pair : GraphInner ℤ ℤ
linked_pair = record pair {
  temporal_links = ((label 1, label 2), new_link_found) ∷ [];
  fact_count = 1;
}

materialized :
    materialize_temporal_link true now (λ ids. ids) 1 pair (λ k. pair) pair ≡ done linked_pair
unfolding pearson_with_pvalue mean moments conclude p_value_of fixed_sqrt fixed_exp xor
    materialize_temporal_link examine_all examine links_between links_from new_link commit
    candidates add_candidates Dict.lookup Dict.insert Dict.upsert
materialized = refl

link_there : Dict.lookup (label 1, label 2) linked_pair.temporal_links ≡ some new_link_found
unfolding Dict.lookup
link_there = refl

links-IsJustified_example :
    let key : LabelId × LabelId = (label 1, label 2) in
    (Dict.lookup key pair.temporal_links ≡ some new_link_found)
    ⊎ (IsJustified 1 pair (λ k. pair) new_link_found × (key ≡ key))
links-IsJustified_example =
    links-IsJustified 1 pair (λ k. pair) true now (λ ids. ids) (λ ids c i. i) pair linked_pair
      materialized (label 1, label 2) new_link_found link_there

materialize_counts_example :
    (0 ≤ 1)
    × (temporal_link_count pair ≤ temporal_link_count linked_pair)
    × (IsCounted pair → IsCounted linked_pair)
    × (linked_pair ≡ record pair {
      temporal_links = linked_pair.temporal_links;
      fact_count = linked_pair.fact_count;
    })
materialize_counts_example =
    materialize_counts true now (λ ids. ids) 1 pair (λ k. pair) pair linked_pair materialized

-- A narrow type with steps of 0.05, to the nearest of which it rounds.
abbrev coarse : Narrow ℤ ℤ
coarse = record { narrow = λ a. pos ((pos_part a + 25_000) / 50_000 * 50_000) }

found_labels : Dict.lookup 2 pair.entity_labels ≡ some (label 2 ∷ label 1 ∷ [])
unfolding Dict.lookup
found_labels = refl

src_labels : Dict.lookup 1 pair.entity_labels ≡ some (label 1 ∷ [])
unfolding Dict.lookup
src_labels = refl

src_samples : Dict.lookup 1 pair.return_samples ≡ some xs
unfolding Dict.lookup
src_samples = refl

found_samples : Dict.lookup 2 pair.return_samples ≡ some ys
unfolding Dict.lookup
found_samples = refl

found_candidates : candidates pair 1 (label 1 ∷ []) [] ≡ 2 ∷ []
unfolding candidates add_candidates Dict.lookup
found_candidates = refl

materialize_panics_example :
    materialize_temporal_link ⦃n = coarse⦄ true now (λ ids. ids) 1 pair (λ k. pair) pair ≡ panic
materialize_panics_example =
    materialize_panics ⦃n = coarse⦄ now (λ ids. ids) 1 2 [] pair pair (λ k. pair) (label 1)
      (label 2) [] (label 1 ∷ []) xs ys (pos 648_484) (pos 31_556) src_labels src_samples
      (omega arith) found_candidates found_samples (omega arith) found_labels
      (λ same. absurd (ground (arith, ap (λ l. l.id) same))) computed refl refl
