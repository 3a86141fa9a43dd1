-- ===== src/WarmTier/LabelStore/Traverse.antt =====
-- `traverse_all` ends, and lists every registered label once, with its number of entities.
use mathlib.Core.Option
use atlas_hpc.Base.{
  ℕ, zero, suc, ◌<◌, ◌≤◌, ◌≡◌, refl, none, some, List, [], ◌∷◌, ◌++◌, nat_eq, length, get_elem?,
  if◌then◌else◌, Option-cases, ltb, inl, inr, arith, get_elem?-eq-none, get_elem?-eq-some,
}
use mathlib.Core.List.{append_assoc, append-nil}
use atlas_hpc.Base.Dict
use atlas_hpc.Base.Dict.{Dict, Distinct}
use atlas_hpc.Base.Outcome.{done}
use atlas_hpc.Types.Label.{LabelId, label_eq, label_beq_iff}
use atlas_hpc.WarmTier.LabelStore.{LabelNode, LabelStore, no_node, walk, traverse_all, label_count}
use atlas_hpc.WarmTier.LabelStore.Insert.{seen, unseen}
use atlas_hpc.WarmTier.LabelStore.Linked.{IsLinked, before, entities}

abbrev summary : LabelNode → LabelId × ℕ
summary n = (n.label_id, length n.entity_ids)

-- The summaries of the nodes below place `k`, from the last to the first.
abbrev downwards : List LabelNode → ℕ → List (LabelId × ℕ)
downwards arena zero = []
downwards arena (suc k) = elim (get_elem? arena k) [
  | none ↦ downwards arena k
  | some n ↦ summary n ∷ downwards arena k
]

walk-downwards :
    (s : LabelStore) (k : ℕ) (result : List (LabelId × ℕ))
    → IsLinked s
    → length s.arena < no_node
    → k ≤ length s.arena
    → walk k s.arena result (before k) ≡ done (result ++ downwards s.arena k)
unfolding walk
walk-downwards s zero result h small le = rw append-nil
walk-downwards s (suc k) result h small le =
    let (n, e) = get_elem?-eq-some s.arena k (omega arith) in
    let next = h.linked k n e in
    let rest = walk-downwards s k (result ++ summary n ∷ []) h small (omega arith) in
    let step = append_assoc result (summary n ∷ []) (downwards s.arena k) in
    ground (arith, e, next, rest, step)

module _ (s : LabelStore) (h : IsLinked s) where
  length-downwards : (k : ℕ) → k ≤ length s.arena → length (downwards s.arena k) ≡ k
  length-downwards zero le = refl
  length-downwards (suc k) le =
      let (n, e) = get_elem?-eq-some s.arena k (omega arith) in
      ground (arith, e, length-downwards k (omega arith))

  downwards_absent :
      (l : LabelId) (k : ℕ)
      → Dict.lookup l s.index ≡ none
      → Dict.lookup l (downwards s.arena k) ≡ none
  unfolding Dict.lookup
  downwards_absent l zero new = refl
  downwards_absent l (suc k) new = elim (Option-cases (get_elem? s.arena k)) [
    | inl gone ↦ ground (arith, downwards_absent l k new)
    | inr (n, e) ↦
        ground (arith, downwards_absent l k new, h.covered k n e, label_beq_iff l n.label_id)
  ]

  downwards_present :
      (l : LabelId) (i : ℕ) (n : LabelNode) (k : ℕ)
      → Dict.lookup l s.index ≡ some i
      → get_elem? s.arena i ≡ some n
      → Dict.lookup l (downwards s.arena k) ≡ (if ltb i k then some (length n.entity_ids) else none)
  unfolding Dict.lookup
  downwards_present l i n zero found there = ground arith
  downwards_present l i n (suc k) found there = elim (Option-cases (get_elem? s.arena k)) [
    | inl gone ↦ ground (arith, downwards_present l i n k found there)
    | inr (m, e) ↦ ground (
      arith,
      downwards_present l i n k found there,
      h.covered k m e,
      h.indexed l i found,
      label_beq_iff l m.label_id,
    )
  ]

  downwards-Distinct : (k : ℕ) → Distinct (downwards s.arena k)
  downwards-Distinct zero = tt
  downwards-Distinct (suc k) = elim (Option-cases (get_elem? s.arena k)) [
    | inl gone ↦ ground (arith, downwards-Distinct k)
    | inr (n, e) ↦
        ground (arith, downwards-Distinct k, downwards_present n.label_id k n k (h.covered k n e) e)
  ]

  lookup_all :
      (l : LabelId)
      → Dict.lookup l (downwards s.arena (length s.arena)) ≡ Option.map length (entities s l)
  lookup_all l = elim (Option-cases (Dict.lookup l s.index)) [
    | inl new ↦ ground (arith, downwards_absent l (length s.arena) new, unseen s l new)
    | inr (i, found) ↦
        let (n, there, _) = h.indexed l i found in
        ground (
          arith,
          downwards_present l i n (length s.arena) found there,
          seen s l i n found there,
          get_elem?-eq-none s.arena i,
          there,
        )
  ]

  -- On a linked store that fits the address space `traverse_all` ends without a panic. Its list has
  -- no label twice, has `label_count` entries, and says of every label how many entities
  -- `entities_for_label` lists, or nothing where that finds none.
  pub traverse_all_lem :
      length s.arena < no_node
      → (r : List (LabelId × ℕ)) × (traverse_all s ≡ done r)
        × Distinct r
        × (length r ≡ label_count s)
        × ((l : LabelId) → Dict.lookup l r ≡ Option.map length (entities s l))
  unfolding traverse_all label_count
  traverse_all_lem small =
      let all = length s.arena in
      (
        downwards s.arena all,
        rw h.headed (walk-downwards s all [] h small (omega arith)),
        downwards-Distinct all,
        omega (arith, length-downwards all (omega arith), h.counted),
        lookup_all,
      )
