-- ===== src/WarmTier/Activation.antt =====
-- crates/warm-tier/src/lib.rs: `CausalGraph::spreading_activation`. The clock is a parameter, one
-- reading for each call of `Instant::now`; `while let` takes fuel. A `HashSet` is a list with no
-- element twice.
pub mod Paths
pub mod Grown
pub mod Scan
pub mod Sound
pub mod Levels
pub mod Complete
pub mod Ends
pub mod Unordered
use atlas_hpc.Base.{
  ℕ, zero, suc, ◌+◌, Bool, true, false, Option, none, some, List, [], ◌∷◌, ◌++◌, length, ltb, leb,
  mem, Eq, nat_eq, if◌then◌else◌,
}
use atlas_hpc.Base.Dict
use atlas_hpc.Base.Dict.{Dict}
use atlas_hpc.Base.Outcome.{Outcome, done, out_of_fuel, map_outcome}
use atlas_hpc.Types.Label.{LabelId, label_eq}
use atlas_hpc.WarmTier.Graph.{GraphInner}

-- `visited_labels`, `result_entities`, `queue`.
pub record Search : Type 0 where
  pub visited : List LabelId
  pub found : List ℕ
  pub queue : List (LabelId × ℕ)

-- `if visited_labels.insert(next_label) { queue.push_back(..) }`.
unfoldable pub offer_label : ℕ → LabelId → Search → Search
offer_label hop l s =
    if mem l s.visited
    then s
    else record s { visited = l ∷ s.visited; queue = s.queue ++ (l, suc hop) ∷ [] }

-- The loop over `e_labels`.
unfoldable pub offer_labels : ℕ → List LabelId → Search → Search
offer_labels hop [] s = s
offer_labels hop (l ∷ ls) s = offer_labels hop ls (offer_label hop l s)

-- Every label is enqueued once, so the labels that entities carry bound the rounds.
abbrev pub label_total : Dict ℕ (List LabelId) → ℕ
label_total [] = 0
label_total ((e, ls) ∷ m) = length ls + label_total m

module _ {F D : Type 0} (g : GraphInner F D) (max_hops : ℕ) where
  -- What follows the discovery of an entity.
  unfoldable pub expand : ℕ → ℕ → Search → Search
  expand hop eid s =
      if ltb hop max_hops
      then elim (Dict.lookup eid g.entity_labels) [ none ↦ s | some ls ↦ offer_labels hop ls s ]
      else s

  -- `if result_entities.insert(eid) { .. }`.
  unfoldable pub offer_entity : ℕ → ℕ → Search → Search
  offer_entity hop eid s =
      if mem eid s.found then s else expand hop eid (record s { found = eid ∷ s.found })

  -- The loop over `entities`.
  unfoldable pub offer_entities : ℕ → List ℕ → Search → Search
  offer_entities hop [] s = s
  offer_entities hop (e ∷ es) s = offer_entities hop es (offer_entity hop e s)

  -- The body of the `while`, after the two tests that break.
  unfoldable pub visit : LabelId → ℕ → Search → Search
  visit label hop s = elim (Dict.lookup label g.label_entities) [
    | none ↦ s
    | some es ↦ offer_entities hop es s
  ]

  -- `clock k` is the k-th reading after the one that sets the deadline.
  unfoldable pub loop : (ℕ → ℕ) → ℕ → ℕ → ℕ → Search → Outcome Search
  loop clock deadline zero k s = elim s.queue [ [] ↦ done s | x ∷ rest ↦ out_of_fuel ]
  loop clock deadline (suc fuel) k s = elim s.queue [
    | [] ↦ done s
    | (label, hop) ∷ rest ↦
        let popped = record s { queue = rest } in
        let more = loop clock deadline fuel (suc k) (visit label hop popped) in
        if leb deadline (clock k)
        then done popped
        else if ltb max_hops hop
        then done popped
        else more
  ]

  abbrev pub start : LabelId → Search
  start start_label = record {
    visited = start_label ∷ [];
    found = [];
    queue = (start_label, 0) ∷ [];
  }

  -- 100 µs, in nanoseconds, after the first reading.
  unfoldable pub spreading_activation : (ℕ → ℕ) → LabelId → Outcome (List ℕ)
  spreading_activation clock start_label =
      map_outcome (λ s. s.found)
        (loop (λ k. clock (suc k)) (clock 0 + 100_000) (suc (label_total g.entity_labels)) 0
          (start start_label))
