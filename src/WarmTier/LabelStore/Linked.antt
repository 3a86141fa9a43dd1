-- ===== src/WarmTier/LabelStore/Linked.antt =====
-- `LabelStore` (crates/warm-tier/src/lib.rs): the list of nodes is linked through the arena.
use mathlib.Core.Option
use atlas_hpc.Base.{
  ℕ, zero, suc, ◌≡◌, refl, Option, none, some, List, [], ◌∷◌, ◌++◌, nat_eq, length, get_elem?,
  modify, Option-cases, inl, inr, arith,
}
use atlas_hpc.Base.Dict
use atlas_hpc.Base.Dict.{Dict, Distinct}
use atlas_hpc.Base.Outcome.{done}
use atlas_hpc.Types.Label.{LabelId, label_eq}
use atlas_hpc.WarmTier.LabelStore.{
  LabelNode, LabelStore, no_node, empty, push_id, entities_for_label,
}

-- The node before place `i` in the arena, which is the next of the list.
abbrev pub before : ℕ → ℕ
before zero = no_node
before (suc i) = i

pub record IsLinked (s : LabelStore) : Type 0 where
  pub linked : (i : ℕ) (n : LabelNode) → get_elem? s.arena i ≡ some n → n.next ≡ before i
  pub headed : s.head ≡ before (length s.arena)
  pub indexed :
      (l : LabelId) (i : ℕ)
      → Dict.lookup l s.index ≡ some i
      → (n : LabelNode) × (get_elem? s.arena i ≡ some n) × (n.label_id ≡ l)
  pub covered :
      (i : ℕ) (n : LabelNode)
      → get_elem? s.arena i ≡ some n
      → Dict.lookup n.label_id s.index ≡ some i
  pub counted : length s.index ≡ length s.arena

pub empty-IsLinked : IsLinked empty
unfolding Dict.lookup
empty-IsLinked = record {
  linked = λ i n h. cc;
  headed = refl;
  indexed = λ l i h. cc;
  covered = λ i n h. cc;
  counted = refl;
}

-- The entities of a label, read through the index.
unfoldable pub entities : LabelStore → LabelId → Option (List ℕ)
entities s l = elim (Dict.lookup l s.index) [
  | none ↦ none
  | some i ↦ Option.map (λ n. n.entity_ids) (get_elem? s.arena i)
]

-- `entities_for_label` never panics on a linked store.
pub entities_for_label_lem :
    (s : LabelStore) (l : LabelId) → IsLinked s → entities_for_label l s ≡ done (entities s l)
unfolding entities_for_label entities
entities_for_label_lem s l h = elim (Option-cases (Dict.lookup l s.index)) [
  | inl new ↦ ground arith
  | inr (i, found) ↦ ground (arith, h.indexed l i found)
]

-- The two branches of `insert`.
abbrev pub fresh : LabelStore → LabelId → ℕ → LabelNode
fresh s l e = record { label_id = l; next = s.head; entity_ids = e ∷ [] }

abbrev pub extended : LabelStore → LabelId → ℕ → LabelStore
extended s l e = record {
  arena = s.arena ++ fresh s l e ∷ [];
  index = Dict.insert l (length s.arena) s.index;
  head = length s.arena;
}

abbrev pub pushed : LabelStore → ℕ → ℕ → LabelStore
pushed s i e = record s { arena = modify s.arena i (push_id e) }
