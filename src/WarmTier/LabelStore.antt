-- ===== src/WarmTier/LabelStore.antt =====
-- crates/warm-tier/src/lib.rs: `LabelStore`, a linked list of labels in an arena. An index out of
-- bounds panics; `while` takes fuel.
pub mod Linked
pub mod Insert
pub mod Traverse
use mathlib.Core.Option
use atlas_hpc.Base.{
  ℕ, zero, suc, ◌-◌, ◌^◌, Bool, true, false, Option, none, some, List, [], ◌∷◌, ◌++◌, ◌==◌, nat_eq,
  length, get_elem?, modify, if◌then◌else◌,
}
use atlas_hpc.Base.Dict
use atlas_hpc.Base.Dict.{Dict}
use atlas_hpc.Base.Outcome.{Outcome, done, panic, out_of_fuel, ◌>>=◌}
use atlas_hpc.Types.Label.{LabelId, label_eq}

pub record LabelNode : Type 0 where
  pub label_id : LabelId
  pub next : ℕ
  pub entity_ids : List ℕ

pub record LabelStore : Type 0 where
  pub arena : List LabelNode
  pub index : Dict LabelId ℕ
  pub head : ℕ

-- `usize::MAX`, which ends the list.
abbrev pub no_node : ℕ
no_node = 2 ^ 64 - 1

-- `LabelStore::new`.
abbrev pub empty : LabelStore
empty = record { arena = []; index = []; head = no_node }

-- `self.arena[idx]`.
abbrev pub at : List LabelNode → ℕ → Outcome LabelNode
at arena idx = elim (get_elem? arena idx) [ none ↦ panic | some node ↦ done node ]

abbrev pub push_id : ℕ → LabelNode → LabelNode
push_id entity_id node = record node { entity_ids = node.entity_ids ++ entity_id ∷ [] }

unfoldable pub insert : LabelId → ℕ → LabelStore → Outcome LabelStore
insert label_id entity_id s = elim (Dict.lookup label_id s.index) [
  | some idx ↦ do
    _ ← at s.arena idx
    done (record s { arena = modify s.arena idx (push_id entity_id) })
  | none ↦
      let idx = length s.arena in
      let node : LabelNode = record {
        label_id = label_id;
        next = s.head;
        entity_ids = entity_id ∷ [];
      } in
      done (record {
        arena = s.arena ++ node ∷ [];
        index = Dict.insert label_id idx s.index;
        head = idx;
      })
]

unfoldable pub entities_for_label : LabelId → LabelStore → Outcome (Option (List ℕ))
entities_for_label label_id s = elim (Dict.lookup label_id s.index) [
  | none ↦ done none
  | some idx ↦ do node ← at s.arena idx; done (some node.entity_ids)
]

-- The loop of `traverse_all`, with the variables `result` and `cur`.
unfoldable pub walk : ℕ → List LabelNode → List (LabelId × ℕ) → ℕ → Outcome (List (LabelId × ℕ))
walk zero arena result cur = if cur == no_node then done result else out_of_fuel
walk (suc fuel) arena result cur = elim (cur == no_node) [
  | true ↦ done result
  | false ↦ do
    node ← at arena cur
    walk fuel arena (result ++ (node.label_id, length node.entity_ids) ∷ []) node.next
]

-- A round for each node is enough.
unfoldable pub traverse_all : LabelStore → Outcome (List (LabelId × ℕ))
traverse_all s = walk (length s.arena) s.arena [] s.head

unfoldable pub label_count : LabelStore → ℕ
label_count s = length s.index
