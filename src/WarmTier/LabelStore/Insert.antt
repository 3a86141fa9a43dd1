-- ===== src/WarmTier/LabelStore/Insert.antt =====
-- `insert` keeps the list linked and the index exact, and never panics.
use mathlib.Core.Option
use native.Mathlib.Numerals.{add-one}
use atlas_hpc.Base.{
  ℕ, ◌≡◌, none, some, [], ◌∷◌, ◌++◌, ◌==◌, nat_eq, length, get_elem?, if◌then◌else◌, Option-cases,
  inl, inr, arith, nat_beq, nat_beq_iff, length-append, length-modify, get_elem?-modify,
  get_elem?-concat, get_elem?-eq-none,
}
use atlas_hpc.Base.Dict
use atlas_hpc.Base.Dict.{Dict, Distinct}
use atlas_hpc.Base.Outcome.{done}
use atlas_hpc.Types.Label.{LabelId, label_eq, label_beq_iff}
use atlas_hpc.WarmTier.LabelStore.{LabelNode, LabelStore, push_id, insert}
use atlas_hpc.WarmTier.LabelStore.Linked.{before, IsLinked, entities, fresh, extended, pushed}

module _ (s : LabelStore) (l : LabelId) (e : ℕ) (h : IsLinked s) where
  -- What a read of the arena finds after each branch.
  read_extended :
      (i : ℕ)
      → get_elem? (extended s l e).arena i
        ≡ (if nat_beq (length s.arena) i then some (fresh s l e) else get_elem? s.arena i)
  read_extended i = get_elem?-concat s.arena (fresh s l e) i

  absent_end : get_elem? s.arena (length s.arena) ≡ none
  absent_end = get_elem?-eq-none s.arena (length s.arena) (omega arith)

  extended-headed : (extended s l e).head ≡ before (length (extended s l e).arena)
  extended-headed = rw (length-append s.arena (fresh s l e ∷ [])) (simp add-one)

  extended-indexed :
      (j : LabelId) (i : ℕ)
      → Dict.lookup j (extended s l e).index ≡ some i
      → (n : LabelNode) × (get_elem? (extended s l e).arena i ≡ some n) × (n.label_id ≡ j)
  extended-indexed j i p = ground (
    arith,
    Dict.lookup-insert l (length s.arena) j s.index,
    label_beq_iff l j,
    h.indexed j i,
    read_extended i,
    absent_end,
    nat_beq_iff (length s.arena) i,
  )

  extended-covered :
      Dict.lookup l s.index ≡ none
      → (i : ℕ) (n : LabelNode) → get_elem? (extended s l e).arena i ≡ some n
      → Dict.lookup n.label_id (extended s l e).index ≡ some i
  extended-covered new i n p = ground (
    arith,
    Dict.lookup-insert l (length s.arena) n.label_id s.index,
    label_beq_iff l n.label_id,
    h.covered i n,
    read_extended i,
    nat_beq_iff (length s.arena) i,
  )

  extended-IsLinked : Dict.lookup l s.index ≡ none → IsLinked (extended s l e)
  extended-IsLinked new = record {
    linked = λ i n p.
        ground (arith, read_extended i, h.linked i n, nat_beq_iff (length s.arena) i, h.headed);
    headed = extended-headed;
    indexed = extended-indexed;
    covered = extended-covered new;
    counted = ground (
      arith,
      Dict.length-insert l (length s.arena) s.index,
      length-append s.arena (fresh s l e ∷ []),
      h.counted,
    );
  }

  extended-entities :
      Dict.lookup l s.index ≡ none
      → (j : LabelId)
      → entities (extended s l e) j ≡ (if l == j then some (e ∷ []) else entities s j)
  unfolding entities
  extended-entities new j = elim (Option-cases (Dict.lookup j s.index)) [
    | inl none_j ↦ ground (
      arith,
      Dict.lookup-insert l (length s.arena) j s.index,
      read_extended (length s.arena),
      nat_beq_iff (length s.arena) (length s.arena),
      label_beq_iff l j,
    )
    | inr (i, found) ↦ ground (
      arith,
      Dict.lookup-insert l (length s.arena) j s.index,
      read_extended i,
      nat_beq_iff (length s.arena) i,
      h.indexed j i found,
      absent_end,
      label_beq_iff l j,
    )
  ]

  module _ (i : ℕ) (found : Dict.lookup l s.index ≡ some i) where
    read_pushed :
        (j : ℕ)
        → get_elem? (pushed s i e).arena j ≡ (
            if nat_beq i j
            then Option.map (push_id e) (get_elem? s.arena j)
            else get_elem? s.arena j)
    read_pushed j = get_elem?-modify s.arena i (push_id e) j

    pushed-IsLinked : IsLinked (pushed s i e)
    pushed-IsLinked = record {
      linked = λ j n p. elim (Option-cases (get_elem? s.arena j)) [
        | inl gone ↦ ground (arith, read_pushed j)
        | inr (n', old) ↦ ground (arith, read_pushed j, h.linked j n' old)
      ];
      headed = rw (length-modify s.arena i (push_id e)) h.headed;
      indexed = λ k j p. ground (arith, read_pushed j, h.indexed k j p);
      covered = λ j n p. elim (Option-cases (get_elem? s.arena j)) [
        | inl gone ↦ ground (arith, read_pushed j)
        | inr (n', old) ↦ ground (arith, read_pushed j, h.covered j n' old)
      ];
      counted = rw (length-modify s.arena i (push_id e)) h.counted;
    }

    pushed-entities :
        (j : LabelId)
        → entities (pushed s i e) j
          ≡ (if l == j then Option.map (λ es. es ++ e ∷ []) (entities s j) else entities s j)
    unfolding entities
    pushed-entities j = elim (Option-cases (Dict.lookup j s.index)) [
      | inl none_j ↦ ground (arith, label_beq_iff l j)
      | inr (k, found_j) ↦ ground (
        arith,
        read_pushed k,
        nat_beq_iff i k,
        h.indexed j k found_j,
        h.indexed l i found,
        label_beq_iff l j,
      )
    ]

pub unseen : (s : LabelStore) (l : LabelId) → Dict.lookup l s.index ≡ none → entities s l ≡ none
unfolding entities
unseen s l new = ground arith

pub seen :
    (s : LabelStore) (l : LabelId) (i : ℕ) (n : LabelNode)
    → Dict.lookup l s.index ≡ some i
    → get_elem? s.arena i ≡ some n
    → entities s l ≡ some n.entity_ids
unfolding entities
seen s l i n found there = ground arith

-- On a linked store `insert` never panics, keeps the store linked, and appends the entity to the
-- entities of its label and of no other.
pub insert_lem :
    (s : LabelStore) (l : LabelId) (e : ℕ)
    → IsLinked s
    → (s' : LabelStore) × (insert l e s ≡ done s')
      × IsLinked s'
      × ((j : LabelId)
          → entities s' j
            ≡ (if l == j then some (Option.get_or (entities s l) [] ++ e ∷ []) else entities s j))
unfolding insert
insert_lem s l e h = elim (Option-cases (Dict.lookup l s.index)) [
  | inl new ↦ (
    extended s l e,
    ground arith,
    extended-IsLinked s l e h new,
    λ j. ground (arith, extended-entities s l e h new j, unseen s l new),
  )
  | inr (i, found) ↦
      let (n, there, _) = h.indexed l i found in
      (
        pushed s i e,
        ground arith,
        pushed-IsLinked s l e h i found,
        λ j.
            ground (
              arith,
              pushed-entities s l e h i found j,
              seen s l i n found there,
              label_beq_iff l j,
            ),
      )
]
