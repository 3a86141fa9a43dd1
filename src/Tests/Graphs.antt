-- ===== src/Tests/Graphs.antt =====
-- The label store, the causal graph and spreading activation on small graphs.
use mathlib.Core.Option
use atlas_hpc.Base.{
  ltb, ℕ, ◌*◌, subst, sym, ◌∙◌, ◌≤◌, ◌≡◌, ◌↔◌, refl, inl, some, List, [], ◌∷◌, ◌++◌, ◌==◌, nat_eq,
  In, length, arith, if◌then◌else◌,
}
use atlas_hpc.Base.Dict
use atlas_hpc.Base.Dict.{Dict, Distinct}
use atlas_hpc.Base.Fixed.{ℤ, pos, fixed}
use atlas_hpc.Base.Outcome.{done, ◌>>=◌}
use atlas_hpc.Harness.Labels.{both, tag_from, tag_from-start}
use atlas_hpc.Types.Label.{LabelId, label_eq, label}
use atlas_hpc.WarmTier.LabelStore
use atlas_hpc.WarmTier.LabelStore.{LabelNode, LabelStore, no_node}
use atlas_hpc.WarmTier.LabelStore.Insert.{insert_lem}
use atlas_hpc.WarmTier.LabelStore.Linked.{
  IsLinked, entities, empty-IsLinked, entities_for_label_lem,
}
use atlas_hpc.WarmTier.LabelStore.Traverse.{traverse_all_lem}
use atlas_hpc.WarmTier.Graph.{GraphInner, new_graph, tag_entity}
use atlas_hpc.WarmTier.Graph.Tagging.{
  labels_of, IsConsistent, new_graph-IsConsistent, tag_entity_lem,
}
use atlas_hpc.WarmTier.Graph.Window.{last, samples_of, returns_of, record_all, record_all_lem}
use atlas_hpc.WarmTier.Activation.{
  spreading_activation, loop, visit, offer_entities, offer_entity, expand, offer_labels,
  offer_label,
}
use atlas_hpc.WarmTier.Activation.Paths.{Within}
use atlas_hpc.WarmTier.Activation.Sound.{activation_sound}
use atlas_hpc.WarmTier.Activation.Ends.{activation_ends}
use atlas_hpc.WarmTier.Activation.Complete.{activation_exact}
use atlas_hpc.WarmTier.Activation.Unordered.{answer, tags_commute}

-- Entity 1 joins the labels 1 and 2, entity 2 the labels 2 and 3, entity 3 is under label 3.
abbrev pub chain : GraphInner ℤ ℤ
chain = record new_graph {
  entity_labels =
      (1, label 1 ∷ label 2 ∷ []) ∷ (2, label 2 ∷ label 3 ∷ []) ∷ (3, label 3 ∷ []) ∷ [];
  label_entities = (label 1, 1 ∷ []) ∷ (label 2, 1 ∷ 2 ∷ []) ∷ (label 3, 2 ∷ 3 ∷ []) ∷ [];
}

abbrev pub stopped_clock : ℕ → ℕ
stopped_clock k = 0

one_hop : spreading_activation chain 1 stopped_clock (label 1) ≡ done (2 ∷ 1 ∷ [])
unfolding spreading_activation loop visit offer_entities offer_entity expand offer_labels
    offer_label Dict.lookup
one_hop = refl

activation_exact_example :
    (result : List ℕ) × (spreading_activation chain 1 stopped_clock (label 1) ≡ done result)
    × ((e : ℕ) → In e result ↔ Within chain (label 1) 1 e)
activation_exact_example = activation_exact chain 1 (label 1) stopped_clock (λ k. omega arith)

activation_sound_example : Within chain (label 1) 1 2
activation_sound_example =
    activation_sound chain 1 (label 1) stopped_clock (2 ∷ 1 ∷ []) one_hop 2 (inl refl)

activation_ends_example :
    (result : List ℕ) × (spreading_activation chain 1 (λ k. 60_000 * k) (label 1) ≡ done result)
activation_ends_example = activation_ends chain 1 (λ k. 60_000 * k) (label 1)

-- A store with one label and one entity.
abbrev one_label : LabelStore
one_label = record {
  arena = (record { label_id = label 5; next = no_node; entity_ids = 4 ∷ [] }) ∷ [];
  index = (label 5, 0) ∷ [];
  head = 0;
}

insert_lem_example :
    (s' : LabelStore) × (LabelStore.insert (label 5) 4 LabelStore.empty ≡ done s')
    × IsLinked s'
    × ((j : LabelId)
        → entities s' j ≡ (
            if label 5 == j
            then some (Option.get_or (entities LabelStore.empty (label 5)) [] ++ 4 ∷ [])
            else entities LabelStore.empty j))
insert_lem_example = insert_lem LabelStore.empty (label 5) 4 empty-IsLinked

entities_for_label_lem_example :
    LabelStore.entities_for_label (label 5) LabelStore.empty
    ≡ done (entities LabelStore.empty (label 5))
entities_for_label_lem_example = entities_for_label_lem LabelStore.empty (label 5) empty-IsLinked

inserted : LabelStore.insert (label 5) 4 LabelStore.empty ≡ done one_label
unfolding LabelStore.insert Dict.lookup Dict.insert Dict.upsert
inserted = refl

one_label-IsLinked : IsLinked one_label
one_label-IsLinked =
    let (s', ran, linked, _) = insert_lem LabelStore.empty (label 5) 4 empty-IsLinked in
    let same : done s' ≡ done one_label = sym ran ∙ inserted in
    let e : s' ≡ one_label = cc in subst IsLinked e linked

traverse_all_lem_example :
    (r : List (LabelId × ℕ)) × (LabelStore.traverse_all one_label ≡ done r)
    × Distinct r
    × (length r ≡ LabelStore.label_count one_label)
    × ((l : LabelId) → Dict.lookup l r ≡ Option.map length (entities one_label l))
traverse_all_lem_example = traverse_all_lem one_label one_label-IsLinked (omega arith)

tag_entity_lem_example :
    (g' : GraphInner ℤ ℤ) × (tag_entity 4 (label 1 ∷ label 2 ∷ []) new_graph ≡ done g')
    × IsConsistent g'
    × ((x : ℕ)
        → labels_of g' x ≡ (
            if 4 == x
            then labels_of {F = ℤ} {D = ℤ} new_graph x ++ label 1 ∷ label 2 ∷ []
            else labels_of {F = ℤ} {D = ℤ} new_graph x))
    × (g' ≡ record new_graph {
      entity_labels = g'.entity_labels;
      label_entities = g'.label_entities;
      label_store = g'.label_store;
    })
tag_entity_lem_example = tag_entity_lem 4 (label 1 ∷ label 2 ∷ []) new_graph new_graph-IsConsistent

record_all_lem_example :
    let calls : List (ℕ × ℤ) = (4, pos 1) ∷ (5, pos 2) ∷ (4, pos 3) ∷ [] in
    (samples_of (record_all calls chain) 4 ≡ last 256 (samples_of chain 4 ++ returns_of 4 calls))
    × (length (samples_of (record_all calls chain) 4) ≤ 256)
unfolding Dict.lookup
record_all_lem_example =
    record_all_lem ((4, pos 1) ∷ (5, pos 2) ∷ (4, pos 3) ∷ []) chain (λ e. omega arith) 4

tag_from-start_example :
    (g : GraphInner ℤ ℤ) × (tag_from (λ (x : ℤ). x) 0 10_000 new_graph ≡ done g)
    × IsConsistent g
    × ((x : ℕ) → labels_of g x ≡ (if ltb x 10_000 then both x else []))
tag_from-start_example = tag_from-start (λ (x : ℤ). x) 10_000

-- Entity 1 is tagged before entity 2, and after it.
tags_commute_example :
    (one other : GraphInner ℤ ℤ) × ((tag_entity 1 (label 1 ∷ label 2 ∷ []) new_graph >>= λ x.
    tag_entity 2 (label 2 ∷ []) x)
      ≡ done one)
    × ((tag_entity 2 (label 2 ∷ []) new_graph >>= λ x. tag_entity 1 (label 1 ∷ label 2 ∷ []) x)
        ≡ done other)
    × (answer one 2 stopped_clock (label 1) ≡ answer other 2 stopped_clock (label 1))
tags_commute_example =
    tags_commute new_graph new_graph-IsConsistent 1 2 (label 1 ∷ label 2 ∷ []) (label 2 ∷ []) 2
      (label 1) stopped_clock (λ k. omega arith)
