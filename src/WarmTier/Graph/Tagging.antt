-- ===== src/WarmTier/Graph/Tagging.antt =====
-- `tag_entity` keeps the two maps of labels dual to each other, and the label store equal to the
-- map of entities.
use mathlib.Core.Option
use atlas_hpc.Base.{
  ℕ, ◌+◌, ◌≡◌, refl, ap, some, List, [], ◌∷◌, ◌++◌, ◌==◌, nat_eq, count, count-append,
  if◌then◌else◌, arith, nat_beq_iff,
}
use atlas_hpc.Base.Dict
use atlas_hpc.Base.Dict.{Dict}
use atlas_hpc.Base.Outcome.{done}
use atlas_hpc.Types.Label.{LabelId, label_eq, label_beq_iff}
use atlas_hpc.WarmTier.LabelStore
use atlas_hpc.WarmTier.LabelStore.{LabelStore}
use atlas_hpc.WarmTier.LabelStore.Insert.{insert_lem}
use atlas_hpc.WarmTier.LabelStore.Linked.{IsLinked, empty-IsLinked, entities}
use atlas_hpc.WarmTier.Graph.{GraphInner, new_graph, tag_labels, tag_entity}

-- How often `e` stands under `l`, in either map.
abbrev pub times_under : ℕ → List ℕ → ℕ
times_under e = count (λ x. x == e)

abbrev pub times_carried : LabelId → List LabelId → ℕ
times_carried l = count (λ x. x == l)

module _ {F D : Type 0} where
  abbrev pub labels_of : GraphInner F D → ℕ → List LabelId
  labels_of g e = Option.get_or (Dict.lookup e g.entity_labels) []

  abbrev pub entities_of : GraphInner F D → LabelId → List ℕ
  entities_of g l = Option.get_or (Dict.lookup l g.label_entities) []

  -- The label store is linked, and lists what `label_entities` lists.
  pub record IsMirrored (g : GraphInner F D) : Type 0 where
    pub linked : IsLinked g.label_store
    pub mirrored : (l : LabelId) → entities g.label_store l ≡ Dict.lookup l g.label_entities

  -- The loop appends `e` to `l` as often as `l` stands in the argument.
  pub record Tagged (e : ℕ) (ls : List LabelId) (g g' : GraphInner F D) : Type 0 where
    pub mirror : IsMirrored g'
    pub under :
        (x : ℕ) (l : LabelId)
        → times_under x (entities_of g' l)
          ≡ times_under x (entities_of g l) + (if e == x then times_carried l ls else 0)
    pub others : g' ≡ record g { label_entities = g'.label_entities; label_store = g'.label_store }

  one_under :
      (x e : ℕ) (l j : LabelId) (g : GraphInner F D)
      → Dict.lookup j (Dict.upsert l [] (λ ids. ids ++ e ∷ []) g.label_entities)
        ≡ (if l == j then some (entities_of g l ++ e ∷ []) else Dict.lookup j g.label_entities)
      → times_under x (entities_of g l ++ e ∷ [])
        ≡ times_under x (entities_of g l) + times_under x (e ∷ [])
      → times_under x (
          Option.get_or
            (Dict.lookup j (Dict.upsert l [] (λ ids. ids ++ e ∷ []) g.label_entities))
            [])
        ≡ times_under x (entities_of g j) + (if e == x then times_carried j (l ∷ []) else 0)
  one_under x e l j g found counts = ground (arith, found, counts, label_beq_iff l j)

  -- The state after one round of the loop.
  abbrev put_label : ℕ → LabelId → LabelStore → GraphInner F D → GraphInner F D
  put_label e l s g = record g {
    label_entities = Dict.upsert l [] (λ ids. ids ++ e ∷ []) g.label_entities;
    label_store = s;
  }

  one_label :
      (e : ℕ) (l : LabelId) (g : GraphInner F D)
      → IsMirrored g
      → (s : LabelStore) × (LabelStore.insert l e g.label_store ≡ done s)
        × Tagged e (l ∷ []) g (put_label e l s g)
  one_label e l g h =
      let (s, ran, linked, reads) = insert_lem g.label_store l e h.linked in
      let found =
        λ (j : LabelId). Dict.lookup-upsert l [] (λ ids. ids ++ e ∷ []) j g.label_entities in
      let counts = λ (x : ℕ). count-append (λ y. y == x) (entities_of g l) (e ∷ []) in
      (
        s,
        ran,
        record {
          mirror = record {
            linked = linked;
            mirrored = λ j. ground (arith, reads j, found j, h.mirrored l, h.mirrored j);
          };
          under = λ x j. one_under x e l j g (found j) (counts x);
          others = refl;
        },
      )

  tag_labels_lem :
      (e : ℕ) (ls : List LabelId) (g : GraphInner F D)
      → IsMirrored g
      → (g' : GraphInner F D) × (tag_labels e ls g ≡ done g') × Tagged e ls g g'
  unfolding tag_labels
  tag_labels_lem e [] g h =
      (g, refl, record { mirror = h; under = λ x l. ground arith; others = refl })
  tag_labels_lem e (l ∷ ls) g h =
      let (s, ran, first) = one_label e l g h in
      let (g', rest_ran, rest) = tag_labels_lem e ls (put_label e l s g) first.mirror in
      (
        g',
        rw ran rest_ran,
        record {
          mirror = rest.mirror;
          under = λ x j. ground (arith, first.under x j, rest.under x j);
          others = rest.others;
        },
      )

  -- What the ingestor keeps: an entity stands under a label as often as it carries the label, and
  -- the label store is linked and lists what `label_entities` lists.
  pub record IsConsistent (g : GraphInner F D) : Type 0 where
    pub mirror : IsMirrored g
    pub dual :
        (x : ℕ) (l : LabelId) → times_under x (entities_of g l) ≡ times_carried l (labels_of g x)

  pub new_graph-IsConsistent : IsConsistent (new_graph {F = F} {D = D})
  unfolding Dict.lookup entities
  new_graph-IsConsistent = record {
    mirror = record { linked = empty-IsLinked; mirrored = λ l. refl };
    dual = λ x l. refl;
  }

  -- The carried labels after `tag_entity`.
  labels_after :
      (e x : ℕ) (ls : List LabelId) (l : LabelId) (g : GraphInner F D)
      → times_carried l
          (Option.get_or (Dict.lookup x (Dict.upsert e [] (λ old. old ++ ls) g.entity_labels)) [])
        ≡ times_carried l (labels_of g x) + (if e == x then times_carried l ls else 0)
  labels_after e x ls l g = ground (
    arith,
    Dict.lookup-upsert e [] (λ old. old ++ ls) x g.entity_labels,
    count-append (λ y. y == l) (labels_of g x) ls,
    nat_beq_iff e x,
  )

  -- On a consistent graph `tag_entity` never panics, appends the labels to those of the entity and
  -- of no other, leaves a consistent graph, and changes neither the links nor the samples nor the
  -- counters.
  pub tag_entity_lem :
      (e : ℕ) (ls : List LabelId) (g : GraphInner F D)
      → IsConsistent g
      → (g' : GraphInner F D) × (tag_entity e ls g ≡ done g')
        × IsConsistent g'
        × ((x : ℕ) → labels_of g' x ≡ (if e == x then labels_of g x ++ ls else labels_of g x))
        × (g' ≡ record g {
          entity_labels = g'.entity_labels;
          label_entities = g'.label_entities;
          label_store = g'.label_store;
        })
  unfolding tag_entity
  tag_entity_lem e ls g h =
      let (g1, ran, tagged) = tag_labels_lem e ls g h.mirror in
      let labels = Dict.upsert e [] (λ old. old ++ ls) g1.entity_labels in
      let same : g1.entity_labels ≡ g.entity_labels = ap (λ r. r.entity_labels) tagged.others in
      (
        record g1 { entity_labels = labels },
        rw ran,
        record {
          mirror = record { linked = tagged.mirror.linked; mirrored = tagged.mirror.mirrored };
          dual =
              λ x l. ground (arith, labels_after e x ls l g1, tagged.under x l, h.dual x l, same);
        },
        λ x. ground (
          arith,
          Dict.lookup-upsert e [] (λ old. old ++ ls) x g1.entity_labels,
          ap (λ (m : Dict ℕ (List LabelId)). Dict.lookup x m) same,
          nat_beq_iff e x,
        ),
        ap {A = GraphInner F D} (λ r. record r { entity_labels = labels }) tagged.others,
      )
