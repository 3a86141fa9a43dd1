-- ===== src/WarmTier/Activation/Ends.antt =====
-- The traversal ends within its fuel, whatever the clock says.
use mathlib.Core.Option
use atlas_hpc.Base.{
  ℕ, zero, suc, ◌+◌, ◌≤◌, ◌≡◌, refl, ap, false, not, List, [], ◌∷◌, ◌++◌, ◌==◌, ==_iff, nat_eq, mem,
  In, In-append, Bool-cases, List-cases, inl, inr, arith, ltb, leb, length, length-append, count,
}
use atlas_hpc.Base.Dict
use atlas_hpc.Base.Dict.{Dict}
use atlas_hpc.Base.Outcome.{done}
use atlas_hpc.Types.Label.{LabelId, label_eq, label_beq_iff}
use atlas_hpc.WarmTier.Graph.{GraphInner}
use atlas_hpc.WarmTier.Graph.Tagging.{labels_of, entities_of}
use atlas_hpc.WarmTier.Activation.{
  Search, offer_label, offer_labels, offer_entity, offer_entities, visit, loop, start, label_total,
  spreading_activation,
}
use atlas_hpc.WarmTier.Activation.Scan.{expand_lem, visit_lem}

-- All labels that the map holds.
abbrev all_labels : Dict ℕ (List LabelId) → List LabelId
all_labels [] = []
all_labels ((e, ls) ∷ m) = ls ++ all_labels m

length-all_labels : (m : Dict ℕ (List LabelId)) → length (all_labels m) ≡ label_total m
length-all_labels [] = refl
length-all_labels ((e, ls) ∷ m) =
    omega (arith, length-all_labels m, length-append ls (all_labels m))

-- The labels among `ls` that are not visited.
abbrev unseen : List LabelId → List LabelId → ℕ
unseen ls visited = count (λ l. not (mem l visited)) ls

unseen-le-length : (ls visited : List LabelId) → unseen ls visited ≤ length ls
unseen-le-length [] v = omega arith
unseen-le-length (l ∷ ls) v = ground (arith, unseen-le-length ls v)

unseen-cons : (ls v : List LabelId) (l : LabelId) → unseen ls (l ∷ v) ≤ unseen ls v
unseen-cons [] v l = omega arith
unseen-cons (j ∷ ls) v l = ground (arith, unseen-cons ls v l)

-- A visit of a new label leaves one less.
unseen-visit :
    (ls v : List LabelId) (l : LabelId)
    → In l ls
    → mem l v ≡ false
    → unseen ls (l ∷ v) + 1 ≤ unseen ls v
unseen-visit [] v l i new = absurd i
unseen-visit (j ∷ ls) v l (inl p) new =
    ground (arith, unseen-cons ls v l, ==_iff j l, label_beq_iff j l)
unseen-visit (j ∷ ls) v l (inr i) new = ground (arith, unseen-visit ls v l i new)

In-all_labels :
    (m : Dict ℕ (List LabelId)) (e : ℕ) (l : LabelId)
    → In l (Option.get_or (Dict.lookup e m) [])
    → In l (all_labels m)
unfolding Dict.lookup
In-all_labels [] e l i = i
In-all_labels ((k, ls) ∷ m) e l i = elim (Bool-cases (e == k)) [
  | inl same ↦ (In-append l ls (all_labels m)).1 (inl (rw same at i))
  | inr other ↦ (In-append l ls (all_labels m)).1 (inr (In-all_labels m e l (rw other at i)))
]

module _ {F D : Type 0} (g : GraphInner F D) (max_hops : ℕ) where
  -- A round takes one label off the queue, and enqueues only labels that it visits.
  abbrev work : Search → ℕ
  work s = length s.queue + unseen (all_labels g.entity_labels) s.visited

  module _ (h : ℕ) where
    offer_label-work :
        (l : LabelId) (s : Search)
        → In l (all_labels g.entity_labels)
        → work (offer_label h l s) ≤ work s
    unfolding offer_label
    offer_label-work l s i = elim (Bool-cases (mem l s.visited)) [
      | inl seen ↦ rw (seen, offer_label) (omega arith)
      | inr new ↦
          rw (new, offer_label)
            (omega (
              arith,
              unseen-visit (all_labels g.entity_labels) s.visited l i new,
              length-append s.queue ((l, suc h) ∷ []),
            ))
    ]

    offer_labels-work :
        (ls : List LabelId) (s : Search)
        → ((l : LabelId) → In l ls → In l (all_labels g.entity_labels))
        → work (offer_labels h ls s) ≤ work s
    unfolding offer_labels
    offer_labels-work [] s i = omega arith
    offer_labels-work (l ∷ ls) s i = omega (
      arith,
      offer_label-work l s (i l (inl refl)),
      offer_labels-work ls (offer_label h l s) (λ j q. i j (inr q)),
    )

    offer_entity-work : (e : ℕ) (s : Search) → work (offer_entity g max_hops h e s) ≤ work s
    unfolding offer_entity
    offer_entity-work e s =
        let t = record s { found = e ∷ s.found } in
        ground (
          arith,
          expand_lem g max_hops h e t,
          offer_labels-work (labels_of g e) t (λ l. In-all_labels g.entity_labels e l),
        )

    offer_entities-work :
        (es : List ℕ) (s : Search) → work (offer_entities g max_hops h es s) ≤ work s
    unfolding offer_entities
    offer_entities-work [] s = omega arith
    offer_entities-work (e ∷ es) s =
        omega (arith, offer_entity-work e s, offer_entities-work es (offer_entity g max_hops h e s))

    visit-work : (l : LabelId) (s : Search) → work (visit g max_hops l h s) ≤ work s
    visit-work l s = rw (visit_lem g max_hops h l s) (offer_entities-work (entities_of g l) s)

  loop_ends :
      (clock : ℕ → ℕ) (deadline fuel k : ℕ) (s : Search)
      → work s ≤ fuel
      → (t : Search) × (loop g max_hops clock deadline fuel k s ≡ done t)
  unfolding loop
  loop_ends clock deadline zero k s w = (s, ground arith)
  loop_ends clock deadline (suc fuel) k s w = elim (List-cases s.queue) [
    | inl empty ↦ (s, ground arith)
    | inr ((l, h), rest, q) ↦
        let popped = record s { queue = rest } in
        let smaller : work (visit g max_hops l h popped) ≤ fuel =
          omega (arith, visit-work h l popped, ap length q) in
        let (t, ran) =
          loop_ends clock deadline fuel (suc k) (visit g max_hops l h popped) smaller in
        elim (Bool-cases (leb deadline (clock k))) [
          | inl late ↦ (popped, ground arith)
          | inr early ↦ elim (Bool-cases (ltb max_hops h)) [
            | inl far ↦ (popped, ground arith)
            | inr near ↦ (t, ground arith)
          ]
        ]
  ]

  -- For every clock `spreading_activation` returns a result.
  pub activation_ends :
      (clock : ℕ → ℕ) (first : LabelId)
      → (result : List ℕ) × (spreading_activation g max_hops clock first ≡ done result)
  unfolding spreading_activation
  activation_ends clock first =
      let labels = all_labels g.entity_labels in
      let (t, ran) =
        loop_ends (λ k. clock (suc k)) (clock 0 + 100_000) (suc (label_total g.entity_labels)) 0
          (start g max_hops first)
          (omega
            (arith, unseen-le-length labels (first ∷ []), length-all_labels g.entity_labels)) in
      (t.found, rw ran)
