-- ===== src/WarmTier/Activation/Unordered.antt =====
-- The answer of `CausalGraph::spreading_activation` (crates/warm-tier/src/lib.rs) as a set: it does
-- not depend on the order in which entities were tagged.
use mathlib.Core.Quot
use mathlib.Core.Quot.{Quot}
use atlas_hpc.Base.{
  ℕ, suc, ◌+◌, ◌<◌, ◌≡◌, ◌↔◌, sym, ◌∙◌, ap, subst, List, [], ◌∷◌, ◌++◌, count, ◌==◌, Eq, nat_eq,
  nat_beq_iff, In, In-append, if◌then◌else◌, arith, Bool-cases, ◌⊎◌, inl, inr,
}
use atlas_hpc.Base.Outcome.{Outcome, done, map_outcome, ◌>>=◌}
use atlas_hpc.Types.Label.{LabelId, label_eq}
use atlas_hpc.WarmTier.Graph.{GraphInner, tag_entity}
use atlas_hpc.WarmTier.Graph.Tagging.{labels_of, entities_of, IsConsistent, tag_entity_lem}
use atlas_hpc.WarmTier.Activation.{spreading_activation}
use atlas_hpc.WarmTier.Activation.Paths.{Reached, here, hop, Within}
use atlas_hpc.WarmTier.Activation.Complete.{activation_exact}

-- Two lists have the same elements.
abbrev pub SameElements : List ℕ → List ℕ → Type 0
SameElements xs ys = (e : ℕ) → In e xs ↔ In e ys

-- A `HashSet` of entities, in no order.
abbrev pub EntitySet : Type 0
EntitySet = Quot SameElements

In_count : {A : Type 0} ⦃q : Eq A⦄ (x : A) (xs : List A) → In x xs ↔ (0 < count (λ y. y == x) xs)
In_count x [] = (λ i. absurd i, λ h. absurd (omega arith))
In_count ⦃q⦄ x (y ∷ ys) = ground (arith, In_count x ys, q.beq_iff y x)

module _ {F D : Type 0} where
  -- The answer as a set.
  unfoldable pub answer : GraphInner F D → ℕ → (ℕ → ℕ) → LabelId → Outcome EntitySet
  answer g max_hops clock first = map_outcome Quot.mk (spreading_activation g max_hops clock first)

  -- Every entity carries the same labels.
  abbrev pub SameTags : GraphInner F D → GraphInner F D → Type 0
  SameTags g g' = (x : ℕ) (l : LabelId) → In l (labels_of g x) ↔ In l (labels_of g' x)

  -- On a consistent graph the tags say what stands under a label.
  under_iff :
      (g : GraphInner F D)
      → IsConsistent g
      → (x : ℕ) (l : LabelId) → In x (entities_of g l) ↔ In l (labels_of g x)
  under_iff g h x l =
      let a = In_count x (entities_of g l) in
      let b = In_count l (labels_of g x) in
      let e = h.dual x l in
      (λ i. b.1 (subst (λ k. 0 < k) e (a.0 i)), λ j. a.1 (subst (λ k. 0 < k) (sym e) (b.0 j)))

  module _ (g g' : GraphInner F D) (same : SameTags g g')
      (under : (x : ℕ) (l : LabelId) → In x (entities_of g l) → In x (entities_of g' l)) where
    Reached-same :
        {first : LabelId} {hops : ℕ} {l : LabelId}
        → Reached g first hops l
        → Reached g' first hops l
    Reached-same here = here
    Reached-same (hop e next r i j) = hop e next (Reached-same r) (under e _ i) ((same e next).0 j)

    Within-same :
        (first : LabelId) (max_hops e : ℕ) → Within g first max_hops e → Within g' first max_hops e
    Within-same first max_hops e (hops, l, le, r, i) = (hops, l, le, Reached-same r, under e l i)

  -- Two consistent graphs in which every entity carries the same labels give the same set, if no
  -- reading of either clock reaches its deadline: neither the order of the tags nor how often an
  -- entity was tagged matters.
  pub answer-unordered :
      (g g' : GraphInner F D)
      → IsConsistent g
      → IsConsistent g'
      → SameTags g g'
      → (max_hops : ℕ) (first : LabelId) (clock clock' : ℕ → ℕ)
      → ((k : ℕ) → clock (suc k) < clock 0 + 100_000)
      → ((k : ℕ) → clock' (suc k) < clock' 0 + 100_000)
      → answer g max_hops clock first ≡ answer g' max_hops clock' first
  unfolding answer
  answer-unordered g g' h h' same max_hops first clock clock' early early' =
      let (xs, ran, exact) = activation_exact g max_hops first clock early in
      let (ys, ran', exact') = activation_exact g' max_hops first clock' early' in
      let back : SameTags g' g = λ x l. ((same x l).1, (same x l).0) in
      let under = λ (x : ℕ) (l : LabelId) (i : In x (entities_of g l)).
        (under_iff g' h' x l).1 ((same x l).0 ((under_iff g h x l).0 i)) in
      let under' = λ (x : ℕ) (l : LabelId) (i : In x (entities_of g' l)).
        (under_iff g h x l).1 ((same x l).1 ((under_iff g' h' x l).0 i)) in
      let equal : SameElements xs ys = λ e. (
        λ i. (exact' e).1 (Within-same g g' same under first max_hops e ((exact e).0 i)),
        λ i. (exact e).1 (Within-same g' g back under' first max_hops e ((exact' e).0 i)),
      ) in
      ap (map_outcome Quot.mk) ran
      ∙ ap done (Quot.sound equal)
      ∙ sym (ap (map_outcome Quot.mk) ran')

  tagged_iff :
      (e : ℕ) (ls : List LabelId) (g g' : GraphInner F D)
      → ((x : ℕ) → labels_of g' x ≡ (if e == x then labels_of g x ++ ls else labels_of g x))
      → (x : ℕ) (l : LabelId) → In l (labels_of g' x) ↔ (In l (labels_of g x) ⊎ ((e ≡ x) × In l ls))
  tagged_iff e ls g g' tags x l = elim (Bool-cases (e == x)) [
    | inl mine ↦
        let labels : labels_of g' x ≡ labels_of g x ++ ls = ground (arith, tags x) in
        rw labels (ground (arith, In-append l (labels_of g x) ls, nat_beq_iff e x))
    | inr other ↦
        let labels : labels_of g' x ≡ labels_of g x = ground (arith, tags x) in
        rw labels (ground (arith, nat_beq_iff e x))
  ]

  -- On a consistent graph two tags in either order succeed, and lead to the same set for every
  -- activation in which no reading of the clock reaches the deadline.
  pub tags_commute :
      (g : GraphInner F D)
      → IsConsistent g
      → (e e' : ℕ) (ls ls' : List LabelId) (max_hops : ℕ) (first : LabelId) (clock : ℕ → ℕ)
      → ((k : ℕ) → clock (suc k) < clock 0 + 100_000)
      → (one other : GraphInner F D) × ((tag_entity e ls g >>= λ x. tag_entity e' ls' x) ≡ done one)
        × ((tag_entity e' ls' g >>= λ x. tag_entity e ls x) ≡ done other)
        × (answer one max_hops clock first ≡ answer other max_hops clock first)
  tags_commute g h e e' ls ls' max_hops first clock early =
      let (a, ran_a, ok_a, tags_a, _) = tag_entity_lem e ls g h in
      let (one, ran_one, ok_one, tags_one, _) = tag_entity_lem e' ls' a ok_a in
      let (b, ran_b, ok_b, tags_b, _) = tag_entity_lem e' ls' g h in
      let (other, ran_other, ok_other, tags_other, _) = tag_entity_lem e ls b ok_b in
      let same : SameTags one other = λ x l. ground (
        arith,
        tagged_iff e ls g a tags_a x l,
        tagged_iff e' ls' a one tags_one x l,
        tagged_iff e' ls' g b tags_b x l,
        tagged_iff e ls b other tags_other x l,
      ) in
      (
        one,
        other,
        ap (λ o. o >>= λ x. tag_entity e' ls' x) ran_a ∙ ran_one,
        ap (λ o. o >>= λ x. tag_entity e ls x) ran_b ∙ ran_other,
        answer-unordered one other ok_one ok_other same max_hops first clock clock early early,
      )
