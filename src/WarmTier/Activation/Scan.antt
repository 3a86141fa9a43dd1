-- ===== src/WarmTier/Activation/Scan.antt =====
-- What one round of the traversal adds to the search.
use atlas_hpc.Base.{
  ℕ, ◌<◌, ◌≡◌, sym, subst, List, [], ◌∷◌, nat_eq, mem, mem_iff, In, if◌then◌else◌, Bool-cases,
  Option-cases, ◌⊎◌, ◌↔◌, inl, inr, arith, ltb, ltb→lt, lt→ltb,
}
use atlas_hpc.Base.Dict
use atlas_hpc.Types.Label.{LabelId, label_eq}
use atlas_hpc.WarmTier.Graph.{GraphInner}
use atlas_hpc.WarmTier.Graph.Tagging.{labels_of, entities_of}
use atlas_hpc.WarmTier.Activation.{
  Search, offer_labels, expand, offer_entity, offer_entities, visit,
}
use atlas_hpc.WarmTier.Activation.Grown.{
  Grows, Grows-refl, Grows-trans, offer_labels-Grows, offered, offer_labels_found,
}

module _ {F D : Type 0} (g : GraphInner F D) (max_hops hop : ℕ) where
  pub expand_lem :
      (e : ℕ) (s : Search)
      → expand g max_hops hop e s
        ≡ (if ltb hop max_hops then offer_labels hop (labels_of g e) s else s)
  unfolding expand offer_labels
  expand_lem e s = elim (Option-cases (Dict.lookup e g.entity_labels)) [
    | inl gone ↦ ground arith
    | inr (ls, there) ↦ ground arith
  ]

  expand-Grows : (e : ℕ) (s : Search) → Grows max_hops hop s (expand g max_hops hop e s)
  expand-Grows e s = elim (Bool-cases (ltb hop max_hops)) [
    | inl deeper ↦
        rw (expand_lem e s, deeper)
          (offer_labels-Grows max_hops hop (ltb→lt hop max_hops deeper) (labels_of g e) s)
    | inr last ↦ rw (expand_lem e s, last) (Grows-refl max_hops hop s)
  ]

  expand_found : (e : ℕ) (s : Search) → (expand g max_hops hop e s).found ≡ s.found
  expand_found e s = elim (Bool-cases (ltb hop max_hops)) [
    | inl deeper ↦ rw (expand_lem e s, deeper) (offer_labels_found max_hops hop (labels_of g e) s)
    | inr last ↦ rw (expand_lem e s, last)
  ]

  expanded :
      (e : ℕ) (s : Search) (l : LabelId)
      → hop < max_hops
      → In l (labels_of g e)
      → In l (expand g max_hops hop e s).visited
  expanded e s l deeper i =
      rw (expand_lem e s, lt→ltb hop max_hops deeper)
        (offered max_hops hop deeper (labels_of g e) s l i)

  -- The search with the entity found, before its labels are offered.
  abbrev discover : ℕ → Search → Search
  discover e s = record s { found = e ∷ s.found }

  discover-Grows : (e : ℕ) (s : Search) → Grows max_hops hop s (discover e s)
  discover-Grows e s = record {
    added = (Grows-refl max_hops hop s).added;
    kept = λ l i. i;
    fresh = λ l i. inl i;
    grown = λ x i. inr i;
  }

  offer_entity-Grows : (e : ℕ) (s : Search) → Grows max_hops hop s (offer_entity g max_hops hop e s)
  unfolding offer_entity
  offer_entity-Grows e s = elim (Bool-cases (mem e s.found)) [
    | inl old ↦ rw (old, offer_entity) (Grows-refl max_hops hop s)
    | inr new ↦
        rw (new, offer_entity)
          (Grows-trans max_hops hop s (discover e s) (expand g max_hops hop e (discover e s))
            (discover-Grows e s) (expand-Grows e (discover e s)))
  ]

  -- Exactly the offered entity is added to the found ones.
  offer_entity_found :
      (e : ℕ) (s : Search) (x : ℕ)
      → In x (offer_entity g max_hops hop e s).found ↔ ((x ≡ e) ⊎ In x s.found)
  unfolding offer_entity
  offer_entity_found e s x = elim (Bool-cases (mem e s.found)) [
    | inl old ↦
        rw (old, offer_entity)
          (
            inr,
            λ i. elim i [
              | inl p ↦ subst (λ y. In y s.found) (sym p) ((mem_iff e s.found).0 old)
              | inr i' ↦ i'
            ],
          )
    | inr new ↦ rw (new, offer_entity, expand_found e (discover e s)) (λ i. i, λ i. i)
  ]

  -- The labels of every found entity are visited.
  abbrev pub Closed : Search → Type 0
  Closed s = (e : ℕ) (l : LabelId) → In e s.found → In l (labels_of g e) → In l s.visited

  offer_entity-Closed :
      (e : ℕ) (s : Search) → hop < max_hops → Closed s → Closed (offer_entity g max_hops hop e s)
  unfolding offer_entity
  offer_entity-Closed e s deeper c x l i j = elim ((offer_entity_found e s x).0 i) [
    | inr before ↦ (offer_entity-Grows e s).kept l (c x l before j)
    | inl p ↦
        let carried : In l (labels_of g e) = subst (λ y. In l (labels_of g y)) p j in
        elim (Bool-cases (mem e s.found)) [
          | inl old ↦ (offer_entity-Grows e s).kept l (c e l ((mem_iff e s.found).0 old) carried)
          | inr new ↦ rw (new, offer_entity) (expanded e (discover e s) l deeper carried)
        ]
  ]

  pub offer_entities-Grows :
      (es : List ℕ) (s : Search) → Grows max_hops hop s (offer_entities g max_hops hop es s)
  unfolding offer_entities
  offer_entities-Grows [] s = Grows-refl max_hops hop s
  offer_entities-Grows (e ∷ es) s =
      let t = offer_entity g max_hops hop e s in
      Grows-trans max_hops hop s t (offer_entities g max_hops hop es t) (offer_entity-Grows e s)
        (offer_entities-Grows es t)

  pub offer_entities_found :
      (es : List ℕ) (s : Search) (x : ℕ)
      → In x (offer_entities g max_hops hop es s).found ↔ (In x es ⊎ In x s.found)
  unfolding offer_entities
  offer_entities_found [] s x = (inr, λ i. elim i [ inl h ↦ absurd h | inr h ↦ h ])
  offer_entities_found (e ∷ es) s x =
      ground (
        arith,
        offer_entity_found e s x,
        offer_entities_found es (offer_entity g max_hops hop e s) x,
      )

  pub offer_entities-Closed :
      (es : List ℕ) (s : Search)
      → hop < max_hops
      → Closed s
      → Closed (offer_entities g max_hops hop es s)
  unfolding offer_entities
  offer_entities-Closed [] s deeper c = c
  offer_entities-Closed (e ∷ es) s deeper c =
      offer_entities-Closed es (offer_entity g max_hops hop e s) deeper
        (offer_entity-Closed e s deeper c)

  -- A round offers the entities under its label.
  pub visit_lem :
      (l : LabelId) (s : Search)
      → visit g max_hops l hop s ≡ offer_entities g max_hops hop (entities_of g l) s
  unfolding visit offer_entities
  visit_lem l s = elim (Option-cases (Dict.lookup l g.label_entities)) [
    | inl gone ↦ ground arith
    | inr (es, there) ↦ ground arith
  ]
