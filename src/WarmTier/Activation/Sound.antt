-- ===== src/WarmTier/Activation/Sound.antt =====
-- Whatever the clock says, the traversal finds only entities within the hops.
use atlas_hpc.Base.{
  ℕ, zero, suc, ◌≤◌, ◌≡◌, refl, sym, subst, List, [], ◌∷◌, nat_eq, mem, In, In-append, Bool-cases,
  List-cases, inl, inr, arith, ltb, leb, ltb→lt,
}
use atlas_hpc.Base.Outcome.{done, map_outcome-eq-done}
use atlas_hpc.Types.Label.{LabelId, label_eq}
use atlas_hpc.WarmTier.Graph.{GraphInner}
use atlas_hpc.WarmTier.Graph.Tagging.{labels_of, entities_of}
use atlas_hpc.WarmTier.Activation.{
  Search, offer_label, offer_labels, offer_entity, offer_entities, visit, loop, start,
  spreading_activation,
}
use atlas_hpc.WarmTier.Activation.Scan.{expand_lem, visit_lem}
use atlas_hpc.WarmTier.Activation.Paths.{Reached, here, hop, Within}

-- An invariant that a round keeps, and that dropping the front of the queue keeps, holds at the end.
pub loop_rule {ℓ} :
    {F D : Type 0} (g : GraphInner F D) (max_hops : ℕ) (P : Search → Type ℓ)
    → ((s : Search) (l : LabelId) (h : ℕ) (rest : List (LabelId × ℕ))
        → s.queue ≡ (l, h) ∷ rest
        → P s
        → P (record s { queue = rest }) × P (visit g max_hops l h (record s { queue = rest })))
    → (clock : ℕ → ℕ) (deadline fuel k : ℕ) (s t : Search) → P s
    → loop g max_hops clock deadline fuel k s ≡ done t
    → P t
unfolding loop
loop_rule g max_hops P keep clock deadline zero k s t p e = elim (List-cases s.queue) [
  | inl empty ↦ subst P (ground arith) p
  | inr (x, rest, q) ↦ absurd (ground arith)
]
loop_rule g max_hops P keep clock deadline (suc fuel) k s t p e = elim (List-cases s.queue) [
  | inl empty ↦ subst P (ground arith) p
  | inr ((l, h), rest, q) ↦
      let (dropped, next) = keep s l h rest q p in
      let popped = record s { queue = rest } in
      elim (Bool-cases (leb deadline (clock k))) [
        | inl late ↦ subst P (ground arith) dropped
        | inr early ↦ elim (Bool-cases (ltb max_hops h)) [
          | inl far ↦ subst P (ground arith) dropped
          | inr near ↦
              loop_rule g max_hops P keep clock deadline fuel (suc k) (visit g max_hops l h popped)
                t next (ground arith)
        ]
      ]
]

module _ {F D : Type 0} (g : GraphInner F D) (max_hops : ℕ) (first : LabelId) where
  pub record IsSound (s : Search) : Type 0 where
    pub queued : (l : LabelId) (h : ℕ) → In (l, h) s.queue → Reached g first h l × (h ≤ max_hops)
    pub found : (e : ℕ) → In e s.found → Within g first max_hops e

  module _ (h : ℕ) where
    offer_label-IsSound :
        (l : LabelId) (s : Search)
        → Reached g first (suc h) l
        → suc h ≤ max_hops
        → IsSound s
        → IsSound (offer_label h l s)
    unfolding offer_label
    offer_label-IsSound l s r le i = elim (Bool-cases (mem l s.visited)) [
      | inl seen ↦ rw (seen, offer_label) i
      | inr new ↦
          rw (new, offer_label)
            (record {
              queued = λ j k q. elim ((In-append (j, k) s.queue ((l, suc h) ∷ [])).0 q) [
                | inl old ↦ i.queued j k old
                | inr added ↦ elim added [
                  | inl p ↦
                      subst (λ (x : LabelId × ℕ). Reached g first x.1 x.0 × (x.1 ≤ max_hops))
                        (sym p) (r, le)
                  | inr none_left ↦ absurd none_left
                ]
              ];
              found = i.found;
            })
    ]

    offer_labels-IsSound :
        (ls : List LabelId) (s : Search)
        → ((l : LabelId) → In l ls → Reached g first (suc h) l)
        → suc h ≤ max_hops
        → IsSound s
        → IsSound (offer_labels h ls s)
    unfolding offer_labels
    offer_labels-IsSound [] s r le i = i
    offer_labels-IsSound (l ∷ ls) s r le i =
        offer_labels-IsSound ls (offer_label h l s) (λ j q. r j (inr q)) le
          (offer_label-IsSound l s (r l (inl refl)) le i)

    module _ (label : LabelId) (reached : Reached g first h label) (near : h ≤ max_hops) where
      offer_entity-IsSound :
          (e : ℕ) (s : Search)
          → In e (entities_of g label)
          → IsSound s
          → IsSound (offer_entity g max_hops h e s)
      unfolding offer_entity
      offer_entity-IsSound e s under i = elim (Bool-cases (mem e s.found)) [
        | inl old ↦ rw (old, offer_entity) i
        | inr new ↦
            let t = record s { found = e ∷ s.found } in
            let u : IsSound t = record {
              queued = i.queued;
              found = λ x q. elim q [
                | inl p ↦ subst (Within g first max_hops) (sym p) (h, label, near, reached, under)
                | inr old ↦ i.found x old
              ];
            } in
            rw (new, offer_entity, expand_lem g max_hops h e t)
              (elim (Bool-cases (ltb h max_hops)) [
                | inl deeper ↦ rw deeper (
                    offer_labels-IsSound (labels_of g e) t (λ l q. hop e l reached under q)
                      (ltb→lt h max_hops deeper) u)
                | inr last ↦ rw last u
              ])
      ]

      offer_entities-IsSound :
          (es : List ℕ) (s : Search)
          → ((e : ℕ) → In e es → In e (entities_of g label))
          → IsSound s
          → IsSound (offer_entities g max_hops h es s)
      unfolding offer_entities
      offer_entities-IsSound [] s under i = i
      offer_entities-IsSound (e ∷ es) s under i =
          offer_entities-IsSound es (offer_entity g max_hops h e s) (λ x q. under x (inr q))
            (offer_entity-IsSound e s (under e (inl refl)) i)

  pub round-IsSound :
      (s : Search) (l : LabelId) (h : ℕ) (rest : List (LabelId × ℕ))
      → s.queue ≡ (l, h) ∷ rest
      → IsSound s
      → IsSound (record s { queue = rest })
        × IsSound (visit g max_hops l h (record s { queue = rest }))
  round-IsSound s l h rest q i =
      let popped = record s { queue = rest } in
      let in_queue = λ (x : LabelId × ℕ) (y : In x ((l, h) ∷ rest)). subst (In x) (sym q) y in
      let dropped : IsSound popped = record {
        queued = λ j k y. i.queued j k (in_queue (j, k) (inr y));
        found = i.found;
      } in
      let (reached, near) = i.queued l h (in_queue (l, h) (inl refl)) in
      (
        dropped,
        rw (visit_lem g max_hops h l popped)
            (offer_entities-IsSound h l reached near (entities_of g l) popped (λ e y. y) dropped),
      )

  pub start-IsSound : IsSound (start g max_hops first)
  start-IsSound = record {
    queued = λ l h q. elim q [
      | inl p ↦
          subst (λ (x : LabelId × ℕ). Reached g first x.1 x.0 × (x.1 ≤ max_hops)) (sym p)
            (here, omega arith)
      | inr gone ↦ absurd gone
    ];
    found = λ e i. absurd i;
  }

  -- Whatever the clock reads, every entity that `spreading_activation` returns stands under a label
  -- at most `max_hops` hops from the start label.
  pub activation_sound :
      (clock : ℕ → ℕ) (result : List ℕ)
      → spreading_activation g max_hops clock first ≡ done result
      → (e : ℕ) → In e result
      → Within g first max_hops e
  unfolding spreading_activation
  activation_sound clock result p e i =
      let (t, ran, same) = map_outcome-eq-done (λ (s : Search). s.found) _ result p in
      let sound =
        loop_rule g max_hops IsSound round-IsSound _ _ _ _ (start g max_hops first) t start-IsSound
          ran in
      sound.found e (subst (In e) (sym same) i)
