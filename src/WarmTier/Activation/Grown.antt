-- ===== src/WarmTier/Activation/Grown.antt =====
-- What the traversal (crates/warm-tier/src/lib.rs, `spreading_activation`) adds and never takes away:
-- the labels that are offered.
use mathlib.Core.List.{append_assoc, append-nil}
use atlas_hpc.Base.{
  ℕ, suc, ◌<◌, ◌≡◌, refl, sym, ap, ◌∙◌, subst, List, [], ◌∷◌, ◌++◌, nat_eq, mem, mem_iff, In,
  In-append, All, All-append, Bool-cases, ◌⊎◌, inl, inr, arith,
}
use atlas_hpc.Types.Label.{LabelId, label_eq}
use atlas_hpc.WarmTier.Activation.{Search, offer_label, offer_labels}

-- `s'` comes after `s` in a round at `hop`: it has what `s` has, and what is enqueued in between is
-- one hop further, and newly visited.
pub record Grows (max_hops hop : ℕ) (s s' : Search) : Type 0 where
  pub added :
      (new : List (LabelId × ℕ)) × (s'.queue ≡ s.queue ++ new)
      × All (λ x. (x.1 ≡ suc hop) × (hop < max_hops)) new
  pub kept : (l : LabelId) → In l s.visited → In l s'.visited
  pub fresh : (l : LabelId) → In l s'.visited → In l s.visited ⊎ In (l, suc hop) s'.queue
  pub grown : (e : ℕ) → In e s.found → In e s'.found

module _ (max_hops hop : ℕ) where
  pub Grows-refl : (s : Search) → Grows max_hops hop s s
  Grows-refl s = record {
    added = ([], sym (append-nil s.queue), tt);
    kept = λ l i. i;
    fresh = λ l i. inl i;
    grown = λ e i. i;
  }

  -- What is queued stays queued.
  pub Grows-queue :
      (s t : Search) (x : LabelId × ℕ) → Grows max_hops hop s t → In x s.queue → In x t.queue
  Grows-queue s t x a i = subst (In x) (sym a.added.1) ((In-append x s.queue a.added.0).1 (inl i))

  pub Grows-trans :
      (s t u : Search) → Grows max_hops hop s t → Grows max_hops hop t u → Grows max_hops hop s u
  Grows-trans s t u a b = record {
    added = (
      a.added.0 ++ b.added.0,
      b.added.1 ∙ ap (λ q. q ++ b.added.0) a.added.1 ∙ append_assoc s.queue a.added.0 b.added.0,
      All-append (λ x. (x.1 ≡ suc hop) × (hop < max_hops)) a.added.0 b.added.0 a.added.2 b.added.2,
    );
    kept = λ l i. b.kept l (a.kept l i);
    fresh = λ l i. elim (b.fresh l i) [
      | inl old ↦ elim (a.fresh l old) [
        | inl older ↦ inl older
        | inr queued ↦ inr (Grows-queue t u (l, suc hop) b queued)
      ]
      | inr queued ↦ inr queued
    ];
    grown = λ e i. b.grown e (a.grown e i);
  }

  module _ (deeper : hop < max_hops) where
    pub offer_label-Grows : (l : LabelId) (s : Search) → Grows max_hops hop s (offer_label hop l s)
    unfolding offer_label
    offer_label-Grows l s = elim (Bool-cases (mem l s.visited)) [
      | inl seen ↦ rw (seen, offer_label) (Grows-refl s)
      | inr new ↦
          rw (new, offer_label)
            (record {
              added = ((l, suc hop) ∷ [], refl, ((refl, deeper), tt));
              kept = λ j i. inr i;
              fresh = λ j i. elim i [
                | inl e ↦ inr (
                    (In-append (j, suc hop) s.queue ((l, suc hop) ∷ [])).1
                      (inr (inl (ap (λ x. (x, suc hop)) e))))
                | inr old ↦ inl old
              ];
              grown = λ e i. i;
            })
    ]

    pub offer_labels-Grows :
        (ls : List LabelId) (s : Search) → Grows max_hops hop s (offer_labels hop ls s)
    unfolding offer_labels
    offer_labels-Grows [] s = Grows-refl s
    offer_labels-Grows (l ∷ ls) s =
        Grows-trans s (offer_label hop l s) (offer_labels hop ls (offer_label hop l s))
          (offer_label-Grows l s) (offer_labels-Grows ls (offer_label hop l s))

    pub offered_now : (l : LabelId) (s : Search) → In l (offer_label hop l s).visited
    unfolding offer_label
    offered_now l s = elim (Bool-cases (mem l s.visited)) [
      | inl seen ↦ rw (seen, offer_label) ((mem_iff l s.visited).0 seen)
      | inr new ↦ rw (new, offer_label) (inl refl)
    ]

    -- Every label that is offered is visited then.
    pub offered :
        (ls : List LabelId) (s : Search) (l : LabelId)
        → In l ls
        → In l (offer_labels hop ls s).visited
    unfolding offer_labels
    offered [] s l i = absurd i
    offered (j ∷ ls) s l (inr i) = offered ls (offer_label hop j s) l i
    offered (j ∷ ls) s l (inl e) =
        (offer_labels-Grows ls (offer_label hop j s)).kept l
          (subst (λ x. In x (offer_label hop j s).visited) (sym e) (offered_now j s))

  pub offer_labels_found :
      (ls : List LabelId) (s : Search) → (offer_labels hop ls s).found ≡ s.found
  unfolding offer_labels offer_label
  offer_labels_found [] s = refl
  offer_labels_found (l ∷ ls) s = ground (arith, offer_labels_found ls (offer_label hop l s))
