-- ===== src/Harness/Labels.antt =====
-- src/main.rs: the causal graph at start-up, with two labels and 32 returns for each entity. `sin`
-- is a parameter; an index out of bounds panics.
use atlas_hpc.Base.{
  ℕ, zero, suc, ◌+◌, ◌%◌, ◌<◌, ◌≡◌, refl, ◌∙◌, ap, subst, none, some, List, [], ◌∷◌, ◌==◌, nat_eq,
  nat_beq_iff, length, get_elem?, get_or, ltb, if◌then◌else◌, arith, Bool-cases, inl, inr,
}
use atlas_hpc.Base.Dict
use atlas_hpc.Base.Float.{Float}
use atlas_hpc.Base.Outcome.{Outcome, done, panic, ◌>>=◌}
use atlas_hpc.Types.Label.{
  LabelId, l_crude_shock, l_rate_hike, l_earnings_surprise, l_geo_disruption, l_sec_filing,
  l_macro_release, l_credit_event, l_m_and_a,
}
use atlas_hpc.WarmTier.Graph.{GraphInner, new_graph, tag_entity, record_return}
use atlas_hpc.WarmTier.Graph.Tagging.{
  labels_of, IsConsistent, new_graph-IsConsistent, tag_entity_lem,
}

abbrev pub labels : List LabelId
labels =
    l_crude_shock ∷ l_rate_hike ∷ l_earnings_surprise ∷ l_geo_disruption ∷ l_sec_filing
    ∷ l_macro_release ∷ l_credit_event ∷ l_m_and_a ∷ []

-- `labels[i % 8]`.
unfoldable pub label_at : ℕ → Outcome LabelId
label_at i = elim (get_elem? labels (i % 8)) [ none ↦ panic | some l ↦ done l ]

-- The label that is found there.
unfoldable pub label_of : ℕ → LabelId
label_of i = get_or labels (i % 8) l_crude_shock

get_elem?-get_or :
    {A : Type 0} (xs : List A) (i : ℕ) (d : A)
    → i < length xs
    → get_elem? xs i ≡ some (get_or xs i d)
get_elem?-get_or [] i d h = absurd (omega arith)
get_elem?-get_or (x ∷ xs) zero d h = refl
get_elem?-get_or (x ∷ xs) (suc i) d h = get_elem?-get_or xs i d (omega arith)

label_at_lem : (i : ℕ) → label_at i ≡ done (label_of i)
unfolding label_at label_of
label_at_lem i =
    let found = get_elem?-get_or labels (i % 8) l_crude_shock (omega arith) in ground (arith, found)

-- The two labels of an entity.
abbrev pub both : ℕ → List LabelId
both x = label_of x ∷ label_of (x + 3) ∷ []

module _ {F D : Type 0} ⦃d : Float D⦄ (sin : D → D) where
  -- The loop over `j..j + n`.
  unfoldable pub seed_returns : ℕ → ℕ → ℕ → GraphInner F D → GraphInner F D
  seed_returns i j zero g = g
  seed_returns i j (suc n) g =
      let ret = sin (d.add (d.mul (d.of_ℕ i) (d.lit 1 3)) (d.mul (d.of_ℕ j) (d.lit 1 2))) in
      seed_returns i (suc j) n (record_return i ret g)

  -- The loop over `i..i + n`.
  unfoldable pub tag_from : ℕ → ℕ → GraphInner F D → Outcome (GraphInner F D)
  tag_from i zero g = done g
  tag_from i (suc n) g = do
    label1 ← label_at i
    label2 ← label_at (i + 3)
    g' ← tag_entity i (label1 ∷ label2 ∷ []) g
    tag_from (suc i) n (seed_returns i 0 32 g')

  seed_returns-IsConsistent :
      (i j n : ℕ) (g : GraphInner F D)
      → IsConsistent g
      → IsConsistent (seed_returns i j n g)
        × ((x : ℕ) → labels_of (seed_returns i j n g) x ≡ labels_of g x)
  unfolding seed_returns record_return
  seed_returns-IsConsistent i j zero g h = (h, λ x. refl)
  seed_returns-IsConsistent i j (suc n) g h =
      let ret = sin (d.add (d.mul (d.of_ℕ i) (d.lit 1 3)) (d.mul (d.of_ℕ j) (d.lit 1 2))) in
      seed_returns-IsConsistent i (suc j) n (record_return i ret g) (record {
        mirror = record { linked = h.mirror.linked; mirrored = h.mirror.mirrored };
        dual = h.dual;
      })

  tag_from_lem :
      (i n : ℕ) (g : GraphInner F D)
      → IsConsistent g
      → ((x : ℕ) → labels_of g x ≡ (if ltb x i then both x else []))
      → (g' : GraphInner F D) × (tag_from i n g ≡ done g')
        × IsConsistent g'
        × ((x : ℕ) → labels_of g' x ≡ (if ltb x (i + n) then both x else []))
  unfolding tag_from
  tag_from_lem i zero g h before =
      (g, refl, h, λ x. before x ∙ ap (λ k. if ltb x k then both x else []) (omega arith))
  tag_from_lem i (suc n) g h before =
      let (g1, ran, consistent, tagged, _) = tag_entity_lem i (both i) g h in
      let (consistent2, same) = seed_returns-IsConsistent i 0 32 g1 consistent in
      let (g', rest, end, found) = tag_from_lem (suc i) n (seed_returns i 0 32 g1) consistent2 (λ x.
        elim (Bool-cases (i == x)) [
          | inl here ↦
              let e : i ≡ x = (nat_beq_iff i x).0 here in
              ground (arith, same x, tagged x, before x, ap both e)
          | inr other ↦ ground (arith, same x, tagged x, before x, nat_beq_iff i x)
        ]) in
      (
        g',
        rw (label_at_lem i) (rw (label_at_lem (i + 3)) (rw ran rest)),
        end,
        λ x.
            let counted : suc i + n ≡ i + suc n = omega arith in
            subst (λ k. labels_of g' x ≡ (if ltb x k then both x else [])) counted (found x),
      )

  -- For any number of entities the loop of the start-up returns. It leaves a consistent graph, in
  -- which the entities below that number carry their two labels, and no other entity carries one.
  pub tag_from-start :
      (n : ℕ)
      → (g : GraphInner F D) × (tag_from 0 n new_graph ≡ done g)
        × IsConsistent g
        × ((x : ℕ) → labels_of g x ≡ (if ltb x n then both x else []))
  unfolding Dict.lookup
  tag_from-start n =
      let (g, ran, consistent, found) =
        tag_from_lem 0 n new_graph new_graph-IsConsistent (λ x. ground arith) in
      (g, ran, consistent, λ x. found x ∙ ap (λ k. if ltb x k then both x else []) (omega arith))
