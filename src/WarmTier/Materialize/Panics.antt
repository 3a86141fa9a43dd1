-- ===== src/WarmTier/Materialize/Panics.antt =====
-- When a call of `materialize_temporal_link` returns, and when its debug assertion stops it.
use atlas_hpc.Base.{
  ℕ, suc, ◌≤◌, ◌≡◌, ◌≢◌, refl, ◌∙◌, Bool, true, false, some, List, [], ◌∷◌, ◌++◌, ◌==◌, ==_iff,
  nat_eq, pair_eq, length, Bool-cases, inl, inr, arith,
}
use atlas_hpc.Base.Dict
use atlas_hpc.Base.Float.{Float, Narrow}
use atlas_hpc.Base.Outcome.{done, panic}
use atlas_hpc.Types.Label.{LabelId, label_eq}
use atlas_hpc.Types.Link.{TemporalLink, new_link}
use atlas_hpc.WarmTier.Graph.{GraphInner}
use atlas_hpc.WarmTier.Graph.Tagging.{labels_of}
use atlas_hpc.WarmTier.Graph.Window.{samples_of}
use atlas_hpc.WarmTier.Stats.{pearson_with_pvalue}
use atlas_hpc.WarmTier.Materialize.{
  candidates, commit, links_from, links_between, examine, examine_all, materialize_temporal_link,
}
use atlas_hpc.WarmTier.Materialize.Links.{materialize_cases}
use atlas_hpc.WarmTier.Materialize.Pairs.{examine_cases}

module _ {F D : Type 0} ⦃f : Float F⦄ ⦃d : Float D⦄ ⦃n : Narrow F D⦄ (debug : Bool)
    (now : ℕ → ℕ) where
  links_from_returns :
      (sl : LabelId) (r p : D) (cls : List LabelId) (links : List (TemporalLink F))
      → (debug ≡ true → f.lt (n.narrow p) (f.lit 5 2) ≡ true)
      → (out : List (TemporalLink F)) × (links_from debug now sl r p cls links ≡ done out)
  unfolding links_from new_link
  links_from_returns sl r p [] links ok = (links, refl)
  links_from_returns sl r p (cl ∷ cls) links ok = elim (Bool-cases (sl == cl)) [
    | inl same ↦ let (out, ran) = links_from_returns sl r p cls links ok in (out, ground arith)
    | inr other ↦
        let link : TemporalLink F = record {
          src = sl;
          dst = cl;
          p_value = n.narrow p;
          created_ns = now (length links);
          correlation_abs = n.narrow (d.abs r);
        } in
        let (out, ran) = links_from_returns sl r p cls (links ++ link ∷ []) ok in
        (out, elim (Bool-cases debug) [ inl t ↦ ground (arith, ok t) | inr release ↦ ground arith ])
  ]

  links_between_returns :
      (sls : List LabelId) (r p : D) (cls : List LabelId) (links : List (TemporalLink F))
      → (debug ≡ true → f.lt (n.narrow p) (f.lit 5 2) ≡ true)
      → (out : List (TemporalLink F)) × (links_between debug now sls r p cls links ≡ done out)
  unfolding links_between
  links_between_returns [] r p cls links ok = (links, refl)
  links_between_returns (sl ∷ sls) r p cls links ok =
      let (links', ran) = links_from_returns sl r p cls links ok in
      let (out, rest) = links_between_returns sls r p cls links' ok in (out, rw ran rest)

  module _ (src_id : ℕ) (before : GraphInner F D) (view : ℕ → GraphInner F D)
      (passes : (p : D)
        → d.lt p (d.lit 5 2) ≡ true
        → debug ≡ true
        → f.lt (n.narrow p) (f.lit 5 2) ≡ true) where
    examine_returns :
        (sls : List LabelId) (xs : List D) (c k : ℕ) (links : List (TemporalLink F))
        → (out : List (TemporalLink F)) × (examine debug now sls xs c (view k) links ≡ done out)
    examine_returns sls xs c k links =
        elim (examine_cases src_id before view debug now sls xs c k links) [
          | inl same ↦ (links, same)
          | inr (r, p, enough, computed, significant, e) ↦
              let (out, ran) =
                links_between_returns sls r p (labels_of (view k) c) links (passes p significant) in
              (out, e ∙ ran)
        ]

    examine_all_returns :
        (sls : List LabelId) (xs : List D) (k : ℕ) (cs : List ℕ) (links : List (TemporalLink F))
        → (out : List (TemporalLink F)) × (examine_all debug now sls xs view k cs links ≡ done out)
    unfolding examine_all
    examine_all_returns sls xs k [] links = (links, refl)
    examine_all_returns sls xs k (c ∷ cs) links =
        let (links', ran) = examine_returns sls xs c k links in
        let (out, rest) = examine_all_returns sls xs (suc k) cs links' in (out, rw ran rest)

    -- `materialize_temporal_link` returns if every p-value below 0.05 is still below 0.05 once
    -- narrowed to `f32`, or if the build has no debug assertions.
    pub materialize_returns :
        (order : List ℕ → List ℕ) (after : GraphInner F D)
        → (g' : GraphInner F D) × (materialize_temporal_link debug now order src_id before view
              after
            ≡ done g')
    materialize_returns order after =
        elim (materialize_cases src_id before view debug now order after) [
          | inl same ↦ (after, same)
          | inr (enough, e) ↦
              let (links, ran) =
                examine_all_returns (labels_of before src_id) (samples_of before src_id) 0
                  (order (candidates before src_id (labels_of before src_id) [])) [] in
              (commit links after, e ∙ rw ran)
        ]

module _ {F D : Type 0} ⦃f : Float F⦄ ⦃d : Float D⦄ ⦃n : Narrow F D⦄ (now : ℕ → ℕ) where
  links_between_panics :
      (sl cl : LabelId) (sls : List LabelId) (r p : D) (cls : List LabelId)
      → sl ≢ cl
      → f.lt (n.narrow p) (f.lit 5 2) ≡ false
      → links_between {F = F} true now (sl ∷ sls) r p (cl ∷ cls) [] ≡ panic
  unfolding links_between links_from new_link
  links_between_panics sl cl sls r p cls ne rounded = ground (arith, ==_iff sl cl)

  examine_panics :
      (sl cl : LabelId) (sls cls : List LabelId) (xs ys : List D) (c : ℕ) (r p : D)
      (g : GraphInner F D)
      → Dict.lookup c g.return_samples ≡ some ys
      → 10 ≤ length ys
      → pearson_with_pvalue xs ys ≡ some (r, p)
      → d.lt p (d.lit 5 2) ≡ true
      → Dict.lookup c g.entity_labels ≡ some (cl ∷ cls)
      → sl ≢ cl
      → f.lt (n.narrow p) (f.lit 5 2) ≡ false
      → examine true now (sl ∷ sls) xs c g [] ≡ panic
  unfolding examine
  examine_panics sl cl sls cls xs ys c r p g samples many computed below labels ne rounded =
      ground (arith, links_between_panics sl cl sls r p cls ne rounded)

  -- In a build with debug assertions `materialize_temporal_link` panics if the source and the first
  -- candidate that it examines have ten samples or more and first labels that differ, and their
  -- p-value is below 0.05 as an `f64` and no longer below 0.05 as an `f32`.
  pub materialize_panics :
      (order : List ℕ → List ℕ) (src_id c : ℕ) (cs : List ℕ) (before after : GraphInner F D)
      (view : ℕ → GraphInner F D) (sl cl : LabelId) (sls cls : List LabelId) (xs ys : List D)
      (r p : D)
      → Dict.lookup src_id before.entity_labels ≡ some (sl ∷ sls)
      → Dict.lookup src_id before.return_samples ≡ some xs
      → 10 ≤ length xs
      → order (candidates before src_id (sl ∷ sls) []) ≡ c ∷ cs
      → Dict.lookup c (view 0).return_samples ≡ some ys
      → 10 ≤ length ys
      → Dict.lookup c (view 0).entity_labels ≡ some (cl ∷ cls)
      → sl ≢ cl
      → pearson_with_pvalue xs ys ≡ some (r, p)
      → d.lt p (d.lit 5 2) ≡ true
      → f.lt (n.narrow p) (f.lit 5 2) ≡ false
      → materialize_temporal_link true now order src_id before view after ≡ panic
  unfolding materialize_temporal_link examine_all
  materialize_panics order src_id c cs before after view sl cl sls cls xs ys r p src_labels
        src_samples many first cand_samples many' cand_labels ne computed below rounded =
      let stopped =
        examine_panics sl cl sls cls xs ys c r p (view 0) cand_samples many' computed below
          cand_labels ne rounded in
      ground (arith, stopped)
