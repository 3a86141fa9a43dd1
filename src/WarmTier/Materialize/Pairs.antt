-- ===== src/WarmTier/Materialize/Pairs.antt =====
-- The links between the labels of two entities (crates/warm-tier/src/lib.rs,
-- `materialize_temporal_link`): what justifies them.
use atlas_hpc.Base.{
  ℕ, ◌≤◌, ◌≡◌, ◌≢◌, refl, sym, ◌∙◌, subst, Bool, true, false, some, List, [], ◌∷◌, ◌++◌, ◌==◌,
  ==_iff, nat_eq, pair_eq, length, ltb, In, All, All-append, Bool-cases, Option-cases, ◌⊎◌, inl,
  inr, arith,
}
use atlas_hpc.Base.Dict
use atlas_hpc.Base.Dict.{Dict}
use atlas_hpc.Base.Float.{Float, Narrow}
use atlas_hpc.Base.Outcome.{Outcome, done, ◌>>=◌, >>=-eq-done}
use atlas_hpc.Types.Label.{LabelId, label_eq}
use atlas_hpc.Types.Link.{TemporalLink, new_link}
use atlas_hpc.WarmTier.Graph.{GraphInner}
use atlas_hpc.WarmTier.Graph.Tagging.{labels_of}
use atlas_hpc.WarmTier.Graph.Window.{samples_of}
use atlas_hpc.WarmTier.Stats.{pearson_with_pvalue}
use atlas_hpc.WarmTier.Materialize.{links_from, links_between, examine}
use atlas_hpc.WarmTier.Materialize.Candidates.{IsCandidate, list_at-lookup}

module _ {F D : Type 0} ⦃f : Float F⦄ ⦃d : Float D⦄ ⦃n : Narrow F D⦄ (src_id : ℕ)
    (before : GraphInner F D) (view : ℕ → GraphInner F D) where
  -- A candidate of the first state, examined in the state `view k`, whose returns correlate with
  -- those of `src_id` at p < 0.05, accounts for the link: its ends are two different labels, one of
  -- each entity, and it carries the p-value and |r| that were computed.
  pub record IsJustified (link : TemporalLink F) : Type 0 where
    pub candidate : ℕ
    pub k : ℕ
    pub r : D
    pub p : D
    pub shares : IsCandidate before src_id candidate
    pub enough : 10 ≤ length (samples_of before src_id)
    pub enough_too : 10 ≤ length (samples_of (view k) candidate)
    pub computed :
        pearson_with_pvalue (samples_of before src_id) (samples_of (view k) candidate) ≡ some (r, p)
    pub significant : d.lt p (d.lit 5 2) ≡ true
    pub carries_p : link.p_value ≡ n.narrow p
    pub carries_r : link.correlation_abs ≡ n.narrow (d.abs r)
    pub from_src : In link.src (labels_of before src_id)
    pub to_candidate : In link.dst (labels_of (view k) candidate)
    pub differ : link.src ≢ link.dst

  module _ (debug : Bool) (now : ℕ → ℕ) where
    -- The link between two labels that a call of `new_link` makes.
    abbrev pub made : LabelId → LabelId → D → D → ℕ → TemporalLink F
    made sl cl r p at = record {
      src = sl;
      dst = cl;
      p_value = n.narrow p;
      created_ns = at;
      correlation_abs = n.narrow (d.abs r);
    }

    abbrev pub make : LabelId → LabelId → D → D → ℕ → Outcome (TemporalLink F)
    make sl cl r p at = new_link debug sl cl (n.narrow p) (n.narrow (d.abs r)) at

    pub make-eq-done :
        (sl cl : LabelId) (r p : D) (at : ℕ) (link : TemporalLink F)
        → make sl cl r p at ≡ done link
        → made sl cl r p at ≡ link
    unfolding new_link
    make-eq-done sl cl r p at link h = ground arith

    pub links_from_skip :
        (sl cl : LabelId) (r p : D) (cls : List LabelId) (links : List (TemporalLink F))
        → (sl == cl) ≡ true
        → links_from debug now sl r p (cl ∷ cls) links ≡ links_from debug now sl r p cls links
    unfolding links_from
    links_from_skip sl cl r p cls links h = ground arith

    pub links_from_push :
        (sl cl : LabelId) (r p : D) (cls : List LabelId) (links : List (TemporalLink F))
        → (sl == cl) ≡ false
        → links_from debug now sl r p (cl ∷ cls) links ≡ (
            make sl cl r p (now (length links)) >>= λ link.
            links_from debug now sl r p cls (links ++ link ∷ []))
    unfolding links_from
    links_from_push sl cl r p cls links h = ground arith

    pub links_from_lem :
        (P : TemporalLink F → Type 0) (sl : LabelId) (r p : D) (cls : List LabelId)
        (links out : List (TemporalLink F))
        → ((cl : LabelId) (at : ℕ) → In cl cls → sl ≢ cl → P (made sl cl r p at))
        → All P links
        → links_from debug now sl r p cls links ≡ done out
        → All P out
    unfolding links_from
    links_from_lem P sl r p [] links out new old h = subst (All P) (cc) old
    links_from_lem P sl r p (cl ∷ cls) links out new old h = elim (Bool-cases (sl == cl)) [
      | inl same ↦
          links_from_lem P sl r p cls links out (λ c t q. new c t (inr q)) old
            (sym (links_from_skip sl cl r p cls links same) ∙ h)
      | inr other ↦
          let at = now (length links) in
          let (link, ran, rest) =
            >>=-eq-done (make sl cl r p at) _
              (sym (links_from_push sl cl r p cls links other) ∙ h) in
          let ne : sl ≢ cl = λ e. ground (arith, ==_iff sl cl) in
          let good : P link =
            subst P (make-eq-done sl cl r p at link ran) (new cl at (inl refl) ne) in
          links_from_lem P sl r p cls (links ++ link ∷ []) out (λ c t q. new c t (inr q))
            (All-append P links (link ∷ []) old (good, tt)) rest
    ]

    pub links_between_lem :
        (P : TemporalLink F → Type 0) (sls : List LabelId) (r p : D) (cls : List LabelId)
        (links out : List (TemporalLink F))
        → ((sl cl : LabelId) (at : ℕ) → In sl sls → In cl cls → sl ≢ cl → P (made sl cl r p at))
        → All P links
        → links_between debug now sls r p cls links ≡ done out
        → All P out
    unfolding links_between
    links_between_lem P [] r p cls links out new old h = subst (All P) (cc) old
    links_between_lem P (sl ∷ sls) r p cls links out new old h =
        let (links', ran, rest) = >>=-eq-done (links_from debug now sl r p cls links) _ h in
        links_between_lem P sls r p cls links' out (λ s c t i. new s c t (inr i))
          (links_from_lem P sl r p cls links links' (λ c t. new sl c t (inl refl)) old ran) rest

    -- A candidate is passed over, or its correlation is computed and is significant.
    pub examine_cases :
        (sls : List LabelId) (xs : List D) (c k : ℕ) (links : List (TemporalLink F))
        → (examine debug now sls xs c (view k) links ≡ done links)
          ⊎ ((r : D) × (p : D) × (10 ≤ length (samples_of (view k) c))
              × (pearson_with_pvalue xs (samples_of (view k) c) ≡ some (r, p))
              × (d.lt p (d.lit 5 2) ≡ true)
              × (examine debug now sls xs c (view k) links
                  ≡ links_between debug now sls r p (labels_of (view k) c) links))
    unfolding examine
    examine_cases sls xs c k links = elim (Option-cases (Dict.lookup c (view k).return_samples)) [
      | inl gone ↦ inl (ground arith)
      | inr (ys, there) ↦ elim (Bool-cases (ltb (length ys) 10)) [
        | inl few ↦ inl (ground arith)
        | inr many ↦ elim (Option-cases (pearson_with_pvalue xs ys)) [
          | inl flat ↦ inl (ground arith)
          | inr ((r, p), computed) ↦ elim (Bool-cases (d.lt p (d.lit 5 2))) [
            | inl significant ↦ inr (
              r,
              p,
              ground arith,
              ground arith,
              significant,
              ground (arith, list_at-lookup c (view k).entity_labels),
            )
            | inr weak ↦ inl (ground arith)
          ]
        ]
      ]
    ]
