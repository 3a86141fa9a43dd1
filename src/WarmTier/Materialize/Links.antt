-- ===== src/WarmTier/Materialize/Links.antt =====
-- Which links a call of `materialize_temporal_link` writes.
use atlas_hpc.Base.{
  ℕ, suc, ◌≤◌, ◌≡◌, refl, sym, ◌∙◌, subst, Bool, some, List, [], ◌∷◌, nat_eq, pair_eq, length, ltb,
  In, All, In_of_All, Bool-cases, Option-cases, ◌⊎◌, inl, inr, arith,
}
use atlas_hpc.Base.Dict
use atlas_hpc.Base.Dict.{Dict}
use atlas_hpc.Base.Float.{Float, Narrow}
use atlas_hpc.Base.Outcome.{Outcome, done, ◌>>=◌, >>=-eq-done}
use atlas_hpc.Types.Label.{LabelId, label_eq}
use atlas_hpc.Types.Link.{TemporalLink}
use atlas_hpc.WarmTier.Graph.{GraphInner}
use atlas_hpc.WarmTier.Graph.Tagging.{labels_of}
use atlas_hpc.WarmTier.Graph.Window.{samples_of}
use atlas_hpc.WarmTier.Materialize.{
  candidates, commit, examine, examine_all, materialize_temporal_link,
}
use atlas_hpc.WarmTier.Materialize.Candidates.{
  IsCandidate, list_at-lookup, commit_lem, candidates_lem,
}
use atlas_hpc.WarmTier.Materialize.Pairs.{IsJustified, links_between_lem, examine_cases}

module _ {F D : Type 0} ⦃f : Float F⦄ ⦃d : Float D⦄ ⦃n : Narrow F D⦄ (src_id : ℕ)
    (before : GraphInner F D) (view : ℕ → GraphInner F D) where
  module _ (debug : Bool) (now : ℕ → ℕ) where
    module _ (enough : 10 ≤ length (samples_of before src_id)) where
      examine_lem :
          (c k : ℕ) (links out : List (TemporalLink F))
          → IsCandidate before src_id c
          → All (IsJustified src_id before view) links
          → examine debug now (labels_of before src_id) (samples_of before src_id) c (view k) links
            ≡ done out
          → All (IsJustified src_id before view) out
      examine_lem c k links out shares old h =
          elim (examine_cases src_id before view debug now (labels_of before src_id)
            (samples_of before src_id) c k links) [
              | inl same ↦ subst (All (IsJustified src_id before view)) (cc) old
              | inr (r, p, enough_too, computed, significant, e) ↦
                  links_between_lem src_id before view debug now (IsJustified src_id before view)
                    (labels_of before src_id) r p (labels_of (view k) c) links out
                    (λ sl cl at i j ne. record {
                      candidate = c;
                      k = k;
                      r = r;
                      p = p;
                      shares = shares;
                      enough = enough;
                      enough_too = enough_too;
                      computed = computed;
                      significant = significant;
                      carries_p = refl;
                      carries_r = refl;
                      from_src = i;
                      to_candidate = j;
                      differ = ne;
                    })
                    old (sym e ∙ h)
            ]

      examine_all_lem :
          (k : ℕ) (cs : List ℕ) (links out : List (TemporalLink F))
          → ((c : ℕ) → In c cs → IsCandidate before src_id c)
          → All (IsJustified src_id before view) links
          → examine_all debug now
              (labels_of before src_id)
              (samples_of before src_id)
              view
              k
              cs
              links
            ≡ done out
          → All (IsJustified src_id before view) out
      unfolding examine_all
      examine_all_lem k [] links out shares old h =
          subst (All (IsJustified src_id before view)) (cc) old
      examine_all_lem k (c ∷ cs) links out shares old h =
          let labels = labels_of before src_id in
          let samples = samples_of before src_id in
          let (links', ran, rest) =
            >>=-eq-done (examine debug now labels samples c (view k) links) _ h in
          examine_all_lem (suc k) cs links' out (λ x i. shares x (inr i))
            (examine_lem c k links links' (shares c (inl refl)) old ran) rest

    -- The links of all candidates.
    abbrev pub examined : (List ℕ → List ℕ) → Outcome (List (TemporalLink F))
    examined order =
        examine_all debug now (labels_of before src_id) (samples_of before src_id) view 0
          (order (candidates before src_id (labels_of before src_id) [])) []

    -- Too little history changes nothing; otherwise the links are written in the last state.
    pub materialize_cases :
        (order : List ℕ → List ℕ) (after : GraphInner F D)
        → (materialize_temporal_link debug now order src_id before view after ≡ done after)
          ⊎ ((10 ≤ length (samples_of before src_id))
              × (materialize_temporal_link debug now order src_id before view after
                  ≡ (examined order >>= λ links. done (commit links after))))
    unfolding materialize_temporal_link
    materialize_cases order after = elim (Option-cases (Dict.lookup src_id before.entity_labels)) [
      | inl gone ↦ inl (ground arith)
      | inr (ls, there) ↦ elim (Bool-cases (ltb (length (samples_of before src_id)) 10)) [
        | inl few ↦ inl (ground (arith, list_at-lookup src_id before.return_samples))
        | inr many ↦ inr (ground arith, ground (arith, list_at-lookup src_id before.return_samples))
      ]
    ]

    -- If the call returns and the order of the candidates invents none, every link that is in the
    -- graph after `materialize_temporal_link` was there when it wrote, or is justified by a
    -- candidate and stands under its own two labels. This holds whatever other threads write
    -- between the locks.
    pub links-IsJustified :
        (order : List ℕ → List ℕ)
        → ((ids : List ℕ) (c : ℕ) → In c (order ids) → In c ids)
        → (after g' : GraphInner F D)
        → materialize_temporal_link debug now order src_id before view after ≡ done g'
        → (key : LabelId × LabelId) (link : TemporalLink F)
        → Dict.lookup key g'.temporal_links ≡ some link
        → (Dict.lookup key after.temporal_links ≡ some link)
          ⊎ (IsJustified src_id before view link × (key ≡ (link.src, link.dst)))
    unfolding materialize_temporal_link
    links-IsJustified order sub after g' h key link found = elim (materialize_cases order after) [
      | inl same ↦
          let e : g' ≡ after = cc in
          inl (subst (λ (g : GraphInner F D). Dict.lookup key g.temporal_links ≡ some link) e found)
      | inr (enough, e) ↦
          let ids = candidates before src_id (labels_of before src_id) [] in
          let (links, ran, wrote) = >>=-eq-done (examined order) _ (sym e ∙ h) in
          let good =
            examine_all_lem enough 0 (order ids) [] links
              (λ c i.
                candidates_lem before src_id (labels_of before src_id) [] (λ l q. q)
                  (λ x q. absurd q) c (sub ids c i))
              tt ran in
          let written : g' ≡ commit links after = cc in
          let found' =
            subst (λ (g : GraphInner F D). Dict.lookup key g.temporal_links ≡ some link) written
              found in
          elim (commit_lem links after key link found') [
            | inl (i, at_key) ↦
                inr (In_of_All (IsJustified src_id before view) links good link i, at_key)
            | inr old ↦ inl old
          ]
    ]
