-- ===== src/WarmTier/Materialize/Counts.antt =====
-- What a call of `materialize_temporal_link` counts, and when it can panic.
use atlas_hpc.Base.{
  ℕ, ◌+◌, ◌≤◌, ◌≡◌, refl, sym, ◌∙◌, subst, Bool, List, [], ◌∷◌, nat_eq, pair_eq, length, inl, inr,
  arith,
}
use atlas_hpc.Base.Dict
use atlas_hpc.Base.Dict.{Dict}
use atlas_hpc.Base.Float.{Float, Narrow}
use atlas_hpc.Base.Outcome.{done, >>=-eq-done}
use atlas_hpc.Types.Label.{label_eq}
use atlas_hpc.Types.Link.{TemporalLink}
use atlas_hpc.WarmTier.Graph.{GraphInner, temporal_link_count}
use atlas_hpc.WarmTier.Materialize.{commit, materialize_temporal_link}
use atlas_hpc.WarmTier.Materialize.Links.{materialize_cases, examined}

module _ {F D : Type 0} where
  -- Every stored link has been counted as a fact.
  abbrev pub IsCounted : GraphInner F D → Type 0
  IsCounted g = temporal_link_count g ≤ g.fact_count

  -- One write of the loop.
  abbrev put_link : TemporalLink F → GraphInner F D → GraphInner F D
  put_link x g = record g {
    temporal_links = Dict.insert (x.src, x.dst) x g.temporal_links;
    fact_count = g.fact_count + 1;
  }

  put_link_count :
      (x : TemporalLink F) (g : GraphInner F D)
      → (temporal_link_count g ≤ temporal_link_count (put_link x g))
        × (temporal_link_count (put_link x g) ≤ temporal_link_count g + 1)
  unfolding temporal_link_count
  put_link_count x g = ground (arith, Dict.length-insert (x.src, x.dst) x g.temporal_links)

  commit_counts :
      (links : List (TemporalLink F)) (g : GraphInner F D)
      → ((commit links g).fact_count ≡ g.fact_count + length links)
        × (temporal_link_count g ≤ temporal_link_count (commit links g))
        × (temporal_link_count (commit links g) ≤ temporal_link_count g + length links)
  unfolding commit
  commit_counts [] g = omega arith
  commit_counts (x ∷ links) g =
      omega (arith, put_link_count x g, commit_counts links (put_link x g))

  commit_rest :
      (links : List (TemporalLink F)) (g : GraphInner F D)
      → commit links g ≡ record g {
        temporal_links = (commit links g).temporal_links;
        fact_count = (commit links g).fact_count;
      }
  unfolding commit
  commit_rest [] g = refl
  commit_rest (x ∷ links) g = commit_rest links (put_link x g)

module _ {F D : Type 0} ⦃f : Float F⦄ ⦃d : Float D⦄ ⦃n : Narrow F D⦄ (debug : Bool) (now : ℕ → ℕ)
    (order : List ℕ → List ℕ) (src_id : ℕ) (before : GraphInner F D)
    (view : ℕ → GraphInner F D) where
  abbrev Adds : GraphInner F D → GraphInner F D → Type 0
  Adds after x =
      (after.fact_count ≤ x.fact_count)
      × (temporal_link_count after ≤ temporal_link_count x)
      × (IsCounted after → IsCounted x)
      × (x ≡ record after { temporal_links = x.temporal_links; fact_count = x.fact_count })

  -- A call of `materialize_temporal_link` that returns lets neither `fact_count` nor
  -- `temporal_link_count` fall, keeps `temporal_link_count` at most `fact_count` if it was, and
  -- changes nothing but the links and the count of facts.
  pub materialize_counts :
      (after g' : GraphInner F D)
      → materialize_temporal_link debug now order src_id before view after ≡ done g'
      → (after.fact_count ≤ g'.fact_count)
        × (temporal_link_count after ≤ temporal_link_count g')
        × (IsCounted after → IsCounted g')
        × (g' ≡ record after { temporal_links = g'.temporal_links; fact_count = g'.fact_count })
  materialize_counts after g' h =
      elim (materialize_cases src_id before view debug now order after) [
        | inl same ↦
            let e : after ≡ g' = cc in subst (Adds after) e (omega arith, omega arith, λ c. c, refl)
        | inr (enough, e) ↦
            let (links, ran, wrote) =
              >>=-eq-done (examined src_id before view debug now order) _ (sym e ∙ h) in
            let written : commit links after ≡ g' = cc in
            let counts = commit_counts links after in
            subst (Adds after) written (
              omega (arith, counts),
              omega (arith, counts),
              λ c. omega (arith, counts),
              commit_rest links after,
            )
      ]
