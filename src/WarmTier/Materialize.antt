-- ===== src/WarmTier/Materialize.antt =====
-- crates/warm-tier/src/lib.rs: `CausalGraph::materialize_temporal_link`. It takes the lock once to
-- collect the candidates, once for each candidate, and once to write; other threads may write in
-- between, so each part reads a state of its own. The flag `debug` says whether the build has debug
-- assertions.
pub mod Candidates
pub mod Pairs
pub mod Links
pub mod Counts
pub mod Panics
use atlas_hpc.Base.{
  ℕ, zero, suc, ◌+◌, Bool, true, false, not, ◌&&◌, Eq, Option, none, some, List, [], ◌∷◌, ◌++◌,
  ◌==◌, nat_eq, pair_eq, length, mem, ltb, if◌then◌else◌,
}
use atlas_hpc.Base.Dict
use atlas_hpc.Base.Dict.{Dict}
use atlas_hpc.Base.Float.{Float, Narrow}
use atlas_hpc.Base.Outcome.{Outcome, done, panic, out_of_fuel, ◌>>=◌}
use atlas_hpc.Types.Label.{LabelId, label_eq}
use atlas_hpc.Types.Link.{TemporalLink, new_link}
use atlas_hpc.WarmTier.Graph.{GraphInner}
use atlas_hpc.WarmTier.Stats.{pearson_with_pvalue}

-- The loop over the entities of one label: a set of those other than `src_id`.
unfoldable pub add_candidates : ℕ → List ℕ → List ℕ → List ℕ
add_candidates src_id [] ids = ids
add_candidates src_id (e ∷ es) ids =
    add_candidates src_id es (if not (e == src_id) && not (mem e ids) then ids ++ e ∷ [] else ids)

-- A read of a map of lists, with the empty list for a missing key.
abbrev pub list_at : {K V : Type 0} ⦃e : Eq K⦄ → K → Dict K (List V) → List V
list_at k m = elim (Dict.lookup k m) [ none ↦ [] | some v ↦ v ]

module _ {F D : Type 0} where
  unfoldable pub candidates : GraphInner F D → ℕ → List LabelId → List ℕ → List ℕ
  candidates g src_id [] ids = ids
  candidates g src_id (l ∷ ls) ids =
      candidates g src_id ls (add_candidates src_id (list_at l g.label_entities) ids)

  -- The write of all new links, and of the count.
  unfoldable pub commit : List (TemporalLink F) → GraphInner F D → GraphInner F D
  commit [] g = g
  commit (link ∷ links) g = commit links (record g {
    temporal_links = Dict.insert (link.src, link.dst) link g.temporal_links;
    fact_count = g.fact_count + 1;
  })

module _ {F D : Type 0} ⦃f : Float F⦄ ⦃d : Float D⦄ ⦃n : Narrow F D⦄ (debug : Bool)
    (now : ℕ → ℕ) where
  -- The inner loop, over `cand_labels`. The k-th link that is pushed reads the clock for the k-th
  -- time.
  unfoldable pub links_from :
      LabelId → D → D → List LabelId → List (TemporalLink F) → Outcome (List (TemporalLink F))
  links_from sl r p [] new_links = done new_links
  links_from sl r p (cl ∷ cls) new_links = elim (sl == cl) [
    | true ↦ links_from sl r p cls new_links
    | false ↦ do
      link ← new_link debug sl cl (n.narrow p) (n.narrow (d.abs r)) (now (length new_links))
      links_from sl r p cls (new_links ++ link ∷ [])
  ]

  -- The outer loop, over `src_labels`.
  unfoldable pub links_between :
      List LabelId → D → D → List LabelId → List (TemporalLink F) → Outcome (List (TemporalLink F))
  links_between [] r p cls new_links = done new_links
  links_between (sl ∷ sls) r p cls new_links = do
    new_links' ← links_from sl r p cls new_links
    links_between sls r p cls new_links'

  -- One candidate, in the state `g`.
  unfoldable pub examine :
      List LabelId
      → List D
      → ℕ
      → GraphInner F D
      → List (TemporalLink F)
      → Outcome (List (TemporalLink F))
  examine src_labels src_samples candidate_id g new_links =
      elim (Dict.lookup candidate_id g.return_samples) [
        | none ↦ done new_links
        | some cand_samples ↦
            if ltb (length cand_samples) 10
            then done new_links
            else elim (pearson_with_pvalue src_samples cand_samples) [
              | none ↦ done new_links
              | some (r, p_value) ↦
                  if d.lt p_value (d.lit 5 2)
                  then links_between src_labels r p_value (list_at candidate_id g.entity_labels)
                      new_links
                  else done new_links
            ]
      ]

  -- The loop over the candidates: the k-th sees the state `view k`.
  unfoldable pub examine_all :
      List LabelId
      → List D
      → (ℕ → GraphInner F D)
      → ℕ
      → List ℕ
      → List (TemporalLink F)
      → Outcome (List (TemporalLink F))
  examine_all src_labels src_samples view k [] new_links = done new_links
  examine_all src_labels src_samples view k (c ∷ cs) new_links = do
    new_links' ← examine src_labels src_samples c (view k) new_links
    examine_all src_labels src_samples view (suc k) cs new_links'

  -- `before` is the state at the first lock, `after` the one at the last; `order` is the order in
  -- which the set of candidates is visited. What comes back is the state after the call.
  unfoldable pub materialize_temporal_link :
      (List ℕ → List ℕ)
      → ℕ
      → GraphInner F D
      → (ℕ → GraphInner F D)
      → GraphInner F D
      → Outcome (GraphInner F D)
  materialize_temporal_link order src_id before view after =
      elim (Dict.lookup src_id before.entity_labels) [
        | none ↦ done after
        | some src_labels ↦
            let src_samples = list_at src_id before.return_samples in
            if ltb (length src_samples) 10 then done after else (do
              new_links ←
                  examine_all src_labels src_samples view 0
                    (order (candidates before src_id src_labels [])) []
              done (commit new_links after))
      ]
