-- ===== src/WarmTier/Graph.antt =====
-- crates/warm-tier/src/lib.rs: `GraphInner`, the state behind the lock of `CausalGraph`, and the
-- operations that hold the lock once. A `HashMap` is a `Dict`.
pub mod Tagging
pub mod Window
use mathlib.Core.Option
use atlas_hpc.Base.{
  ℕ, zero, suc, ◌+◌, Bool, Option, none, some, List, [], ◌∷◌, ◌++◌, ◌==◌, nat_eq, pair_eq, length,
  ltb, map, if◌then◌else◌,
}
use atlas_hpc.Base.Dict
use atlas_hpc.Base.Dict.{Dict}
use atlas_hpc.Base.Float.{Float}
use atlas_hpc.Base.Outcome.{Outcome, done, panic, out_of_fuel, ◌>>=◌}
use atlas_hpc.Types.Label.{LabelId, label_eq}
use atlas_hpc.Types.Link.{TemporalLink}
use atlas_hpc.WarmTier.LabelStore
use atlas_hpc.WarmTier.LabelStore.{LabelStore}

-- `f32` is `F`, `f64` is `D`.
pub record GraphInner (F D : Type 0) : Type 0 where
  pub entity_labels : Dict ℕ (List LabelId)
  pub label_entities : Dict LabelId (List ℕ)
  pub temporal_links : Dict (LabelId × LabelId) (TemporalLink F)
  pub return_samples : Dict ℕ (List D)
  pub fact_count : ℕ
  pub hallucination_count : ℕ
  pub label_store : LabelStore

-- `GraphInner::new`.
abbrev pub new_graph : {F D : Type 0} → GraphInner F D
new_graph = record {
  entity_labels = [];
  label_entities = [];
  temporal_links = [];
  return_samples = [];
  fact_count = 0;
  hallucination_count = 0;
  label_store = LabelStore.empty;
}

-- `samples.remove(0)`, on a list that is not empty.
abbrev pub remove_first : {D : Type 0} → List D → List D
remove_first [] = []
remove_first (x ∷ xs) = xs

-- A push, and the cut to the rolling window.
abbrev pub push_sample : {D : Type 0} → D → List D → List D
push_sample ret samples =
    let pushed = samples ++ ret ∷ [] in
    if ltb 256 (length pushed) then remove_first pushed else pushed

module _ {F D : Type 0} where
  -- The loop of `tag_entity`.
  unfoldable pub tag_labels : ℕ → List LabelId → GraphInner F D → Outcome (GraphInner F D)
  tag_labels entity_id [] g = done g
  tag_labels entity_id (l ∷ ls) g = do
    store ← LabelStore.insert l entity_id g.label_store
    tag_labels entity_id ls (record g {
      label_entities = Dict.upsert l [] (λ ids. ids ++ entity_id ∷ []) g.label_entities;
      label_store = store;
    })

  unfoldable pub tag_entity : ℕ → List LabelId → GraphInner F D → Outcome (GraphInner F D)
  tag_entity entity_id labels g = do
    g' ← tag_labels entity_id labels g
    done (record g' {
      entity_labels = Dict.upsert entity_id [] (λ ls. ls ++ labels) g'.entity_labels;
    })

  unfoldable pub record_return : ℕ → D → GraphInner F D → GraphInner F D
  record_return entity_id ret g = record g {
    return_samples = Dict.upsert entity_id [] (push_sample ret) g.return_samples;
  }

  unfoldable pub grounding_ratio : ⦃d : Float D⦄ → GraphInner F D → D
  grounding_ratio ⦃d⦄ g =
      let total = g.fact_count + g.hallucination_count in
      if total == 0 then d.lit 1 0 else d.div (d.of_ℕ g.fact_count) (d.of_ℕ total)

  unfoldable pub record_hallucination : GraphInner F D → GraphInner F D
  record_hallucination g = record g { hallucination_count = g.hallucination_count + 1 }

  unfoldable pub temporal_link_count : GraphInner F D → ℕ
  temporal_link_count g = length g.temporal_links

  unfoldable pub temporal_links_snapshot : GraphInner F D → List (TemporalLink F)
  temporal_links_snapshot g = map (λ e. e.1) g.temporal_links

  unfoldable pub entity_count : GraphInner F D → ℕ
  entity_count g = length g.entity_labels
