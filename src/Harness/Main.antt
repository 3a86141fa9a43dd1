-- ===== src/Harness/Main.antt =====
-- src/main.rs: `main` puts the seeded store, the tagged graph and the agents together.
pub mod Stands
pub mod Answers
use atlas_hpc.Base.{◌*◌}
use atlas_hpc.Base.Float.{Float}
use atlas_hpc.Base.Outcome.{Outcome, done, ◌>>=◌}
use atlas_hpc.HotTier.DashMap.{DashMap}
use atlas_hpc.HotTier.Sensing.{SensingConfig, default_config}
use atlas_hpc.HotTier.Store.{with_capacity}
use atlas_hpc.Types.Entity.{WeightedEntity}
use atlas_hpc.WarmTier.Graph.{new_graph}
use atlas_hpc.Intelligence.Cache
use atlas_hpc.Intelligence.Cache.{CachedReasoning}
use atlas_hpc.Intelligence.Orchestrator.{Orchestrator}
use atlas_hpc.Harness.{entity_count, seed_from}
use atlas_hpc.Harness.Labels.{tag_from}

-- `sensing_config`.
abbrev pub sensing_config : {F : Type 0} ⦃f : Float F⦄ → SensingConfig F
sensing_config = record default_config { cpu_core = 0; idle_sleep = 50_000 }

-- `store`, `graph` and `cache`, as the agents are started with them.
unfoldable pub main_state :
    {F D M K : Type 0} ⦃f : Float F⦄ ⦃d : Float D⦄
    → DashMap (WeightedEntity F D) M
    → DashMap CachedReasoning K
    → (D → D)
    → Outcome (Orchestrator F D M K)
main_state t c sin =
    let store = seed_from t 0 entity_count (with_capacity t (entity_count * 2)) in
    tag_from sin 0 entity_count new_graph >>= λ graph.
    done (record { store = store; graph = graph; cache = Cache.new c })
