-- ===== src/Tests/Mains.antt =====
-- `main` with a feed that draws entity 3700, an agent and a receiver, each in turn.
use atlas_hpc.Base.{ℕ, ◌%◌, ◌≡◌, refl, ap, Bool, true, false, ◌==◌, nat_eq, In, inl, inr}
use atlas_hpc.Base.Fixed.{ℤ, fixed, fixed_narrow}
use atlas_hpc.Base.Outcome.{done, map_outcome}
use atlas_hpc.HotTier.DashMap.{Table, table_laws}
use atlas_hpc.HotTier.Channel.{list_channel-IsChannel}
use atlas_hpc.HotTier.Sensing.Threads.{write}
use atlas_hpc.HotTier.Store
use atlas_hpc.HotTier.Store.Laws.{Call, trigger_call}
use atlas_hpc.Types.Entity.{WeightedEntity}
use atlas_hpc.Intelligence.Cache
use atlas_hpc.Intelligence.Cache.{CachedReasoning}
use atlas_hpc.Intelligence.Orchestrator.{Orchestrator}
use atlas_hpc.Intelligence.Orchestrator.Prompt.{IsSettled}
use atlas_hpc.Harness.{entity_count, seed_from}
use atlas_hpc.Harness.Fed.{tick_calls}
use atlas_hpc.Harness.Labels.{tag_from, tag_from-start}
use atlas_hpc.Harness.Main.{sensing_config, main_state}
use atlas_hpc.Harness.Main.Stands.{IsSynthetic}
use atlas_hpc.Harness.Main.Answers.{main-IsSettled}
use atlas_hpc.WarmTier.Graph.{GraphInner, new_graph}
use atlas_hpc.Tests.Agents.{format, reads, reads-IsAnswering}
use atlas_hpc.Tests.Caches.{cache_map}
use atlas_hpc.Tests.Stores.{store_map}
use atlas_hpc.Tests.Threads.{pipe, turn, cycle, cycle-IsFair, cycle-IsPrompt, rounds}

abbrev sin : ℤ → ℤ
sin x = x

abbrev Started : Type 0
Started = Orchestrator ℤ ℤ (Table (WeightedEntity ℤ ℤ)) (Table CachedReasoning)

abbrev made : GraphInner ℤ ℤ → Started
made graph = record {
  store = seed_from store_map 0 entity_count (Store.with_capacity store_map (20_000));
  graph = graph;
  cache = Cache.new cache_map;
}

abbrev tagged : (g : GraphInner ℤ ℤ) × (tag_from sin 0 entity_count new_graph ≡ done g)
tagged = let all = tag_from-start {F = ℤ} sin entity_count in (all.0, all.1)

started : main_state store_map cache_map sin ≡ done (made tagged.0)
unfolding main_state
started = ap (map_outcome made) tagged.1

abbrev flags : ℕ → Call ℤ ℤ
flags n = trigger_call n 3_700 true

-- 0x1d3ae69d74 is a multiple of 100 and falls to entity 3700.
flag-written :
    (a b : Bool) (n : ℕ) (c : Call ℤ ℤ)
    → turn flags a b n ≡ write c
    → In c (tick_calls (rounds n) 0x1d3ae69d74)
flag-written true b n c h = cc
flag-written false true n c h = let e : c ≡ flags n = cc in inr (inr (inl e))
flag-written false false n c h = cc

flags-IsSynthetic : IsSynthetic (cycle flags)
flags-IsSynthetic n c h = (rounds n, 0x1d3ae69d74, flag-written (n % 3 == 0) (n % 3 == 1) n c h)

main-IsSettled_example :
    IsSettled store_map cache_map pipe sensing_config list_channel-IsChannel format true
      (cycle flags)
      (λ k. reads)
      (made tagged.0)
      3_700
      2
main-IsSettled_example =
    main-IsSettled store_map cache_map pipe list_channel-IsChannel format true table_laws table_laws
      (λ p below t. below) sin (made tagged.0) started (cycle flags) (λ k. reads)
      (cycle-IsFair flags) (cycle-IsPrompt flags) (λ i. reads-IsAnswering) flags-IsSynthetic 1 1
      3_700 refl
