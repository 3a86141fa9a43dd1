-- ===== src/Tests/Pipelines.antt =====
-- The wired agents on a store with one alarmed entity.
use atlas_hpc.Base.{ℕ, ◌≡◌, refl, true, none, some, List, [], ◌∷◌, In, nat_eq, arith}
use atlas_hpc.Base.Dict
use atlas_hpc.Base.Fixed.{ℤ, fixed, fixed_narrow}
use atlas_hpc.Base.Outcome.{done}
use atlas_hpc.HotTier.DashMap.{Table, table_laws}
use atlas_hpc.HotTier.Channel.{list_channel-IsChannel}
use atlas_hpc.HotTier.Sensing.{check_spike}
use atlas_hpc.HotTier.Sensing.Threads.{spawn, new, advance, step, handed, state_at, inbox}
use atlas_hpc.HotTier.Store
use atlas_hpc.HotTier.Store.Laws.{perform}
use atlas_hpc.Types.Entity.{WeightedEntity}
use atlas_hpc.Types.Signal.{causal_trigger, entity_id}
use atlas_hpc.Types.Label.{label_eq}
use atlas_hpc.WarmTier.Activation.{
  loop, visit, offer_entities, offer_entity, expand, offer_labels, offer_label,
}
use atlas_hpc.WarmTier.Activation
use atlas_hpc.Intelligence.Cache
use atlas_hpc.Intelligence.Cache.{CachedReasoning}
use atlas_hpc.Intelligence.Agent.{
  Reads, Turn, conclude, context, produce_insight, run, handle, find_related, link_spike, settle,
}
use atlas_hpc.Intelligence.Agent.Answers.{insight_ids}
use atlas_hpc.Intelligence.Orchestrator.{start_config, Orchestrator, sensing, start}
use atlas_hpc.Intelligence.Orchestrator.Answered.{IsAnswered, trigger-IsAnswered}
use atlas_hpc.Intelligence.Orchestrator.Prompt.{IsSettled, trigger-IsSettled}
use atlas_hpc.Intelligence.Orchestrator.Founded.{IsFounded, IsSourced, insights-IsFounded}
use atlas_hpc.Tests.Agents.{format, reads, reads-IsAnswering}
use atlas_hpc.Tests.Caches.{cache_map}
use atlas_hpc.Tests.Graphs.{chain}
use atlas_hpc.Tests.Links.{pair}
use atlas_hpc.Tests.Stores.{store_map}
use atlas_hpc.Tests.Threads.{
  pipe, prices, turns, cycle-IsFair, cycle-IsDrained, cycle-IsPrompt, turns-KeepsTrigger,
  alarmed_store, alarmed-IsTriggered,
}

abbrev wired : Orchestrator ℤ ℤ (Table (WeightedEntity ℤ ℤ)) (Table CachedReasoning)
wired = record { store = alarmed_store; graph = chain; cache = cache_map.empty }

abbrev all_reads : ℕ → Reads ℤ ℤ
all_reads k = reads

trigger-IsAnswered_example :
    IsAnswered store_map cache_map pipe start_config list_channel-IsChannel format true turns
      all_reads wired 7 0
unfolding state_at sensing spawn new Dict.insert
trigger-IsAnswered_example =
    trigger-IsAnswered store_map cache_map pipe start_config list_channel-IsChannel format true
      table_laws table_laws (λ p below t. below) turns all_reads wired (cycle-IsFair prices)
      (cycle-IsDrained prices) (λ i. reads-IsAnswering) 7 (omega arith) turns-KeepsTrigger 0
      alarmed-IsTriggered

trigger-IsSettled_example :
    IsSettled store_map cache_map pipe start_config list_channel-IsChannel format true turns
      all_reads wired 7 0
unfolding state_at sensing spawn new Dict.insert
trigger-IsSettled_example =
    trigger-IsSettled store_map cache_map pipe start_config list_channel-IsChannel format true
      table_laws table_laws (λ p below t. below) turns all_reads wired (cycle-IsFair prices)
      (cycle-IsPrompt prices) (λ i. reads-IsAnswering) 7 (omega arith) turns-KeepsTrigger 0
      alarmed-IsTriggered

abbrev first_turn : Turn ℤ ℤ (Table CachedReasoning)
first_turn =
    settle format cache_map true (causal_trigger 7 212) reads cache_map.empty (3 ∷ 2 ∷ 1 ∷ []) pair
      (conclude format (context cache_map (causal_trigger 7 212) cache_map.empty (3 ∷ 2 ∷ 1 ∷ []))
        none)

started :
    start store_map cache_map pipe start_config format true turns all_reads wired 15
    ≡ done (first_turn ∷ [], first_turn.cache)
unfolding start sensing spawn new inbox state_at step handed advance perform check_spike
    Store.set_causal_trigger Store.tick_price run handle produce_insight find_related link_spike
    Cache.contains Dict.lookup Dict.insert Dict.upsert Dict.alter entity_id
    Activation.spreading_activation loop visit offer_entities offer_entity expand offer_labels
    offer_label
started = refl

insights-IsFounded_example :
    ((j : ℕ)
      → In j (insight_ids (first_turn ∷ []))
      → IsFounded store_map cache_map pipe start_config turns wired 15 j)
    × ((j : ℕ) (related : List ℕ)
        → Cache.get_related cache_map j first_turn.cache ≡ some related
        → IsSourced store_map cache_map pipe start_config format true turns all_reads wired 15 j
            related)
insights-IsFounded_example =
    insights-IsFounded store_map cache_map pipe start_config list_channel-IsChannel format true
      table_laws table_laws (omega arith) turns all_reads wired 15 (first_turn ∷ [])
      first_turn.cache started
