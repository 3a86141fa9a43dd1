-- ===== src/Tests/Agents.antt =====
-- A run of `ReasoningAgent` over a trigger, a heartbeat and a spike.
use atlas_hpc.Base.{◌≡◌, ◌⊎◌, inl, refl, nat_eq, true, none, some, List, [], ◌∷◌, In}
use atlas_hpc.Base.Dict
use atlas_hpc.Base.Fixed.{ℤ, pos, fixed, fixed_narrow}
use atlas_hpc.Base.Outcome.{done}
use atlas_hpc.Types.Label.{label_eq, l_crude_shock}
use atlas_hpc.Types.Signal.{SignalEvent, weight_spike, causal_trigger, entity_id}
use atlas_hpc.HotTier.DashMap.{Table, table_laws}
use atlas_hpc.Intelligence.Cache
use atlas_hpc.Intelligence.Cache.{CachedReasoning}
use atlas_hpc.Intelligence.Agent.{
  Format, Reads, IsAnswering, Turn, conclude, context, heartbeat, run, handle, settle, find_related,
  link_spike, produce_insight,
}
use atlas_hpc.Intelligence.Agent.Answers.{
  real_ids, insight_ids, run_insights, run_keeps, run_source,
}
use atlas_hpc.Intelligence.Agent.Returns.{run_returns}
use atlas_hpc.WarmTier.Activation.{
  spreading_activation, loop, visit, offer_entities, offer_entity, expand, offer_labels,
  offer_label,
}
use atlas_hpc.Tests.Caches.{cache_map}
use atlas_hpc.Tests.Graphs.{chain, stopped_clock}
use atlas_hpc.Tests.Links.{pair, now}

abbrev pub format : Format ℤ
format = record { decimal = λ n. "n"; three_places = λ x. "x" }

abbrev pub reads : Reads ℤ ℤ
reads = record {
  activated = chain;
  before = pair;
  view = λ k. pair;
  after = pair;
  order = λ ids. ids;
  instants = stopped_clock;
  now = now;
  cached_at = 77;
  query_local_llm = λ prompt. done none;
}

pub reads-IsAnswering : IsAnswering reads
reads-IsAnswering prompt = (none, refl)

abbrev signals : List (SignalEvent ℤ × Reads ℤ ℤ)
signals =
    (causal_trigger 1 50, reads)
    ∷ (causal_trigger heartbeat 51, reads)
    ∷ (weight_spike 1 (pos 300_000) (pos 800_000) 52, reads)
    ∷ []

abbrev empty_cache : Table CachedReasoning
empty_cache = cache_map.empty

run_returns_example :
    (turns : List (Turn ℤ ℤ (Table CachedReasoning))) × (m' : Table CachedReasoning) × (run format
        cache_map true signals empty_cache
      ≡ done (turns, m'))
run_returns_example =
    run_returns format cache_map true (λ p below t. below) signals empty_cache
      (reads-IsAnswering, (reads-IsAnswering, (reads-IsAnswering, tt)))

abbrev trigger_turn : Turn ℤ ℤ (Table CachedReasoning)
trigger_turn =
    settle format cache_map true (causal_trigger 1 50) reads empty_cache (3 ∷ 2 ∷ 1 ∷ []) pair
      (conclude format (context cache_map (causal_trigger 1 50) empty_cache (3 ∷ 2 ∷ 1 ∷ [])) none)

abbrev one_signal : List (SignalEvent ℤ × Reads ℤ ℤ)
one_signal = (causal_trigger 1 50, reads) ∷ []

one_run :
    run format cache_map true one_signal empty_cache ≡ done (trigger_turn ∷ [], trigger_turn.cache)
unfolding run handle produce_insight find_related link_spike Cache.contains Dict.lookup
    spreading_activation entity_id loop visit offer_entities offer_entity expand offer_labels
    offer_label
one_run = refl

run_insights_example : insight_ids (trigger_turn ∷ []) ≡ real_ids one_signal
run_insights_example =
    run_insights format cache_map true one_signal empty_cache trigger_turn.cache (trigger_turn ∷ [])
      one_run

-- The cache after that turn answers for entity 1, and the next run finds it there.
cached : Cache.get_related cache_map 1 trigger_turn.cache ≡ some (3 ∷ 2 ∷ 1 ∷ [])
unfolding settle conclude Cache.contains Cache.insert Cache.get_related entity_id Dict.lookup
    Dict.insert Dict.upsert
cached = refl

abbrev second_turn : Turn ℤ ℤ (Table CachedReasoning)
second_turn =
    settle format cache_map true (causal_trigger 1 50) reads trigger_turn.cache (3 ∷ 2 ∷ 1 ∷ [])
      pair
      (conclude format (context cache_map (causal_trigger 1 50) trigger_turn.cache (3 ∷ 2 ∷ 1 ∷ []))
        none)

second_run :
    run format cache_map true one_signal trigger_turn.cache
    ≡ done (second_turn ∷ [], second_turn.cache)
unfolding run handle produce_insight find_related link_spike settle Cache.contains Cache.insert
    Cache.get_related entity_id conclude Dict.lookup Dict.insert Dict.upsert
second_run = refl

run_keeps_example : Cache.get_related cache_map 1 second_turn.cache ≡ some (3 ∷ 2 ∷ 1 ∷ [])
run_keeps_example =
    run_keeps format cache_map true table_laws one_signal trigger_turn.cache second_turn.cache
      (second_turn ∷ []) second_run 1 (3 ∷ 2 ∷ 1 ∷ []) cached

real : In 1 (real_ids one_signal)
unfolding real_ids entity_id
real = inl refl

run_source_example :
    (Cache.get_related cache_map 1 empty_cache ≡ some (3 ∷ 2 ∷ 1 ∷ []))
    ⊎ ((s : SignalEvent ℤ × Reads ℤ ℤ) × In s one_signal
        × ((entity_id s.0 ≡ 1)
            × (spreading_activation s.1.activated 2 s.1.instants l_crude_shock
                ≡ done (3 ∷ 2 ∷ 1 ∷ []))))
run_source_example =
    run_source format cache_map true table_laws one_signal empty_cache trigger_turn.cache
      (trigger_turn ∷ []) one_run 1 (3 ∷ 2 ∷ 1 ∷ []) cached
