-- ===== src/Intelligence/Agent.antt =====
-- crates/intelligence/src/agent.rs: `ReasoningAgent`. What the agent reads from elsewhere while it
-- handles one signal (the states of the shared graph, the clock, the answer of the language model)
-- comes in a `Reads`; the query to the model may panic. The fields of the agent are arguments; its log lines are left out.
pub mod Turns
pub mod Answers
pub mod Returns
pub mod Llm
use Prim.Native.String.{String, ◌++◌}
use mathlib.Core.Option
use atlas_hpc.Base.{
  ℕ, ◌-◌, ◌^◌, ◌≡◌, Bool, true, false, Option, none, some, List, [], ◌∷◌, ◌==◌, nat_eq, length,
  if◌then◌else◌,
}
use atlas_hpc.Base.Float.{Float, Narrow}
use atlas_hpc.Base.Outcome.{Outcome, done, panic, out_of_fuel, ◌>>=◌}
use atlas_hpc.HotTier.DashMap.{DashMap}
use atlas_hpc.Types.Label.{LabelId, l_crude_shock, l_rate_hike}
use atlas_hpc.Types.Signal.{SignalEvent, weight_spike, causal_trigger, entity_id}
use atlas_hpc.WarmTier.Graph.{GraphInner}
use atlas_hpc.WarmTier.Activation.{spreading_activation}
use atlas_hpc.WarmTier.Materialize.{materialize_temporal_link}
use atlas_hpc.Intelligence.Cache
use atlas_hpc.Intelligence.Cache.{CachedReasoning}

-- `{}` of an integer, and `{:.3}` of an `f32`.
pub record Format (F : Type 0) : Type 0 where
  pub decimal : ℕ → String
  pub three_places : F → String

pub record ReasoningContext (F : Type 0) : Type 0 where
  pub trigger : SignalEvent F
  pub related_entities : List ℕ
  pub cache_hit : Bool

pub record Insight (F : Type 0) : Type 0 where
  pub entity_id : ℕ
  pub summary : String
  pub confidence : F
  pub contributing_labels : List LabelId

-- The graph at the activation and at the three kinds of locks of `materialize_temporal_link`.
pub record Reads (F D : Type 0) : Type 0 where
  pub activated : GraphInner F D
  pub before : GraphInner F D
  pub view : ℕ → GraphInner F D
  pub after : GraphInner F D
  pub order : List ℕ → List ℕ
  pub instants : ℕ → ℕ
  pub now : ℕ → ℕ
  pub cached_at : ℕ
  pub query_local_llm : String → Outcome (Option String)

-- The query to the language model returns, whatever the prompt.
abbrev pub IsAnswering : {F D : Type 0} → Reads F D → Type 0
IsAnswering r =
    (prompt : String) → (answer : Option String) × (r.query_local_llm prompt ≡ done answer)

-- What a turn of `run` leaves: the cache, the graph, and the insight, if the signal has one.
pub record Turn (F D M : Type 0) : Type 0 where
  pub cache : M
  pub graph : GraphInner F D
  pub insight : Option (Insight F)

-- The id of the heartbeats, `u64::MAX`.
abbrev pub heartbeat : ℕ
heartbeat = 2 ^ 64 - 1

module _ {F : Type 0} ⦃f : Float F⦄ (format : Format F) where
  abbrev pub cause : SignalEvent F → String
  cause (weight_spike id delta_w w at) = "WeightSpike(Δ=" ++ format.three_places delta_w ++ ")"
  cause (causal_trigger id at) = "CausalTrigger"

  -- `{:?}` puts the inner string in quotes.
  abbrev pub prompt_summary : ReasoningContext F → String
  prompt_summary ctx =
      "Entity "
      ++ format.decimal (entity_id ctx.trigger)
      ++ " triggered by \""
      ++ cause ctx.trigger
      ++ "\". "
      ++ format.decimal (length ctx.related_entities)
      ++ " related entities discovered (cache_hit="
      ++ (if ctx.cache_hit then "true" else "false")
      ++ ")."

  -- What `produce_insight` makes of the answer of the language model.
  unfoldable pub conclude : ReasoningContext F → Option String → Insight F
  conclude ctx answer = record {
    entity_id = entity_id ctx.trigger;
    summary = elim answer [ some llm_insight ↦ "LLM: " ++ llm_insight | none ↦ prompt_summary ctx ];
    confidence = if ctx.cache_hit then f.lit 92 2 else f.lit 75 2;
    contributing_labels = l_crude_shock ∷ l_rate_hike ∷ [];
  }

  unfoldable pub produce_insight :
      (String → Outcome (Option String)) → ReasoningContext F → Outcome (Insight F)
  produce_insight query_local_llm ctx = do
    answer ← query_local_llm (prompt_summary ctx)
    done (conclude ctx answer)

-- `ctx`.
abbrev pub context :
    {F M : Type 0} → DashMap CachedReasoning M → SignalEvent F → M → List ℕ → ReasoningContext F
context t signal m related = record {
  trigger = signal;
  related_entities = related;
  cache_hit = Cache.contains t (entity_id signal) m;
}

module _ {F D M : Type 0} ⦃f : Float F⦄ ⦃d : Float D⦄ ⦃n : Narrow F D⦄ (format : Format F)
    (t : DashMap CachedReasoning M) (debug : Bool) where
  -- `related`: from the cache on a hit, else by spreading activation.
  unfoldable pub find_related : ℕ → Reads F D → M → Outcome (List ℕ)
  find_related cache_key r m = elim (Cache.contains t cache_key m) [
    | true ↦ done (Option.get_or (Cache.get_related t cache_key m) [])
    | false ↦ spreading_activation r.activated 2 r.instants l_crude_shock
  ]

  -- Links are looked for after a weight spike only.
  unfoldable pub link_spike : SignalEvent F → Reads F D → Outcome (GraphInner F D)
  link_spike (weight_spike id delta_w w at) r =
      materialize_temporal_link debug r.now r.order id r.before r.view r.after
  link_spike (causal_trigger id at) r = done r.after

  -- What is done with the insight: an entry in the cache after a miss.
  unfoldable pub settle :
      SignalEvent F → Reads F D → M → List ℕ → GraphInner F D → Insight F → Turn F D M
  settle signal r m related graph insight = record {
    cache =
        if Cache.contains t (entity_id signal) m
        then m
        else Cache.insert t r.cached_at (entity_id signal) related insight.contributing_labels m;
    graph = graph;
    insight = some insight;
  }

  -- The body of the loop of `run`.
  unfoldable pub handle : SignalEvent F → Reads F D → M → Outcome (Turn F D M)
  handle signal r m = elim (entity_id signal == heartbeat) [
    | true ↦ done (record { cache = m; graph = r.after; insight = none })
    | false ↦ do
      related ← find_related (entity_id signal) r m
      graph ← link_spike signal r
      insight ← produce_insight format r.query_local_llm (context t signal m related)
      done (settle signal r m related graph insight)
  ]

  -- `run`, over the signals that the channel hands out until it closes: the turns, and the cache.
  unfoldable pub run : List (SignalEvent F × Reads F D) → M → Outcome (List (Turn F D M) × M)
  run [] m = done ([], m)
  run ((signal, r) ∷ rest) m = do
    turn ← handle signal r m
    turns ← run rest turn.cache
    done (turn ∷ turns.0, turns.1)
