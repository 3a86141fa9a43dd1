-- ===== src/Intelligence/Agent/Returns.antt =====
-- A run of `ReasoningAgent` (crates/intelligence/src/agent.rs) comes to its end.
use mathlib.Core.Option
use atlas_hpc.Base.{
  ℕ, ◌≡◌, refl, All, Bool, true, none, List, [], ◌∷◌, ◌==◌, nat_eq, arith, Bool-cases, inl, inr,
}
use atlas_hpc.Base.Float.{Float, Narrow}
use atlas_hpc.Base.Outcome.{done}
use atlas_hpc.HotTier.DashMap.{DashMap}
use atlas_hpc.Types.Label.{l_crude_shock}
use atlas_hpc.Types.Signal.{SignalEvent, weight_spike, causal_trigger, entity_id}
use atlas_hpc.WarmTier.Graph.{GraphInner}
use atlas_hpc.WarmTier.Activation.Ends.{activation_ends}
use atlas_hpc.WarmTier.Materialize.Panics.{materialize_returns}
use atlas_hpc.Intelligence.Cache
use atlas_hpc.Intelligence.Cache.{CachedReasoning}
use atlas_hpc.Intelligence.Agent.{
  Format, Reads, IsAnswering, ReasoningContext, Insight, Turn, heartbeat, prompt_summary, conclude,
  produce_insight, find_related, link_spike, context, settle, handle, run,
}

module _ {F D M : Type 0} ⦃f : Float F⦄ ⦃d : Float D⦄ ⦃n : Narrow F D⦄ (format : Format F)
    (t : DashMap CachedReasoning M) (debug : Bool) where
  module _
      (passes : (p : D)
        → d.lt p (d.lit 5 2) ≡ true
        → debug ≡ true
        → f.lt (n.narrow p) (f.lit 5 2) ≡ true) where
    find_related_returns :
        (k : ℕ) (r : Reads F D) (m : M)
        → (related : List ℕ) × (find_related format t debug k r m ≡ done related)
    unfolding find_related
    find_related_returns k r m = elim (Bool-cases (Cache.contains t k m)) [
      | inl hit ↦ (Option.get_or (Cache.get_related t k m) [], ground arith)
      | inr miss ↦
          let (related, ran) = activation_ends r.activated 2 r.instants l_crude_shock in
          (related, ground arith)
    ]

    link_spike_returns :
        (signal : SignalEvent F) (r : Reads F D)
        → (g : GraphInner F D) × (link_spike format t debug signal r ≡ done g)
    unfolding link_spike
    link_spike_returns (weight_spike id delta_w w at) r =
        materialize_returns debug r.now id r.before r.view passes r.order r.after
    link_spike_returns (causal_trigger id at) r = (r.after, refl)

    produce_insight_returns :
        (r : Reads F D) (ctx : ReasoningContext F)
        → IsAnswering r
        → (insight : Insight F) × (produce_insight format r.query_local_llm ctx ≡ done insight)
    unfolding produce_insight
    produce_insight_returns r ctx answering =
        let (answer, asked) = answering (prompt_summary format ctx) in
        (conclude format ctx answer, rw asked refl)

    handle_returns :
        (signal : SignalEvent F) (r : Reads F D) (m : M)
        → IsAnswering r
        → (turn : Turn F D M) × (handle format t debug signal r m ≡ done turn)
    unfolding handle
    handle_returns signal r m answering = elim (Bool-cases (entity_id signal == heartbeat)) [
      | inl beat ↦ (record { cache = m; graph = r.after; insight = none }, ground arith)
      | inr real ↦
          let (related, found) = find_related_returns (entity_id signal) r m in
          let (graph, linked) = link_spike_returns signal r in
          let (insight, made) = produce_insight_returns r (context t signal m related) answering in
          (settle format t debug signal r m related graph insight, ground arith)
    ]

    -- The agent works off every list of signals without a panic, if the query to the language model
    -- returns for each of them, and if every p-value below 0.05 is still below 0.05 once narrowed to
    -- `f32`, or the build has no debug assertions.
    pub run_returns :
        (signals : List (SignalEvent F × Reads F D)) (m : M)
        → All (λ s. IsAnswering s.1) signals
        → (turns : List (Turn F D M)) × (m' : M) × (run format t debug signals m ≡ done (turns, m'))
    unfolding run
    run_returns [] m answering = ([], m, refl)
    run_returns ((signal, r) ∷ rest) m (answers, answering) =
        let (turn, handled) = handle_returns signal r m answers in
        let (turns, m', ran) = run_returns rest turn.cache answering in
        (turn ∷ turns, m', rw handled (rw ran refl))
