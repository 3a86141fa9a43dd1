-- ===== src/Harness/Main/Answers.antt =====
-- src/main.rs: what the synthetic feed triggers, the agents answer.
use atlas_hpc.Base.{ℕ, suc, ◌<◌, ◌≡◌, refl, sym, ap, subst, Bool, true, nat_eq, arith}
use atlas_hpc.Base.Float.{Float, Narrow}
use atlas_hpc.Base.Outcome.{done, map_outcome-eq-done}
use atlas_hpc.HotTier.Channel.{Channel, IsChannel}
use atlas_hpc.HotTier.DashMap.{DashMap, IsDashMap}
use atlas_hpc.HotTier.Sensing.Threads
use atlas_hpc.HotTier.Sensing.Threads.{
  Phase, waiting, checking, notifying, weighing, System, Event, agent, write, receive, advance,
  step, state_at, spawn,
}
use atlas_hpc.HotTier.Sensing.Threads.Triggers.{IsFair}
use atlas_hpc.HotTier.Sensing.Threads.Prompt.{IsPrompt}
use atlas_hpc.HotTier.Store
use atlas_hpc.HotTier.Store.Laws.{Call, trigger_call}
use atlas_hpc.Types.Entity.{WeightedEntity, new}
use atlas_hpc.Types.Signal.{SignalEvent}
use atlas_hpc.Intelligence.Agent.{Format, Reads, IsAnswering}
use atlas_hpc.Intelligence.Cache.{CachedReasoning}
use atlas_hpc.Intelligence.Orchestrator.{Orchestrator, sensing}
use atlas_hpc.Intelligence.Orchestrator.Prompt.{IsSettled, trigger-IsSettled}
use atlas_hpc.Harness.{entity_count, seeded, seed_from}
use atlas_hpc.Harness.Seeds.{seed_from_get}
use atlas_hpc.Harness.Labels.{tag_from}
use atlas_hpc.WarmTier.Graph.{GraphInner, new_graph}
use atlas_hpc.Intelligence.Cache
use atlas_hpc.Harness.Main.{sensing_config, main_state}
use atlas_hpc.Harness.Main.Stands.{
  IsSynthetic, Stands, tick_calls-Fed, flagged-below, event-KeepsTrigger, state-Stands,
  flagged-IsTriggered,
}

module _ {F D M K C : Type 0} ⦃f : Float F⦄ ⦃d : Float D⦄ ⦃narrow : Narrow F D⦄
    (t : DashMap (WeightedEntity F D) M) (c : DashMap CachedReasoning K)
    (ch : Channel (SignalEvent F) C) (b : IsChannel ch) (format : Format F) (debug : Bool)
    (laws : IsDashMap t) (cache_laws : IsDashMap c)
    (passes : (p : D)
      → d.lt p (d.lit 5 2) ≡ true
      → debug ≡ true
      → f.lt (narrow.narrow p) (f.lit 5 2) ≡ true) where
  seeded-Stands :
      (sin : D → D) (o : Orchestrator F D M K)
      → main_state t c sin ≡ done o
      → (j : ℕ) → j < entity_count
      → Stands t ch sensing_config laws j o.store
  unfolding main_state Store.with_capacity new
  seeded-Stands sin o started j below =
      let made : GraphInner F D → Orchestrator F D M K = λ graph. record {
        store = seed_from t 0 entity_count t.empty;
        graph = graph;
        cache = Cache.new c;
      } in
      let (graph, tagged, e) =
        map_outcome-eq-done made (tag_from sin 0 entity_count new_graph) o started in
      let store = ap (λ (x : Orchestrator F D M K). x.store) (sym e) in
      let read = seed_from_get t laws 0 entity_count t.empty j in
      subst (Stands t ch sensing_config laws j) (sym store) (seeded t j, ground (arith, read), refl)

  -- Suppose `main` has started, the sensing agent is scheduled again and again, the receiver is at
  -- no time as many accesses behind it as the channel has slots, the only writes beside theirs are
  -- those of the synthetic feed, the queries to the language model return, and the build has no debug
  -- assertions, or every p-value below 0.05 is below it as an `f32` too. Then after each round of the feed that sets a trigger the sensing
  -- agent offers a CausalTrigger of that entity, the reasoning agent is later handed that signal,
  -- and from then on, once it has worked off what it was handed, it has given an insight about the
  -- entity, and the entity is a hit in its cache.
  pub main-IsSettled :
      (sin : D → D) (o : Orchestrator F D M K)
      → main_state t c sin ≡ done o
      → (events : ℕ → Event F D) (reads : ℕ → Reads F D) → IsFair events
      → IsPrompt (sensing_config {F = F}).channel_capacity events
      → ((i : ℕ) → IsAnswering (reads i))
      → IsSynthetic events
      → (n at id : ℕ) → events n ≡ write (trigger_call at id true)
      → IsSettled t c ch sensing_config b format debug events reads o id (suc n)
  unfolding sensing spawn Threads.new
  main-IsSettled sin o started events reads fair prompt answering synthetic n at id mine =
      let fed = λ (i : ℕ) (x : Call F D) (e : events i ≡ write x).
        let (now, rng_state, among) = synthetic i x e in tick_calls-Fed now rng_state x among in
      let below : id < entity_count = flagged-below at id (fed n (trigger_call at id true) mine) in
      let s = sensing t c ch sensing_config o in
      let stands =
        state-Stands t ch sensing_config laws events fed s id n
          (seeded-Stands sin o started id below) in
      let set = flagged-IsTriggered t ch sensing_config laws events s id n at mine stands in
      trigger-IsSettled t c ch sensing_config b format debug laws cache_laws passes events reads o
        fair prompt answering id (omega arith) (λ i. event-KeepsTrigger id (events i) (fed i))
        (suc n) set
