-- ===== src/Intelligence/Orchestrator/Prompt.antt =====
-- The agents that `Orchestrator::start` (crates/intelligence/src/orchestrator.rs) wires together, with
-- a reasoning agent that keeps up: no trigger is lost.
use atlas_hpc.Base.{ℕ, suc, ◌+◌, ◌≤◌, ◌<◌, ◌≡◌, ◌≢◌, Bool, true, In, nat_eq, arith, inl, inr}
use atlas_hpc.Base.Float.{Float, Narrow}
use atlas_hpc.HotTier.Channel.{Channel, IsChannel}
use atlas_hpc.HotTier.DashMap.{DashMap, IsDashMap}
use atlas_hpc.HotTier.Sensing.{SensingConfig, Instants}
use atlas_hpc.HotTier.Sensing.Threads.{System, Event, agent, state_at, inbox}
use atlas_hpc.HotTier.Sensing.Threads.Triggers.{IsFair, KeepsTrigger, IsTriggered, Offers}
use atlas_hpc.HotTier.Sensing.Threads.Received.{trigger-IsDelivered}
use atlas_hpc.HotTier.Sensing.Threads.Prompt.{IsPrompt, prompt-IsDrained, prompt_room}
use atlas_hpc.Types.Entity.{WeightedEntity}
use atlas_hpc.Types.Signal.{SignalEvent, causal_trigger, entity_id}
use atlas_hpc.Intelligence.Cache.{CachedReasoning}
use atlas_hpc.Intelligence.Agent.{Format, Reads, IsAnswering, heartbeat}
use atlas_hpc.Intelligence.Orchestrator.{Orchestrator, sensing}
use atlas_hpc.Intelligence.Orchestrator.Answered.{HasInsight, handed_answered, inbox_grows}

module _ {F D M K C : Type 0} ⦃f : Float F⦄ ⦃d : Float D⦄ ⦃n : Narrow F D⦄
    (t : DashMap (WeightedEntity F D) M) (c : DashMap CachedReasoning K)
    (ch : Channel (SignalEvent F) C) (config : SensingConfig F) (b : IsChannel ch)
    (format : Format F) (debug : Bool) where
  module _ (events : ℕ → Event F D) (reads : ℕ → Reads F D) (o : Orchestrator F D M K) where
    abbrev state : ℕ → System F D M C
    state = state_at t ch config events (sensing t c ch config o)

    -- At some time `m` from `k` on the sensing agent offers the trigger of `j`, some time later the
    -- receiver has been handed that signal, and from then on there is an insight about `j`.
    abbrev pub IsSettled : ℕ → ℕ → Type 0
    IsSettled j k =
        (m : ℕ) × (at : Instants) × (k ≤ m)
        × (events m ≡ agent at)
        × Offers t ch config j at (state m).sensor.tx (state (suc m)).sensor.tx
        × (l : ℕ) × (m < l)
        × In (causal_trigger j at.trigger_at) (inbox t ch config events (sensing t c ch config o) l)
        × ((i : ℕ) → HasInsight t c ch config b format debug events reads o j (i + l))

module _ {F D M K C : Type 0} ⦃f : Float F⦄ ⦃d : Float D⦄ ⦃n : Narrow F D⦄
    (t : DashMap (WeightedEntity F D) M) (c : DashMap CachedReasoning K)
    (ch : Channel (SignalEvent F) C) (config : SensingConfig F) (b : IsChannel ch)
    (format : Format F) (debug : Bool) (laws : IsDashMap t) (cache_laws : IsDashMap c)
    (passes : (p : D)
      → d.lt p (d.lit 5 2) ≡ true
      → debug ≡ true
      → f.lt (n.narrow p) (f.lit 5 2) ≡ true) where
  -- Suppose the sensing agent is scheduled again and again, the receiver is at no time as many
  -- accesses behind it as the channel has slots, no call takes the trigger of entity `j` back, where
  -- `j` is not u64::MAX, the queries to the language model return, and the build has no debug
  -- assertions, or every p-value below 0.05 is below it as an `f32` too. Then whenever the entity stands in the store with its trigger set, the
  -- sensing agent later offers a CausalTrigger of it, the reasoning agent is later handed that
  -- signal, and from then on, once it has worked off what it was handed, it has given an insight
  -- about `j`, and `j` is a hit in its cache.
  pub trigger-IsSettled :
      (events : ℕ → Event F D) (reads : ℕ → Reads F D) (o : Orchestrator F D M K)
      → IsFair events
      → IsPrompt config.channel_capacity events
      → ((i : ℕ) → IsAnswering (reads i))
      → (j : ℕ) → j ≢ heartbeat
      → ((i : ℕ) → KeepsTrigger j (events i))
      → (k : ℕ)
      → IsTriggered t ch config j
          (state_at t ch config events (sensing t c ch config o) k).sensor.store
      → IsSettled t c ch config b format debug events reads o j k
  unfolding entity_id sensing
  trigger-IsSettled events reads o fair prompt answering j real keeps k p =
      let s = sensing t c ch config o in
      let drained = prompt-IsDrained events config.channel_capacity fair prompt in
      let (m, at, le, mine, offer, fate) =
        trigger-IsDelivered t ch config b events s laws fair drained j keeps k p in
      elim fate [
        | inl full ↦
            let room = prompt_room t ch config b events o.store prompt m in absurd (omega arith)
        | inr (l, after, there) ↦
            let x : SignalEvent F = causal_trigger j at.trigger_at in
            let answered = λ (i : ℕ).
              handed_answered t c ch config b format debug laws cache_laws passes events reads o
                (i + l) x answering (inbox_grows t ch config events s x l i there) real in
            (m, at, le, mine, offer, l, after, there, answered)
      ]
