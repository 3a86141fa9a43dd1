-- ===== src/Intelligence/Orchestrator/Answered.antt =====
-- From a trigger in the hot tier to an insight: the agents that `Orchestrator::start`
-- (crates/intelligence/src/orchestrator.rs) wires together.
use atlas_hpc.Base.{
  ℕ, zero, suc, ◌+◌, ◌≤◌, ◌≡◌, ◌≢◌, sym, ap, subst, All, Bool, true, List, [], ◌∷◌, nat_eq,
  nat_beq_iff, In, In-append, arith, ◌⊎◌, inl, inr,
}
use atlas_hpc.Base.Float.{Float, Narrow}
use atlas_hpc.Base.Outcome.{done}
use atlas_hpc.HotTier.Channel.{Channel, IsChannel}
use atlas_hpc.HotTier.DashMap.{DashMap, IsDashMap}
use atlas_hpc.HotTier.Sensing.{SensingConfig, Instants}
use atlas_hpc.HotTier.Sensing.Threads.{System, Event, agent, state_at, inbox, handed, to_list}
use atlas_hpc.HotTier.Sensing.Threads.Triggers.{IsFair, KeepsTrigger, IsTriggered, Offers}
use atlas_hpc.HotTier.Sensing.Threads.Received.{IsDrained, trigger-IsDelivered}
use atlas_hpc.Types.Entity.{WeightedEntity}
use atlas_hpc.Types.Signal.{SignalEvent, causal_trigger, entity_id}
use atlas_hpc.Intelligence.Cache
use atlas_hpc.Intelligence.Cache.{CachedReasoning}
use atlas_hpc.Intelligence.Agent.{Format, Reads, IsAnswering, Turn, heartbeat}
use atlas_hpc.Intelligence.Agent.Answers.{real_ids, insight_ids, run_insights, run_hits}
use atlas_hpc.Intelligence.Agent.Returns.{run_returns}
use atlas_hpc.Intelligence.Orchestrator.{Orchestrator, with_reads, sensing, start}

-- A signal that is no heartbeat stays one with what is read for it.
real_In :
    {F D : Type 0} (reads : ℕ → Reads F D) (k : ℕ) (xs : List (SignalEvent F)) (x : SignalEvent F)
    → In x xs
    → entity_id x ≢ heartbeat
    → In (entity_id x) (real_ids (with_reads reads k xs))
unfolding real_ids
real_In reads k [] x i real = absurd i
real_In reads k (y ∷ ys) x (inl here) real =
    let e : entity_id x ≡ entity_id y = ap entity_id here in
    ground (arith, nat_beq_iff (entity_id y) heartbeat)
real_In reads k (y ∷ ys) x (inr later) real =
    let there = real_In reads (suc k) ys x later real in ground arith

-- What is read for each signal answers.
with_reads-IsAnswering :
    {F D : Type 0} (reads : ℕ → Reads F D)
    → ((i : ℕ) → IsAnswering (reads i))
    → (k : ℕ) (xs : List (SignalEvent F)) → All (λ s. IsAnswering s.1) (with_reads reads k xs)
with_reads-IsAnswering reads answering k [] = tt
with_reads-IsAnswering reads answering k (x ∷ xs) =
    (answering k, with_reads-IsAnswering reads answering (suc k) xs)

module _ {F D M C : Type 0} ⦃f : Float F⦄ (t : DashMap (WeightedEntity F D) M)
    (ch : Channel (SignalEvent F) C) (config : SensingConfig F) where
  -- What the receiver was handed stays handed.
  pub inbox_grows :
      (events : ℕ → Event F D) (s : System F D M C) (x : SignalEvent F) (m i : ℕ)
      → In x (inbox t ch config events s m)
      → In x (inbox t ch config events s (i + m))
  unfolding inbox
  inbox_grows events s x m zero h =
      let e : m ≡ 0 + m = omega arith in subst (λ n. In x (inbox t ch config events s n)) e h
  inbox_grows events s x m (suc i) h =
      let old = inbox t ch config events s (i + m) in
      let last = handed t ch config (events (i + m)) (state_at t ch config events s (i + m)) in
      let e : suc (i + m) ≡ suc i + m = omega arith in
      subst (λ n. In x (inbox t ch config events s n)) e
        ((In-append x old (to_list last)).1 (inl (inbox_grows events s x m i h)))

module _ {F D M K C : Type 0} ⦃f : Float F⦄ ⦃d : Float D⦄ ⦃n : Narrow F D⦄
    (t : DashMap (WeightedEntity F D) M) (c : DashMap CachedReasoning K)
    (ch : Channel (SignalEvent F) C) (config : SensingConfig F) (b : IsChannel ch)
    (format : Format F) (debug : Bool) where
  module _ (events : ℕ → Event F D) (reads : ℕ → Reads F D) (o : Orchestrator F D M K) where
    abbrev state : ℕ → System F D M C
    state = state_at t ch config events (sensing t c ch config o)

    -- By the time of `k` accesses, the reasoning agent has given an insight about `j`, once it has
    -- worked off what it was handed, and has `j` in its cache.
    abbrev pub HasInsight : ℕ → ℕ → Type 0
    HasInsight j k =
        (turns : List (Turn F D K)) × (cache : K) × (start t c ch config format debug events reads o
            k
          ≡ done (turns, cache))
        × In j (insight_ids turns)
        × (Cache.contains c j cache ≡ true)

    -- At some time from `k` on the sensing agent offers the trigger of `j`. Either the channel is
    -- full then, or from some later time on there is an insight about `j`.
    abbrev pub IsAnswered : ℕ → ℕ → Type 0
    IsAnswered j k =
        (m : ℕ) × (at : Instants) × (k ≤ m)
        × (events m ≡ agent at)
        × Offers t ch config j at (state m).sensor.tx (state (suc m)).sensor.tx
        × ((b.room (state m).sensor.tx ≡ 0) ⊎ ((l : ℕ) × ((i : ℕ) → HasInsight j (i + l))))

module _ {F D M K C : Type 0} ⦃f : Float F⦄ ⦃d : Float D⦄ ⦃n : Narrow F D⦄
    (t : DashMap (WeightedEntity F D) M) (c : DashMap CachedReasoning K)
    (ch : Channel (SignalEvent F) C) (config : SensingConfig F) (b : IsChannel ch)
    (format : Format F) (debug : Bool) (laws : IsDashMap t) (cache_laws : IsDashMap c)
    (passes : (p : D)
      → d.lt p (d.lit 5 2) ≡ true
      → debug ≡ true
      → f.lt (n.narrow p) (f.lit 5 2) ≡ true) where
  -- What was handed over is answered.
  pub handed_answered :
      (events : ℕ → Event F D) (reads : ℕ → Reads F D) (o : Orchestrator F D M K) (k : ℕ)
      (x : SignalEvent F)
      → ((i : ℕ) → IsAnswering (reads i))
      → In x (inbox t ch config events (sensing t c ch config o) k)
      → entity_id x ≢ heartbeat
      → HasInsight t c ch config b format debug events reads o (entity_id x) k
  unfolding start
  handed_answered events reads o k x answering i real =
      let signals = with_reads reads 0 (inbox t ch config events (sensing t c ch config o) k) in
      let (turns, cache, ran) = run_returns format c debug passes signals o.cache (
        with_reads-IsAnswering reads answering 0
          (inbox t ch config events (sensing t c ch config o) k)) in
      let there = real_In reads 0 (inbox t ch config events (sensing t c ch config o) k) x i real in
      let ids = run_insights format c debug signals o.cache cache turns ran in
      (
        turns,
        cache,
        ran,
        subst (In (entity_id x)) (sym ids) there,
        run_hits format c debug cache_laws signals o.cache cache turns ran (entity_id x) there,
      )

  module _ (events : ℕ → Event F D) (reads : ℕ → Reads F D) (o : Orchestrator F D M K) where
    -- Suppose the sensing agent and the receiver are scheduled again and again, no call takes the
    -- trigger of entity `j` back, where `j` is not u64::MAX, the queries to the language model
    -- return, and the build has no debug assertions, or every p-value below 0.05 is below it as an
    -- `f32` too. Then whenever the entity stands in
    -- the store with its trigger set, the sensing agent later offers a CausalTrigger of it. Either
    -- the channel is full at that time, or there is a time from which on the reasoning agent, once
    -- it has worked off what it was handed, has given an insight about `j`, and `j` is a hit in its
    -- cache.
    pub trigger-IsAnswered :
        IsFair events
        → IsDrained events
        → ((i : ℕ) → IsAnswering (reads i))
        → (j : ℕ) → j ≢ heartbeat
        → ((i : ℕ) → KeepsTrigger j (events i))
        → (k : ℕ)
        → IsTriggered t ch config j
            (state_at t ch config events (sensing t c ch config o) k).sensor.store
        → IsAnswered t c ch config b format debug events reads o j k
    unfolding entity_id
    trigger-IsAnswered fair drained answering j real keeps k p =
        let s = sensing t c ch config o in
        let (m, at, le, mine, offer, fate) =
          trigger-IsDelivered t ch config b events s laws fair drained j keeps k p in
        elim fate [
          | inl full ↦ (m, at, le, mine, offer, inl full)
          | inr (l, after, there) ↦
              let x : SignalEvent F = causal_trigger j at.trigger_at in
              let answered = λ (i : ℕ).
                handed_answered events reads o (i + l) x answering
                  (inbox_grows t ch config events s x l i there) real in
              (m, at, le, mine, offer, inr (l, answered))
        ]
