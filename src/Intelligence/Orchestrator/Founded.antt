-- ===== src/Intelligence/Orchestrator/Founded.antt =====
-- What the insights of the agents that `Orchestrator::start` wires together
-- (crates/intelligence/src/orchestrator.rs) are about.
use atlas_hpc.Base.{
  ℕ, suc, ◌<◌, ◌≡◌, refl, sym, ap, subst, some, List, [], ◌∷◌, ◌==◌, nat_eq, In, arith, Bool,
  Bool-cases, ◌⊎◌, inl, inr,
}
use atlas_hpc.Base.Float.{Float, Narrow}
use atlas_hpc.Base.Outcome.{done}
use atlas_hpc.HotTier.Channel.{Channel, IsChannel}
use atlas_hpc.HotTier.DashMap.{DashMap, IsDashMap}
use atlas_hpc.HotTier.Sensing.{SensingConfig}
use atlas_hpc.HotTier.Sensing.Threads.{Event, inbox}
use atlas_hpc.HotTier.Sensing.Threads.Genuine.{IsGenuine}
use atlas_hpc.HotTier.Sensing.Threads.Truth.{signals-IsGenuine}
use atlas_hpc.HotTier.Sensing.Threads.Steps.{StoodBy}
use atlas_hpc.Types.Entity.{WeightedEntity}
use atlas_hpc.Types.Signal.{SignalEvent, entity_id}
use atlas_hpc.Intelligence.Cache
use atlas_hpc.Intelligence.Cache.{CachedReasoning}
use atlas_hpc.Intelligence.Agent.{Format, Reads, Turn, heartbeat}
use atlas_hpc.Intelligence.Agent.Answers.{real_ids, insight_ids, run_insights, run_source, Gave}
use atlas_hpc.Intelligence.Orchestrator.{Orchestrator, with_reads, sensing, start}

In_real :
    {F D : Type 0} (reads : ℕ → Reads F D) (k : ℕ) (xs : List (SignalEvent F)) (j : ℕ)
    → In j (real_ids (with_reads reads k xs))
    → (x : SignalEvent F) × In x xs × (entity_id x ≡ j)
unfolding real_ids
In_real reads k [] j i = absurd i
In_real reads k (y ∷ ys) j i = elim (Bool-cases (entity_id y == heartbeat)) [
  | inl beat ↦
      let (x, there, same) = In_real reads (suc k) ys j (ground arith) in (x, inr there, same)
  | inr real ↦
      let either : (j ≡ entity_id y) ⊎ In j (real_ids (with_reads reads (suc k) ys)) =
        ground arith in
      elim either [
        | inl here ↦ (y, inl refl, sym here)
        | inr later ↦
            let (x, there, same) = In_real reads (suc k) ys j later in (x, inr there, same)
      ]
]

In_reads :
    {F D : Type 0} (reads : ℕ → Reads F D) (k : ℕ) (xs : List (SignalEvent F))
    (s : SignalEvent F × Reads F D)
    → In s (with_reads reads k xs)
    → In s.0 xs
In_reads reads k [] s i = absurd i
In_reads reads k (y ∷ ys) s (inl here) = inl (ap (λ p. p.0) here)
In_reads reads k (y ∷ ys) s (inr later) = inr (In_reads reads (suc k) ys s later)

module _ {F D M K C : Type 0} ⦃f : Float F⦄ ⦃d : Float D⦄ ⦃n : Narrow F D⦄
    (t : DashMap (WeightedEntity F D) M) (c : DashMap CachedReasoning K)
    (ch : Channel (SignalEvent F) C) (config : SensingConfig F) where
  -- A true signal about the entity: its trigger was set, or its weight moved by the threshold, in
  -- the store by the time of the first `k` accesses.
  abbrev pub IsFounded : (ℕ → Event F D) → Orchestrator F D M K → ℕ → ℕ → Type 0
  IsFounded events o k j =
      (x : SignalEvent F) × (entity_id x ≡ j)
      × IsGenuine config (StoodBy t ch config events (sensing t c ch config o) k) x

  module _ (format : Format F) (debug : Bool) where
    -- A related set is from the cache of the start, or is of such an entity, and is what spreading
    -- activation gave for a signal about it.
    abbrev pub IsSourced :
        (ℕ → Event F D) → (ℕ → Reads F D) → Orchestrator F D M K → ℕ → ℕ → List ℕ → Type 0
    IsSourced events reads o k j related =
        (Cache.get_related c j o.cache ≡ some related)
        ⊎ (IsFounded events o k j
            × (s : SignalEvent F × Reads F D) × In s
                (with_reads reads 0 (inbox t ch config events (sensing t c ch config o) k))
            × Gave format c debug j related s)

module _ {F D M K C : Type 0} ⦃f : Float F⦄ ⦃d : Float D⦄ ⦃n : Narrow F D⦄
    (t : DashMap (WeightedEntity F D) M) (c : DashMap CachedReasoning K)
    (ch : Channel (SignalEvent F) C) (config : SensingConfig F) (b : IsChannel ch)
    (format : Format F) (debug : Bool) (laws : IsDashMap t) (cache_laws : IsDashMap c)
    (holds : 0 < config.channel_capacity) where
  inbox_founded :
      (events : ℕ → Event F D) (o : Orchestrator F D M K) (k : ℕ) (x : SignalEvent F)
      → In x (inbox t ch config events (sensing t c ch config o) k)
      → IsGenuine config (StoodBy t ch config events (sensing t c ch config o) k) x
  unfolding sensing
  inbox_founded events o k x i = signals-IsGenuine t ch config b laws holds events o.store k x i

  -- If the channel has room for a signal, then whatever the feeds write and however the threads
  -- interleave: if the reasoning agent has worked
  -- off what it was handed, then each of its insights is founded on a trigger that was set in the
  -- store, or on a weight there that moved by the threshold. A related set in its cache was there
  -- from the start, or the same holds of its entity, and spreading activation gave it for a signal
  -- about that entity.
  pub insights-IsFounded :
      (events : ℕ → Event F D) (reads : ℕ → Reads F D) (o : Orchestrator F D M K) (k : ℕ)
      (turns : List (Turn F D K)) (cache : K)
      → start t c ch config format debug events reads o k ≡ done (turns, cache)
      → ((j : ℕ) → In j (insight_ids turns) → IsFounded t c ch config events o k j)
        × ((j : ℕ) (related : List ℕ)
            → Cache.get_related c j cache ≡ some related
            → IsSourced t c ch config format debug events reads o k j related)
  unfolding start
  insights-IsFounded events reads o k turns cache ran =
      let box = inbox t ch config events (sensing t c ch config o) k in
      let signals = with_reads reads 0 box in
      let ids = run_insights format c debug signals o.cache cache turns ran in
      (
        λ j i.
            let (x, there, same) = In_real reads 0 box j (subst (In j) ids i) in
            (x, same, inbox_founded events o k x there),
        λ j related found.
            elim (run_source format c debug cache_laws signals o.cache cache turns ran j related
              found) [
                | inl old ↦ inl old
                | inr (s, i, gave) ↦ inr (
                  (s.0, gave.0, inbox_founded events o k s.0 (In_reads reads 0 box s i)),
                  s,
                  i,
                  gave,
                )
              ],
      )
