-- ===== src/Intelligence/Orchestrator.antt =====
-- crates/intelligence/src/orchestrator.rs: `Orchestrator`, the agents wired together by one channel.
-- The schedule of the sensing side is an argument, and so is what the reasoning agent reads from
-- elsewhere for each signal; the reasoning agent works off what its end of the channel hands out.
pub mod Answered
pub mod Prompt
pub mod Founded
use atlas_hpc.Base.{ℕ, suc, Bool, List, [], ◌∷◌}
use atlas_hpc.Base.Float.{Float, Narrow}
use atlas_hpc.Base.Outcome.{Outcome}
use atlas_hpc.HotTier.Channel.{Channel}
use atlas_hpc.HotTier.DashMap.{DashMap}
use atlas_hpc.HotTier.Store.{with_capacity}
use atlas_hpc.HotTier.Sensing.{SensingConfig, default_config}
use atlas_hpc.HotTier.Sensing.Threads.{System, Event, spawn, inbox}
use atlas_hpc.Types.Entity.{WeightedEntity}
use atlas_hpc.Types.Signal.{SignalEvent}
use atlas_hpc.WarmTier.Graph.{GraphInner, new_graph}
use atlas_hpc.Intelligence.Cache
use atlas_hpc.Intelligence.Cache.{CachedReasoning}
use atlas_hpc.Intelligence.Agent.{Format, Reads, Turn, run}

-- `K` is the map of the cache.
pub record Orchestrator (F D M K : Type 0) : Type 0 where
  pub store : M
  pub graph : GraphInner F D
  pub cache : K

-- The configuration that `start` makes.
abbrev pub start_config : {F : Type 0} ⦃f : Float F⦄ → SensingConfig F
start_config = record default_config { cpu_core = 0; idle_sleep = 200_000 }

-- The k-th signal, with what the agent reads while it handles it.
abbrev pub with_reads :
    {F D : Type 0} → (ℕ → Reads F D) → ℕ → List (SignalEvent F) → List (SignalEvent F × Reads F D)
with_reads reads k [] = []
with_reads reads k (x ∷ xs) = (x, reads k) ∷ with_reads reads (suc k) xs

-- `Orchestrator::new`.
unfoldable pub new :
    {F D M K : Type 0}
    → DashMap (WeightedEntity F D) M
    → DashMap CachedReasoning K
    → ℕ
    → Orchestrator F D M K
new t c hot_cap = record { store = with_capacity t hot_cap; graph = new_graph; cache = Cache.new c }

module _ {F D M K C : Type 0} ⦃f : Float F⦄ ⦃d : Float D⦄ ⦃n : Narrow F D⦄
    (t : DashMap (WeightedEntity F D) M) (c : DashMap CachedReasoning K)
    (ch : Channel (SignalEvent F) C) (config : SensingConfig F) where
  -- The sensing side of `start`. Its configuration is a parameter, since `main` wires the agents in
  -- the same way with another.
  unfoldable pub sensing : Orchestrator F D M K → System F D M C
  sensing o = spawn t ch config o.store

  -- `start`: what the reasoning thread has done by the time of the first `k` accesses of the
  -- schedule, once it has worked off all it was handed.
  unfoldable pub start :
      Format F
      → Bool
      → (ℕ → Event F D)
      → (ℕ → Reads F D)
      → Orchestrator F D M K
      → ℕ
      → Outcome (List (Turn F D K) × K)
  start format debug events reads o k =
      run format c debug (with_reads reads 0 (inbox t ch config events (sensing o) k)) o.cache
