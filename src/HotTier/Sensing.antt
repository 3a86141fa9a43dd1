-- ===== src/HotTier/Sensing.antt =====
-- crates/hot-tier/src/lib.rs: `SensingAgent`. One sweep of the loop of `run` is a function of the
-- snapshot, which is taken before it; the sleep, the pinning to a core and the log lines are left
-- out.
pub mod Detect
pub mod Resets
pub mod Sweep
pub mod Threads
use mathlib.Core.Option
use atlas_hpc.Base.{ℕ, suc, Bool, true, false, Option, List, [], ◌∷◌, map, nat_eq, if◌then◌else◌}
use atlas_hpc.Base.Dict
use atlas_hpc.Base.Dict.{Dict}
use atlas_hpc.Base.Float.{Float}
use atlas_hpc.HotTier.Channel.{Sender}
use atlas_hpc.HotTier.DashMap.{DashMap}
use atlas_hpc.HotTier.Store.{set_causal_trigger}
use atlas_hpc.Types.Entity.{WeightedEntity}
use atlas_hpc.Types.Signal.{SignalEvent, weight_spike, causal_trigger}

-- `SensingConfig`; a `Duration` is a number of nanoseconds.
pub record SensingConfig (F : Type 0) : Type 0 where
  pub cpu_core : ℕ
  pub idle_sleep : ℕ
  pub spike_threshold : F
  pub channel_capacity : ℕ

-- `SensingConfig::default`, with `WEIGHT_SPIKE_THRESHOLD`.
abbrev pub default_config : {F : Type 0} ⦃f : Float F⦄ → SensingConfig F
default_config ⦃f⦄ = record {
  cpu_core = 0;
  idle_sleep = 100_000;
  spike_threshold = f.lit 15 2;
  channel_capacity = 8_192;
}

-- The readings of the clock for one entity.
pub record Instants : Type 0 where
  pub reset_at : ℕ
  pub trigger_at : ℕ
  pub spike_at : ℕ

-- What a sweep changes: the store, `prev_weights`, the channel, and `idle`.
pub record Sensor (F M C : Type 0) : Type 0 where
  pub store : M
  pub prev_weights : Dict ℕ F
  pub tx : C
  pub idle : Bool

module _ {F D M C : Type 0} ⦃f : Float F⦄ (t : DashMap (WeightedEntity F D) M)
    (sender : Sender (SignalEvent F) C) (config : SensingConfig F) where
  -- Causal trigger check.
  unfoldable pub check_trigger : Instants → WeightedEntity F D → Sensor F M C → Sensor F M C
  check_trigger at entity s =
      if entity.causal_trigger_bit
      then record s {
        store = set_causal_trigger t at.reset_at entity.entity_id false s.store;
        tx = sender.try_send (causal_trigger entity.entity_id at.trigger_at) s.tx;
        idle = false;
      }
      else s

  -- Weight spike check.
  unfoldable pub check_spike : Instants → WeightedEntity F D → Sensor F M C → Sensor F M C
  check_spike at entity s =
      let weight = entity.importance_weight in
      let prev = Option.get_or (Dict.lookup entity.entity_id s.prev_weights) weight in
      let delta = f.abs (f.sub weight prev) in
      if f.le config.spike_threshold delta
      then record s {
        tx = sender.try_send (weight_spike entity.entity_id delta weight at.spike_at) s.tx;
        idle = false;
      }
      else s

  -- The body of the `for` loop.
  unfoldable pub sense : Instants → WeightedEntity F D → Sensor F M C → Sensor F M C
  sense at entity s =
      let checked = check_spike at entity (check_trigger at entity s) in
      record checked {
        prev_weights = Dict.insert entity.entity_id entity.importance_weight checked.prev_weights;
      }

  -- The `for` loop; the k-th entity has the clock readings `at k`.
  unfoldable pub sense_all :
      (ℕ → Instants) → ℕ → List (WeightedEntity F D) → Sensor F M C → Sensor F M C
  sense_all at k [] s = s
  sense_all at k (e ∷ es) s = sense_all at (suc k) es (sense (at k) e s)

  -- `snapshots`.
  abbrev pub snapshots : M → List (WeightedEntity F D)
  snapshots m = map (λ p. p.1) (t.entries m)

  -- One round of the `loop`, up to the sleep.
  unfoldable pub sweep : (ℕ → Instants) → Sensor F M C → Sensor F M C
  sweep at s = sense_all at 0 (snapshots s.store) (record s { idle = true })
