-- ===== src/Tests/Sensors.antt =====
-- Sweeps of `SensingAgent` over a store with one entity.
use mathlib.Core.Option
use atlas_hpc.Base.{
  nat_eq, ℕ, ◌≡◌, refl, ap, nat_beq_iff, true, false, Option, none, some, List, [], ◌∷◌, ◌++◌, take,
  arith, ◌+◌,
}
use atlas_hpc.Base.Dict
use atlas_hpc.Base.Fixed.{ℤ, pos, negsuc, fixed}
use atlas_hpc.HotTier.DashMap.{Table, table_laws}
use atlas_hpc.HotTier.Channel.{Sender, list_sender, list_sender-IsBounded}
use atlas_hpc.HotTier.Sensing.{
  default_config, Instants, Sensor, snapshots, sweep, sense, sense_all, check_trigger, check_spike,
}
use atlas_hpc.HotTier.Sensing.Detect.{detected, is_empty}
use atlas_hpc.HotTier.Sensing.Sweep.{sweep_sends, sweep_resets, sweep_quiet}
use atlas_hpc.HotTier.Sensing.Resets.{Keyed}
use atlas_hpc.HotTier.Store
use atlas_hpc.Types.Entity.{WeightedEntity}
use atlas_hpc.Types.Signal.{SignalEvent, causal_trigger}
use atlas_hpc.Tests.Stores.{store_map, oil}

-- The trigger is set, and the weight is 0.3 above that of the last sweep.
abbrev pub alarmed : WeightedEntity ℤ ℤ
alarmed = record oil { causal_trigger_bit = true; importance_weight = pos 800_000 }

abbrev Sent : Type 0
Sent = List (SignalEvent ℤ) × ℕ

abbrev channel : Sender (SignalEvent ℤ) (List (SignalEvent ℤ) × ℕ)
channel = list_sender

abbrev pub instants : ℕ → Instants
instants k = record { reset_at = 100 + k; trigger_at = 200 + k; spike_at = 300 + k }

abbrev pub sensor : Sensor ℤ (Table (WeightedEntity ℤ ℤ)) (List (SignalEvent ℤ) × ℕ)
sensor = record {
  store = store_map.insert 7 alarmed store_map.empty;
  prev_weights = (7, pos 500_000) ∷ [];
  tx = ([], 1);
  idle = true;
}

pub sensor-Keyed : Keyed store_map sensor.store
unfolding Dict.lookup Dict.insert Dict.upsert
sensor-Keyed j e p = ground (
  arith,
  nat_beq_iff j 7,
  ap (λ (x : Option (WeightedEntity ℤ ℤ)). Option.map (λ y. y.entity_id) x) p,
)

-- The channel has one free slot: the trigger is sent, and the spike is lost.
swept :
    let after = sweep store_map channel default_config instants sensor in
    (after.tx ≡ (causal_trigger 7 200 ∷ [], 0)) × (after.idle ≡ false)
unfolding sweep sense_all sense check_trigger check_spike Store.set_causal_trigger Dict.lookup
    Dict.insert Dict.upsert Dict.alter
swept = (refl, refl)

sweep_sends_example :
    let signals =
      detected default_config instants 0 sensor.prev_weights
        (snapshots store_map channel default_config sensor.store) in
    ((sweep store_map channel default_config instants sensor).tx.0 ≡ [] ++ take 1 signals)
    × ((sweep store_map channel default_config instants sensor).idle ≡ is_empty signals)
sweep_sends_example =
    sweep_sends store_map channel default_config table_laws list_sender-IsBounded instants sensor
      sensor-Keyed

sweep_resets_example :
    (store_map.get 7 sensor.store ≡ none
      → store_map.get 7 (sweep store_map channel default_config instants sensor).store ≡ none)
    × ((e : WeightedEntity ℤ ℤ)
        → store_map.get 7 sensor.store ≡ some e
        → (ns : ℕ) × (store_map.get 7 (sweep store_map channel default_config instants sensor).store
            ≡ some (record e { causal_trigger_bit = false; last_updated_ns = ns })))
sweep_resets_example =
    sweep_resets store_map channel default_config table_laws instants sensor sensor-Keyed 7

there : store_map.get 7 sensor.store ≡ some alarmed
unfolding Dict.lookup Dict.insert Dict.upsert
there = refl

-- A weight less itself is 0, below 0.15.
still : (w : ℤ) → fixed.le (pos 150_000) (fixed.abs (fixed.sub w w)) ≡ false
still (pos n) = ground arith
still (negsuc n) = ground arith

sweep_quiet_example :
    let once = sweep store_map channel default_config instants sensor in
    let twice = sweep store_map channel default_config instants once in
    (twice.tx.0 ≡ once.tx.0) × (twice.idle ≡ true)
sweep_quiet_example =
    sweep_quiet store_map channel default_config table_laws still list_sender-IsBounded instants
      instants sensor sensor-Keyed
