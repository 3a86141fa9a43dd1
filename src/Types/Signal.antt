-- ===== src/Types/Signal.antt =====
-- crates/atlas-types/src/lib.rs: `SignalEvent`.
use atlas_hpc.Base.{ℕ}

pub data SignalEvent (F : Type 0) : Type 0 where
  -- entity_id, delta_w, new_weight, detected_at_ns
  weight_spike : ℕ → F → F → ℕ → SignalEvent F
  -- entity_id, detected_at_ns
  causal_trigger : ℕ → ℕ → SignalEvent F

unfoldable pub entity_id : {F : Type 0} → SignalEvent F → ℕ
entity_id (weight_spike id delta_w new_weight at) = id
entity_id (causal_trigger id at) = id
