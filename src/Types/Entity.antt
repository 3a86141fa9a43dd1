-- ===== src/Types/Entity.antt =====
-- crates/atlas-types/src/lib.rs: `WeightedEntity`, its weight formula, and its `leapfrog::Value`
-- implementation. A `u64` is a native number; `f32` and `f64` are two types with float operations.
use atlas_hpc.Base.{ℕ, zero, suc, ◌-◌, ◌^◌, Bool, false, List, [], ◌∷◌, ◌==◌, nat_eq}
use atlas_hpc.Base.Float.{Float}

abbrev pub zeros : ℕ → List ℕ
zeros zero = []
zeros (suc n) = 0 ∷ zeros n

-- `f32` fields are of type `F`, `f64` fields of type `D`.
pub record WeightedEntity (F D : Type 0) : Type 0 where
  pub entity_id : ℕ
  pub latest_price : D
  pub volatility_score : F
  pub importance_weight : F
  pub causal_trigger_bit : Bool
  pub pad : List ℕ
  pub last_updated_ns : ℕ
  pub reserved : List ℕ

-- The sentinels 0 and `u64::MAX`.
abbrev pub leapfrog_null_id : ℕ
leapfrog_null_id = 0

abbrev pub leapfrog_redirect_id : ℕ
leapfrog_redirect_id = 2 ^ 64 - 1

module _ {F D : Type 0} ⦃f : Float F⦄ where
  -- `WeightedEntity::new`.
  unfoldable pub new : ℕ → D → WeightedEntity F D
  new entity_id latest_price = record {
    entity_id = entity_id;
    latest_price = latest_price;
    volatility_score = f.lit 0 0;
    importance_weight = f.lit 5 1;
    causal_trigger_bit = false;
    pad = zeros 3;
    last_updated_ns = 0;
    reserved = zeros 20;
  }

  -- W_new = (W_old × α) + (S × β).
  unfoldable pub recalculate_weight : F → F → F → WeightedEntity F D → WeightedEntity F D
  recalculate_weight surprise alpha beta e = record e {
    importance_weight = f.add (f.mul e.importance_weight alpha) (f.mul surprise beta);
  }

module _ {F D : Type 0} where
  unfoldable pub is_redirect : WeightedEntity F D → Bool
  is_redirect e = e.entity_id == leapfrog_redirect_id

  unfoldable pub is_null : WeightedEntity F D → Bool
  is_null e = e.entity_id == leapfrog_null_id

module _ {F D : Type 0} ⦃f : Float F⦄ ⦃d : Float D⦄ where
  unfoldable pub redirect : WeightedEntity F D
  unfolding new
  redirect = new leapfrog_redirect_id (d.lit 0 0)

  unfoldable pub null : WeightedEntity F D
  unfolding new
  null = new leapfrog_null_id (d.lit 0 0)
